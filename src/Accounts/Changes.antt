-- ===== src/Accounts/Changes.antt =====
-- What each call of the account may do to it.
use codex_commons.Prelude.{
  ◌≡◌, refl, sym, ap, ◌∙◌, suc, String, Bool, true, false, none, some, Option, List, [], arith, inl,
  inr, ◌⊎◌, ◌&&◌, not, subst,
}
use codex_commons.Prelude.Tests.{Option-cases, Bool-cases, ◌==◌, str_eq, if◌then◌else◌}
use codex_commons.Prelude.Bytes.{Bytes}
use codex_commons.Prelude.Results.{ok, err, ok_or_err}
use codex_commons.Prelude.Lists.{length}
use codex_commons.Prelude.Sql.{name_fits}
use codex_commons.Prelude.Int.{pos, eqb_ℤ, ltb_ℤ, zero_ℤ}
use codex_commons.Core.Types.{Err, Fails}
use codex_commons.Accounts.Types.{
  Accounts, Binding, Event, account_bound, profile_updated, recovery_login, Call, BindRequest,
  ProfileRequest, EventRequest, Answer, local_principal,
}
use codex_commons.Accounts.Profiles.{
  valid_key, valid_human_profile, profile_request_bytes, valid_profile_request,
}
use codex_commons.Accounts.{
  bind_human_account, bind_to, insert_binding, get_binding, commit_and_read, insert_event,
  update_human_profile, change_profile, update_binding, with_profile, answer_again,
  record_human_auth_event, taken, find_event, rolled_back,
}

-- What a call may do: nothing, bind a new account, change the profile, or note a recovery login.
pub data Change (a a2 : Accounts) : Type 0 where
  unchanged : a2 ≡ a → Change a a2
  bound :
      (b : Binding) (e : Event)
      → get_binding a ≡ err Err.not_found
      → a2.binding ≡ some b
      → b.revision ≡ 1
      → insert_event e a.events ≡ ok a2.events
      → e.event_type ≡ account_bound
      → Change a a2
  changed :
      (b b2 : Binding) (e : Event)
      → get_binding a ≡ ok b
      → a2.binding ≡ some b2
      → b2.revision ≡ suc b.revision
      → b2.subject_digest ≡ b.subject_digest
      → insert_event e a.events ≡ ok a2.events
      → e.event_type ≡ profile_updated
      → Change a a2
  noted :
      (e : Event)
      → a2.binding ≡ a.binding
      → insert_event e a.events ≡ ok a2.events
      → e.event_type ≡ recovery_login
      → Change a a2

commit_or_not :
    (call : Call) (a a2 : Accounts)
    → ((commit_and_read call a a2).0 ≡ a) ⊎ ((commit_and_read call a a2).0 ≡ a2)
unfolding commit_and_read
commit_or_not call a a2 = elim (Option-cases call.commit_err) [
  | inl e ↦ inr (rw (e, commit_and_read) refl)
  | inr (problem, e) ↦ inl (rw (e, commit_and_read) refl)
]

abbrev bound_event : Call → Event
bound_event call = record {
  id = call.event_id;
  event_type = account_bound;
  binding_revision = pos 1;
  request_key = "";
  request_digest = [];
  recorded_at = call.now;
}

abbrev bound_binding : Call → BindRequest → Binding
bound_binding call q = record {
  subject_digest = q.subject_digest;
  display_name = q.display_name;
  handle = q.handle;
  revision = 1;
  created_at = call.now;
  updated_at = call.now;
}

if-Change {ℓ} :
    {A : Type ℓ} (a : Accounts) (test : Bool) (x y : Answer A)
    → Change a x.0
    → Change a y.0
    → Change a (if test then x else y).0
if-Change a true x y h k = h
if-Change a false x y h k = k

-- What the first account becomes, by the answer of the INSERT of its event.
opened : Call → BindRequest → Accounts → Fails (List Event) → Answer Binding
opened call q a (err e) = rolled_back a e
opened call q a (ok events) =
    commit_and_read call a (record { binding = some (bound_binding call q); events = events })

insert_binding-Change :
    (call : Call) (q : BindRequest) (a : Accounts)
    → get_binding a ≡ err Err.not_found
    → Change a (insert_binding call q a).0
unfolding insert_binding opened
insert_binding-Change call q a free =
    if-Change a (not (name_fits q.display_name)) (rolled_back a Err.constraint) _ (unchanged refl)
      (elim (ok_or_err (insert_event (bound_event call) a.events)) [
        | inr (problem, e) ↦ subst (λ m. Change a (opened call q a m).0) (sym e) (unchanged refl)
        | inl (events, e) ↦
            subst (λ m. Change a (opened call q a m).0) (sym e)
              (let after : Accounts = record {
                binding = some (bound_binding call q);
                events = events;
              } in
                elim (commit_or_not call a after) [
                  | inl same ↦ unchanged same
                  | inr done_so ↦
                      bound (bound_binding call q) (bound_event call) free
                        (ap Accounts.binding done_so) refl
                        (e ∙ ap (λ x. ok (Accounts.events x)) (sym done_so)) refl
                ])
      ])

bind_to-Change :
    (call : Call) (q : BindRequest) (a : Accounts) → Change a (bind_to call q a (get_binding a)).0
unfolding bind_to
bind_to-Change call q a = elim (ok_or_err (get_binding a)) [
  | inl (b, e) ↦ unchanged (ground (arith, e))
  | inr (Err.not_found, e) ↦ rw (e, bind_to) (insert_binding-Change call q a e)
  | inr (Err.invalid, e) ↦ rw (e, bind_to) (unchanged refl)
  | inr (Err.conflict, e) ↦ rw (e, bind_to) (unchanged refl)
  | inr (Err.unavailable, e) ↦ rw (e, bind_to) (unchanged refl)
  | inr (Err.constraint, e) ↦ rw (e, bind_to) (unchanged refl)
  | inr (Err.other text, e) ↦ rw (e, bind_to) (unchanged refl)
]

abbrev begun : Call → BindRequest → Accounts → Option Err → Answer Binding
begun call q a none = bind_to call q a (get_binding a)
begun call q a (some e) = rolled_back a e

abbrev updating : Call → ProfileRequest → Bytes → Accounts → Option Err → Answer Binding
updating call q digest a none = change_profile call q digest a
updating call q digest a (some e) = rolled_back a e

entered : Call → ProfileRequest → Accounts → Binding → Fails (List Event) → Answer Binding
entered call q a b (err e) = rolled_back a e
entered call q a b (ok events) =
    commit_and_read call a (record { binding = some (with_profile call q b); events = events })

abbrev enters : EventRequest → Accounts → Bool
enters q a =
    str_eq q.principal local_principal
    && str_eq q.event_type "recovery_login"
    && not (ltb_ℤ q.binding_revision zero_ℤ)
    && valid_key q.idempotency_key
    && not (taken recovery_login q.idempotency_key a.events)

pub bind-Change :
    (call : Call) (q : BindRequest) (a : Accounts) → Change a (bind_human_account call q a).0
unfolding bind_human_account
bind-Change call q a =
    if-Change a (not (length q.subject_digest == 32 && valid_human_profile q.display_name q.handle))
      (a, err Err.invalid) _ (unchanged refl)
      (elim (Option-cases call.begin_err) [
        | inl e ↦ subst (λ o. Change a (begun call q a o).0) (sym e) (bind_to-Change call q a)
        | inr (problem, e) ↦ subst (λ o. Change a (begun call q a o).0) (sym e) (unchanged refl)
      ])

abbrev profile_event : Call → ProfileRequest → Bytes → Binding → Event
profile_event call q digest b = record {
  id = call.event_id;
  event_type = profile_updated;
  binding_revision = pos (suc b.revision);
  request_key = q.idempotency_key;
  request_digest = digest;
  recorded_at = call.now;
}

update_binding-Change :
    (call : Call) (q : ProfileRequest) (digest : Bytes) (a : Accounts) (b : Binding)
    → get_binding a ≡ ok b
    → Change a (update_binding call q digest a b).0
unfolding update_binding with_profile entered
update_binding-Change call q digest a b at =
    if-Change a (not (eqb_ℤ (pos b.revision) q.base_revision)) (a, err Err.conflict) _
      (unchanged refl)
      (if-Change a (not (name_fits q.display_name)) (rolled_back a Err.constraint) _
        (unchanged refl)
        (elim (ok_or_err (insert_event (profile_event call q digest b) a.events)) [
          | inr (problem, e) ↦
              subst (λ m. Change a (entered call q a b m).0) (sym e) (unchanged refl)
          | inl (events, e) ↦
              subst (λ m. Change a (entered call q a b m).0) (sym e)
                (let after : Accounts = record {
                  binding = some (with_profile call q b);
                  events = events;
                } in
                  elim (commit_or_not call a after) [
                    | inl same ↦ unchanged same
                    | inr done_so ↦
                        changed b (with_profile call q b) (profile_event call q digest b) at
                          (ap Accounts.binding done_so) refl refl
                          (e ∙ ap (λ x. ok (Accounts.events x)) (sym done_so)) refl
                  ])
        ]))

change_profile-Change :
    (call : Call) (q : ProfileRequest) (digest : Bytes) (a : Accounts)
    → Change a (change_profile call q digest a).0
unfolding change_profile answer_again
change_profile-Change call q digest a =
    elim (Option-cases (find_event profile_updated q.idempotency_key a.events)) [
      | inr (e, k) ↦ unchanged (ground (arith, k))
      | inl k ↦ elim (ok_or_err (get_binding a)) [
        | inr (problem, e) ↦ unchanged (ground (arith, k, e))
        | inl (b, e) ↦
            subst (Change a) (ground (arith, k, e)) (update_binding-Change call q digest a b e)
      ]
    ]

pub update-Change :
    (hash : Bytes → Bytes) (utf8 : String → Bytes) (call : Call) (q : ProfileRequest) (a : Accounts)
    → Change a (update_human_profile hash utf8 call q a).0
unfolding update_human_profile
update-Change hash utf8 call q a =
    let digest = hash (profile_request_bytes utf8 q) in
    if-Change a (not (valid_profile_request q)) (a, err Err.invalid) _ (unchanged refl)
      (elim (Option-cases call.begin_err) [
        | inl e ↦
            subst (λ o. Change a (updating call q digest a o).0) (sym e)
              (change_profile-Change call q digest a)
        | inr (problem, e) ↦
            subst (λ o. Change a (updating call q digest a o).0) (sym e) (unchanged refl)
      ])

abbrev login_event : Call → EventRequest → Event
login_event call q = record {
  id = call.event_id;
  event_type = recovery_login;
  binding_revision = q.binding_revision;
  request_key = q.idempotency_key;
  request_digest = [];
  recorded_at = call.now;
}

pub record-Change :
    (call : Call) (q : EventRequest) (a : Accounts) → Change a (record_human_auth_event call q a).0
unfolding record_human_auth_event
record-Change call q a = elim (ok_or_err (insert_event (login_event call q) a.events)) [
  | inr (problem, e) ↦ unchanged (ground (arith, e))
  | inl (events, e) ↦
      let after : Accounts = record a { events = events } in
      elim (Bool-cases (enters q a)) [
        | inr idle ↦ unchanged (ground (arith, idle, e))
        | inl goes ↦
            let is : (record_human_auth_event call q a).0 ≡ after = ground (arith, goes, e) in
            subst (Change a) (sym is) (noted (login_event call q) refl e refl)
      ]
]
