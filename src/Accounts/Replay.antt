-- ===== src/Accounts/Replay.antt =====
-- A change of the profile that is sent again under its key.
use codex_commons.Prelude.{
  ◌≡◌, ◌≢◌, refl, sym, ap, ◌∙◌, suc, String, true, none, some, List, arith, inl, inr, ◌&&◌,
}
use codex_commons.Prelude.Tests.{Bool-cases, str_eq, str_eq_iff, if◌then◌else◌}
use codex_commons.Prelude.Lists.{length}
use codex_commons.Prelude.Int.{pos}
use codex_commons.Prelude.Bytes.{Bytes, bytes_eq}
use codex_commons.Prelude.Results.{ok, err, ok_or_err}
use codex_commons.Core.Types.{conflict}
use codex_commons.Accounts.Types.{Accounts, Binding, Event, profile_updated, Call, ProfileRequest}
use codex_commons.Accounts.Profiles.{valid_profile_request, profile_request_bytes, valid_key}
use codex_commons.Accounts.{
  insert_event, find_event, taken, same_type, change_profile, update_binding, answer_again,
  commit_and_read, get_binding, update_human_profile,
}
use codex_commons.Accounts.Changes.{Change, unchanged, bound, changed, noted}
use codex_commons.Accounts.Steps.{Later, Later_rule}

insert_keeps :
    (e new : Event) (key : String) (events events2 : List Event)
    → key ≢ ""
    → insert_event new events ≡ ok events2
    → find_event profile_updated key events ≡ some e
    → find_event profile_updated key events2 ≡ some e
unfolding insert_event find_event taken same_type
insert_keeps e new key events events2 named h at =
    elim (Bool-cases (same_type new.event_type profile_updated && str_eq new.request_key key)) [
      | inr other ↦ ground (arith, other)
      | inl same ↦ ground (
        arith,
        same,
        str_eq_iff new.request_key key,
        str_eq_iff new.request_key "",
        named,
        ap (λ k. find_event profile_updated k events)
            ((str_eq_iff new.request_key key).0 (ground (arith, same))),
      )
    ]

Change-keeps :
    (e : Event) (key : String) (x y : Accounts)
    → key ≢ ""
    → Change x y
    → find_event profile_updated key x.events ≡ some e
    → find_event profile_updated key y.events ≡ some e
Change-keeps e key x y named (unchanged same) at =
    ap (λ a. find_event profile_updated key (Accounts.events a)) same ∙ at
Change-keeps e key x y named (bound b new free to one in_log kind) at =
    insert_keeps e new key x.events y.events named in_log at
Change-keeps e key x y named (changed b b2 new from to next keeps in_log kind) at =
    insert_keeps e new key x.events y.events named in_log at
Change-keeps e key x y named (noted new kept in_log kind) at =
    insert_keeps e new key x.events y.events named in_log at

-- A change of the profile that is answered with an account has left its event.
change_leaves :
    (call : Call) (q : ProfileRequest) (digest : Bytes) (a : Accounts) (b : Binding)
    → find_event profile_updated q.idempotency_key a.events ≡ none
    → (change_profile call q digest a).1 ≡ ok b
    → (e : Event) × (find_event profile_updated q.idempotency_key
          (change_profile call q digest a).0.events
        ≡ some e)
      × (e.request_digest ≡ digest)
unfolding change_profile update_binding commit_and_read insert_event find_event same_type
change_leaves call q digest a b fresh h = elim (ok_or_err (get_binding a)) [
  | inr (problem, e) ↦ absurd (ground (arith, fresh, e, h))
  | inl (current, e) ↦
      let event : Event = record {
        id = call.event_id;
        event_type = profile_updated;
        binding_revision = pos (suc current.revision);
        request_key = q.idempotency_key;
        request_digest = digest;
        recorded_at = call.now;
      } in
      (event, ground (arith, fresh, e, h, str_eq_iff q.idempotency_key q.idempotency_key), refl)
]

module _ (hash : Bytes → Bytes) (utf8 : String → Bytes) where
  opens :
      (call : Call) (q : ProfileRequest) (a : Accounts)
      → valid_profile_request q ≡ true
      → call.begin_err ≡ none
      → update_human_profile hash utf8 call q a
        ≡ change_profile call q (hash (profile_request_bytes utf8 q)) a
  unfolding update_human_profile
  opens call q a valid begins = ground arith

  answered_by :
      (call : Call) (q : ProfileRequest) (digest : Bytes) (a : Accounts) (e : Event)
      → find_event profile_updated q.idempotency_key a.events ≡ some e
      → change_profile call q digest a ≡ answer_again digest e a
  unfolding change_profile
  answered_by call q digest a e at = ground arith

  by_digest :
      (e : Event) (digest digest2 : Bytes) (a : Accounts)
      → e.request_digest ≡ digest
      → length digest ≡ 32
      → answer_again digest2 e a
        ≡ (a, if bytes_eq digest digest2 then get_binding a else err conflict)
  unfolding answer_again
  by_digest e digest digest2 a from size =
      ground (arith, ap length from, ap (λ d. bytes_eq d digest2) from, size)

  named : (q : ProfileRequest) → valid_profile_request q ≡ true → q.idempotency_key ≢ ""
  unfolding valid_profile_request valid_key
  named q valid = λ empty. ground (arith, (str_eq_iff q.idempotency_key "").1 empty)

  -- A change of the profile takes effect once: when it was answered with the account under a new key,
  -- then, whatever calls follow, a valid request under that key changes nothing. It is answered with the
  -- account as it is then if the hash of the request is the same, and with a conflict otherwise. The
  -- hash gives 32 bytes.
  pub update_again :
      (call call2 : Call) (q q2 : ProfileRequest) (a a2 : Accounts) (b : Binding)
      → valid_profile_request q ≡ true
      → call.begin_err ≡ none
      → find_event profile_updated q.idempotency_key a.events ≡ none
      → (update_human_profile hash utf8 call q a).1 ≡ ok b
      → Later hash utf8 (update_human_profile hash utf8 call q a).0 a2
      → valid_profile_request q2 ≡ true
      → call2.begin_err ≡ none
      → q2.idempotency_key ≡ q.idempotency_key
      → length (hash (profile_request_bytes utf8 q)) ≡ 32
      → update_human_profile hash utf8 call2 q2 a2 ≡ (
        a2,
        if bytes_eq (hash (profile_request_bytes utf8 q)) (hash (profile_request_bytes utf8 q2))
            then get_binding a2
            else err conflict,
      )
  update_again call call2 q q2 a a2 b valid begins fresh answered later valid2 begins2 key size =
      let digest = hash (profile_request_bytes utf8 q) in
      let digest2 = hash (profile_request_bytes utf8 q2) in
      let first = opens call q a valid begins in
      let (e, at, from) =
        change_leaves call q digest a b fresh (ap (λ x. x.1) (sym first) ∙ answered) in
      let there : find_event profile_updated q.idempotency_key a2.events ≡ some e =
        Later_rule hash utf8
          (λ x. find_event profile_updated q.idempotency_key (Accounts.events x) ≡ some e)
          (update_human_profile hash utf8 call q a).0 a2
          (λ x y c h. Change-keeps e q.idempotency_key x y (named q valid) c h)
          (ap (λ x. find_event profile_updated q.idempotency_key (Accounts.events x.0)) first ∙ at)
          later in
      opens call2 q2 a2 valid2 begins2
      ∙ answered_by call2 q2 digest2 a2 e
          (ap (λ k. find_event profile_updated k a2.events) key ∙ there)
      ∙ by_digest e digest digest2 a2 from size
