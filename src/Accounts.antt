-- ===== src/Accounts.antt =====
-- internal/store/human_auth.go: the one account of an installation, its profile and its append-only
-- events. SHA-256, the bytes of a Go string and newID are parameters. A transaction is one step, and no
-- other process writes between a commit and the read behind it. A statement fails only at a constraint.
pub mod Types
pub mod Profiles
pub mod Changes
pub mod Steps
pub mod Audit
pub mod Replay
mod Examples
use Prim.Native.Nat.{◌/◌, ◌%◌, ◌^◌}
use Prim.Native.String
use Prim.Native.Char.{code}
use codex_commons.Prelude.{
  ℕ, suc, String, len, Bool, true, false, Option, none, some, List, [], ◌∷◌, ◌++◌, ◌&&◌, ◌||◌, not,
}
use codex_commons.Prelude.Tests.{leb, ltb, ◌==◌, str_eq, if◌then◌else◌}
use codex_commons.Prelude.Lists.{length}
use codex_commons.Prelude.Sql.{name_fits}
use codex_commons.Prelude.Bytes.{Bytes, bytes_eq}
use codex_commons.Prelude.Text.{trim_space, to_lower, all_chars}
use codex_commons.Prelude.Int.{ℤ, pos, pos_part, eqb_ℤ, ltb_ℤ, zero_ℤ}
use codex_commons.Prelude.Results.{ok, err, ◌>>=◌, ◌>>◌, require, found}
use codex_commons.Core.Types.{Err, Fails, invalid, conflict, not_found, constraint, other}
use codex_commons.Core.Rows.{map_err}
use codex_commons.Accounts.Types.{
  Binding, EventType, Event, Accounts, BindRequest, ProfileRequest, EventRequest, Call,
  local_principal, Answer, account_bound, profile_updated, recovery_login,
}
use codex_commons.Accounts.Profiles.{
  ends_with, starts_with, is_handle, valid_human_profile, valid_key, put_uint64, write_string,
  profile_request_bytes, valid_profile_request,
}

unfoldable pub get_binding : Accounts → Fails Binding
get_binding a = do
  b ← found a.binding not_found
  require (length (Binding.subject_digest b) == 32)
      (other "stored human account digest has invalid length")
  ok b

same_type : EventType → EventType → Bool
same_type account_bound account_bound = true
same_type profile_updated profile_updated = true
same_type recovery_login recovery_login = true
same_type _ _ = false

unfoldable pub has_event_id : String → List Event → Bool
has_event_id id [] = false
has_event_id id (e ∷ events) = str_eq e.id id || has_event_id id events

-- The event of a type that a request left.
unfoldable pub find_event : EventType → String → List Event → Option Event
unfolding same_type
find_event type key [] = none
find_event type key (e ∷ events) =
    let rest = find_event type key events in
    if same_type e.event_type type && str_eq e.request_key key then some e else rest

taken : EventType → String → List Event → Bool
taken type key events = elim (find_event type key events) [ none ↦ false | some e ↦ true ]

-- INSERT INTO human_auth_events, with its primary key and its unique index on named requests.
unfoldable pub insert_event : Event → List Event → Fails (List Event)
unfolding taken
insert_event e events =
    if has_event_id e.id events
      || not (str_eq e.request_key "") && taken e.event_type e.request_key events
    then err constraint
    else ok (e ∷ events)

-- A transaction that stops leaves the tables as they were.
abbrev rolled_back {ℓ} : {A : Type ℓ} → Accounts → Err → Answer A
rolled_back a e = (a, err (map_err e))

-- Commit, and the read of the account behind it.
unfoldable pub commit_and_read : Call → Accounts → Accounts → Answer Binding
commit_and_read call before after = elim call.commit_err [
  | some e ↦ rolled_back before e
  | none ↦ (after, get_binding after)
]

-- Both INSERTs, and the CHECK on the display name of the account.
insert_binding : Call → BindRequest → Accounts → Answer Binding
insert_binding call q a =
    if not (name_fits q.display_name)
    then rolled_back a constraint
    else elim (insert_event
        (record {
          id = call.event_id;
          event_type = account_bound;
          binding_revision = pos 1;
          request_key = "";
          request_digest = [];
          recorded_at = call.now;
        })
        a.events) [
          | err e ↦ rolled_back a e
          | ok events ↦ commit_and_read call a (record {
            binding = some (record {
              subject_digest = q.subject_digest;
              display_name = q.display_name;
              handle = q.handle;
              revision = 1;
              created_at = call.now;
              updated_at = call.now;
            });
            events = events;
          })
        ]

-- What BindHumanAccount does with the account that it finds.
bind_to : Call → BindRequest → Accounts → Fails Binding → Answer Binding
unfolding insert_binding
bind_to call q a (ok current) =
    if bytes_eq current.subject_digest q.subject_digest then (a, ok current) else (a, err conflict)
bind_to call q a (err not_found) = insert_binding call q a
bind_to call q a (err e) = (a, err e)

unfoldable pub bind_human_account : Call → BindRequest → Accounts → Answer Binding
unfolding bind_to
bind_human_account call q a =
    if not (length q.subject_digest == 32 && valid_human_profile q.display_name q.handle)
    then (a, err invalid)
    else elim call.begin_err [ some e ↦ rolled_back a e | none ↦ bind_to call q a (get_binding a) ]

with_profile : Call → ProfileRequest → Binding → Binding
with_profile call q b = record b {
  display_name = q.display_name;
  handle = q.handle;
  revision = suc b.revision;
  updated_at = call.now;
}

-- The update of the profile on the account that is there, with the CHECK on its display name.
unfoldable pub update_binding : Call → ProfileRequest → Bytes → Accounts → Binding → Answer Binding
unfolding with_profile
update_binding call q digest a current =
    if not (eqb_ℤ (pos current.revision) q.base_revision)
    then (a, err conflict)
    else if not (name_fits q.display_name)
    then rolled_back a constraint
    else elim (insert_event
        (record {
          id = call.event_id;
          event_type = profile_updated;
          binding_revision = pos (suc current.revision);
          request_key = q.idempotency_key;
          request_digest = digest;
          recorded_at = call.now;
        })
        a.events) [
          | err e ↦ rolled_back a e
          | ok events ↦
              commit_and_read call a
                (record { binding = some (with_profile call q current); events = events })
        ]

-- A request that has an event: the account as it is, if the request is the same.
unfoldable pub answer_again : Bytes → Event → Accounts → Answer Binding
answer_again digest e a =
    if not (length e.request_digest == 32) || not (bytes_eq e.request_digest digest)
    then (a, err conflict)
    else (a, get_binding a)

unfoldable pub change_profile : Call → ProfileRequest → Bytes → Accounts → Answer Binding
change_profile call q digest a = elim (find_event profile_updated q.idempotency_key a.events) [
  | some e ↦ answer_again digest e a
  | none ↦ elim (get_binding a) [
    | err e ↦ (a, err e)
    | ok current ↦ update_binding call q digest a current
  ]
]

module _ (hash : Bytes → Bytes) (utf8 : String → Bytes) where
  unfoldable pub update_human_profile : Call → ProfileRequest → Accounts → Answer Binding
  update_human_profile call q a =
      if not (valid_profile_request q) then (a, err invalid) else elim call.begin_err [
        | some e ↦ rolled_back a e
        | none ↦ change_profile call q (hash (profile_request_bytes utf8 q)) a
      ]

unfoldable pub record_human_auth_event : Call → EventRequest → Accounts → Answer (Unit {0})
unfolding valid_key taken
record_human_auth_event call q a =
    if not (
      str_eq q.principal local_principal
      && str_eq q.event_type "recovery_login"
      && not (ltb_ℤ q.binding_revision zero_ℤ)
      && valid_key q.idempotency_key)
    then (a, err invalid)
    else if taken recovery_login q.idempotency_key a.events
    then (a, ok tt)
    else elim (insert_event
        (record {
          id = call.event_id;
          event_type = recovery_login;
          binding_revision = q.binding_revision;
          request_key = q.idempotency_key;
          request_digest = [];
          recorded_at = call.now;
        })
        a.events) [ err e ↦ rolled_back a e | ok events ↦ (record a { events = events }, ok tt) ]
