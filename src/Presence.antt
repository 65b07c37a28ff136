-- ===== src/Presence.antt =====
-- internal/presence/registry.go: live presence facts of sessions. A method holds the registry's lock,
-- so it is one step; `now` is the reading of the clock that the method makes. A time is its distance
-- in nanoseconds from Go's zero time, so time.Time{} is 0 and the lease of a fresh record.
pub mod Trace
pub mod Leases
pub mod Listing
mod Examples
use codex_commons.Prelude.{
  ◌≡◌, String, Bool, true, false, Option, none, some, List, [], ◌∷◌, not, ◌&&◌, ◌||◌,
}
use codex_commons.Prelude.Tests.{str_eq, if◌then◌else◌}
use codex_commons.Prelude.Table.{Table, lookup, put}
use codex_commons.Prelude.Text.{str_ltb}
use codex_commons.Prelude.Int.{ℤ, zero_ℤ, ◌+ℤ◌, ltb_ℤ, leb_ℤ, eqb_ℤ}

pub record SessionRecord : Type 0 where
  pub session : String
  pub actor : String
  pub host : String
  pub project : String
  pub host_connected : Bool
  pub last_activity : ℤ
  pub loaded_fact : Option String
  pub lease_expires : ℤ

pub record Snapshot : Type 0 where
  pub session : String
  pub actor : String
  pub host : String
  pub project : String
  pub host_connected : Bool
  pub execution : String
  pub lease_expires : Option ℤ
  pub last_activity : ℤ
  pub loaded_fact : Option String

pub record Session : Type 0 where
  pub id : String
  pub actor : String
  pub host : String
  pub project : String

pub record Registry : Type 0 where
  pub sessions : Table SessionRecord

-- New, with the clock left to the calls.
abbrev pub new_registry : Registry
new_registry = record { sessions = [] }

-- The zero value that a read of a missing key gives.
abbrev pub zero_record : SessionRecord
zero_record = record {
  session = "";
  actor = "";
  host = "";
  project = "";
  host_connected = false;
  last_activity = zero_ℤ;
  loaded_fact = none;
  lease_expires = zero_ℤ;
}

abbrev pub or_zero : Option SessionRecord → SessionRecord
or_zero none = zero_record
or_zero (some rec) = rec

unfoldable pub connect : ℤ → Session → Registry → Registry
connect now s r = record r {
  sessions =
      put s.id
        (record (or_zero (lookup s.id r.sessions)) {
          session = s.id;
          actor = s.actor;
          host = s.host;
          project = s.project;
          host_connected = true;
          last_activity = now;
        })
        r.sessions;
}

-- `rec, ok := r.sessions[session]; if !ok { return false }`, the change of the record, and the write.
unfoldable pub update : String → (SessionRecord → SessionRecord) → Registry → Registry × Bool
update session change r = elim (lookup session r.sessions) [
  | none ↦ (r, false)
  | some rec ↦ (record r { sessions = put session (change rec) r.sessions }, true)
]

unfoldable pub disconnect : ℤ → String → Registry → Registry
unfolding update
disconnect now session r =
    (update session (λ rec. record rec { host_connected = false; last_activity = now }) r).0

unfoldable pub touch : ℤ → String → Registry → Registry × Bool
unfolding update
touch now session r = update session (λ rec. record rec { last_activity = now }) r

-- The fact is copied, so a later write through the caller's pointer changes nothing here.
unfoldable pub set_loaded : ℤ → String → Option String → Registry → Registry × Bool
unfolding update
set_loaded now session fact r =
    update session (λ rec. record rec { loaded_fact = fact; last_activity = now }) r

unfoldable pub lease_execution : ℤ → String → ℤ → Registry → Registry × Bool
unfolding update
lease_execution now session duration r =
    if leb_ℤ duration zero_ℤ
    then (r, false)
    else update session (λ rec. record rec { lease_expires = now +ℤ duration; last_activity = now })
        r

-- `!rec.LeaseExpires.IsZero() && now.Before(rec.LeaseExpires)`
unfoldable pub is_executing : ℤ → SessionRecord → Bool
is_executing now rec = not (eqb_ℤ rec.lease_expires zero_ℤ) && ltb_ℤ now rec.lease_expires

unfoldable pub snapshot : ℤ → SessionRecord → Snapshot
unfolding is_executing
snapshot now rec = record {
  session = rec.session;
  actor = rec.actor;
  host = rec.host;
  project = rec.project;
  host_connected = rec.host_connected;
  execution = if is_executing now rec then "executing" else "not_running";
  lease_expires = if is_executing now rec then some rec.lease_expires else none;
  last_activity = rec.last_activity;
  loaded_fact = rec.loaded_fact;
}

unfoldable pub get : ℤ → String → Registry → Option Snapshot
get now session r = elim (lookup session r.sessions) [
  | none ↦ none
  | some rec ↦ some (snapshot now rec)
]

-- `project == "" || rec.Project == project`
unfoldable pub selects : String → SessionRecord → Bool
selects project rec = str_eq project "" || str_eq rec.project project

-- The loop of List over the map, in some order.
unfoldable pub collect : ℤ → String → Table SessionRecord → List Snapshot
collect now project [] = []
collect now project ((k, rec) ∷ m) =
    let rest = collect now project m in
    if selects project rec then snapshot now rec ∷ rest else rest

-- sort.Slice by Session: a sorted rearrangement, made here by insertion. Which algorithm makes it is
-- of no account, since the sessions of a list are distinct.
unfoldable pub insert_by_session : Snapshot → List Snapshot → List Snapshot
insert_by_session x [] = x ∷ []
insert_by_session x (y ∷ ys) =
    let rest = insert_by_session x ys in
    if str_ltb y.session x.session then y ∷ rest else x ∷ y ∷ ys

unfoldable pub sort_by_session : List Snapshot → List Snapshot
sort_by_session [] = []
sort_by_session (x ∷ xs) = insert_by_session x (sort_by_session xs)

unfoldable pub list : ℤ → String → Registry → List Snapshot
list now project r = sort_by_session (collect now project r.sessions)
