-- ===== src/Core/Writes/Stored.antt =====
-- What a write that commits has done: its transaction on the tables under the lock, and the record of
-- its request.
use codex_commons.Prelude.{◌≡◌, sym, ap, subst, ◌∙◌, String, none, some, arith, inl, inr}
use codex_commons.Prelude.Table.{lookup, put}
use codex_commons.Prelude.Tests.{Option-cases}
use codex_commons.Prelude.Results.{ok, ok_or_err}
use codex_commons.Core.Types.{Core, Database, RequestRow, Written, returned, rechecked}
use codex_commons.Core.Commands.{Command, prepare, execute}
use codex_commons.Core.Writes.{
  World, Attempt, Request, request_of, read_core_replay, record_core_replay, core_write_failure,
  commit, transact, locked_write, open_write, perform, write,
}

-- The record of a request.
abbrev pub row_of : Request → Written → RequestRow
row_of q w = record {
  operation = q.operation;
  payload_hash = q.fingerprint;
  result_id = w.id;
  result_revision = w.revision;
  project_revision = w.project_revision;
}

pub record IsStored (world : World) (q : Request) (c : Command) (db : Database) (attempt : Attempt)
    : Type 0 where
  pub written : Written
  pub executes : execute world.draw c (Database.core world.locked) ≡ ok (db.core, written)
  pub fresh : lookup q.key (Database.requests world.locked) ≡ none
  pub recorded : db.requests ≡ put q.key (row_of q written) (Database.requests world.locked)
  pub answered : attempt.answer ≡ ok (record { id = written.id; revision = written.revision })

failure_stores_nothing :
    (world : World) (q : Request) (e : _) → (core_write_failure world q e).stored ≡ none
unfolding core_write_failure
failure_stores_nothing world q e = ground arith

commit-IsStored :
    (world : World) (q : Request) (c : Command) (core : Core) (w : Written) (db : Database)
    → execute world.draw c (Database.core world.locked) ≡ ok (core, w)
    → (commit world q core w).stored ≡ some db
    → IsStored world q c db (commit world q core w)
unfolding commit record_core_replay core_write_failure
commit-IsStored world q c core w db x h = record {
  written = w;
  executes = ground arith;
  fresh = ground arith;
  recorded = ground arith;
  answered = ground arith;
}

transact-IsStored :
    (world : World) (q : Request) (c : Command) (db : Database)
    → (transact world q c).stored ≡ some db
    → IsStored world q c db (transact world q c)
unfolding transact
transact-IsStored world q c db h =
    elim (ok_or_err (execute world.draw c (Database.core world.locked))) [
      | inl ((core, w), e) ↦
          rw (e, transact) (commit-IsStored world q c core w db e (rw (e, transact) at h))
      | inr (returned problem, e) ↦ absurd (cc (rw (e, transact) at h))
      | inr (rechecked problem, e) ↦
          absurd (cc (failure_stores_nothing world q problem, rw (e, transact) at h))
    ]

locked-IsStored :
    (world : World) (q : Request) (c : Command) (db : Database)
    → (locked_write world q c).stored ≡ some db
    → IsStored world q c db (locked_write world q c)
unfolding locked_write
locked-IsStored world q c db h =
    elim (ok_or_err (read_core_replay world.locked_err world.locked q)) [
      | inr (problem, e) ↦ absurd (cc (rw (e, locked_write) at h))
      | inl (some replay, e) ↦ absurd (cc (rw (e, locked_write) at h))
      | inl (none, e) ↦
          rw (e, locked_write) (transact-IsStored world q c db (rw (e, locked_write) at h))
    ]

pub open_eq_locked :
    (world : World) (q : Request) (c : Command)
    → world.begin_err ≡ none
    → world.lock_err ≡ none
    → open_write world q c ≡ locked_write world q c
unfolding open_write
open_eq_locked world q c begins locks = ground arith

open-IsStored :
    (world : World) (q : Request) (c : Command) (db : Database)
    → (open_write world q c).stored ≡ some db
    → IsStored world q c db (open_write world q c)
unfolding open_write
open-IsStored world q c db h = elim (Option-cases world.begin_err) [
  | inr (problem, e) ↦ absurd (cc (rw (e, open_write) at h))
  | inl e ↦ elim (Option-cases world.lock_err) [
    | inr (problem, l) ↦
        absurd (cc (failure_stores_nothing world q problem, rw (e, l, open_write) at h))
    | inl l ↦
        let opens = open_eq_locked world q c e l in
        subst (IsStored world q c db) (sym opens)
          (locked-IsStored world q c db (ap Attempt.stored (sym opens) ∙ h))
  ]
]

pub perform-IsStored :
    (world : World) (q : Request) (c : Command) (db : Database)
    → (perform world q c).stored ≡ some db
    → IsStored world q c db (perform world q c)
unfolding perform
perform-IsStored world q c db h =
    elim (ok_or_err (read_core_replay world.before_err world.before q)) [
      | inr (problem, e) ↦ absurd (cc (rw (e, perform) at h))
      | inl (some replay, e) ↦ absurd (cc (rw (e, perform) at h))
      | inl (none, e) ↦ rw (e, perform) (open-IsStored world q c db (rw (e, perform) at h))
    ]

pub write_stored :
    (hash : Command → String) (world : World) (c : Command) (db : Database)
    → (write hash world c).stored ≡ some db
    → (p : Command) × (prepare c ≡ some p)
      × IsStored world (request_of hash p) p db (write hash world c)
unfolding write
write_stored hash world c db h = elim (Option-cases (prepare c)) [
  | inl e ↦ absurd (cc (rw (e, write) at h))
  | inr (p, e) ↦
      (p, e, rw (e, write) (perform-IsStored world (request_of hash p) p db (rw (e, write) at h)))
]
