-- ===== src/Jobs/Memory.antt =====
-- internal/jobs/memory_store.go. A method holds the mutex from its first read to its return, so it
-- is one step of the state.
pub mod Trace
pub mod Leases
pub mod Replay
pub mod Keys
use codex_commons.Prelude.{String, Bool, true, false, Option, none, some, [], not, ◌&&◌}
use codex_commons.Prelude.Tests.{bool_eq, str_eq, if◌then◌else◌}
use codex_commons.Prelude.Table.{Table, lookup, put, remove}
use codex_commons.Prelude.Int.{ℤ, ◌+ℤ◌, ltb_ℤ, eqb_ℤ}
use codex_commons.Prelude.Results.{ok, err}
use codex_commons.Jobs.Types.{
  Definition, Receipt, WikiProposal, AcquireResult, StateStore, Result, Err, already_running,
  too_soon, idempotency_conflict, invalid_input,
}
use Prim.Native.String

pub record Lease : Type 0 where
  pub run_id : String
  pub until : ℤ

pub record MemoryStore : Type 0 where
  pub active : Table Lease
  pub last_start : Table ℤ
  pub bindings : Table String
  pub completed : Table Receipt

abbrev pub new_memory_store : MemoryStore
new_memory_store = record { active = []; last_start = []; bindings = []; completed = [] }

-- string(name) + "\x00" + runID
unfoldable pub job_key : String → String → String
job_key name run_id = String.◌++◌ name (String.◌++◌ "\0" run_id)

-- `bound, ok := s.bindings[key]; ok && bound != inputDigest`
unfoldable pub rebinds : Option String → String → Bool
rebinds none digest = false
rebinds (some bound) digest = not (str_eq bound digest)

-- `current, ok := s.active[name]; ok && now.Before(current.until)`
unfoldable pub is_leased : Option Lease → ℤ → Bool
is_leased none now = false
is_leased (some current) now = ltb_ℤ now current.until

-- `last, ok := s.lastStart[name]; ok && now.Before(last.Add(definition.MinimumInterval))`
unfoldable pub is_too_soon : Option ℤ → ℤ → ℤ → Bool
is_too_soon none interval now = false
is_too_soon (some last) interval now = ltb_ℤ now (last +ℤ interval)

-- The tests on the lease and on the interval, and the three writes, for a key not yet completed.
start_run : Definition → String → String → ℤ → ℤ → MemoryStore → MemoryStore × Result AcquireResult
start_run d run_id digest now until s =
    if is_leased (lookup d.name s.active) now
    then (s, err already_running)
    else if is_too_soon (lookup d.name s.last_start) d.minimum_interval now
    then (s, err too_soon)
    else (
      record s {
        bindings = put (job_key d.name run_id) digest s.bindings;
        active = put d.name (record { run_id = run_id; until = until }) s.active;
        last_start = put d.name now s.last_start;
      },
      ok (record { acquired = true; existing = none }),
    )

acquire_locked :
    Definition → String → String → ℤ → ℤ → MemoryStore → MemoryStore × Result AcquireResult
unfolding start_run
acquire_locked d run_id digest now until s =
    if rebinds (lookup (job_key d.name run_id) s.bindings) digest
    then (s, err idempotency_conflict)
    else elim (lookup (job_key d.name run_id) s.completed) [
      | some receipt ↦ (s, ok (record { acquired = false; existing = some receipt }))
      | none ↦ start_run d run_id digest now until s
    ]

-- The first argument is what ctx.Err() answers.
unfoldable pub acquire :
    Option Err
    → Definition
    → String
    → String
    → ℤ
    → ℤ
    → MemoryStore
    → MemoryStore × Result AcquireResult
unfolding acquire_locked rebinds is_leased is_too_soon
acquire (some e) d run_id digest now until s = (s, err e)
acquire none d run_id digest now until s = acquire_locked d run_id digest now until s

same_proposal : Option WikiProposal → Option WikiProposal → Bool
same_proposal none none = true
same_proposal (some p) (some q) =
    str_eq p.project q.project
    && str_eq p.task_id q.task_id
    && str_eq p.page q.page
    && eqb_ℤ p.base_revision q.base_revision
    && str_eq p.proposed_title q.proposed_title
    && str_eq p.proposed_body q.proposed_body
    && str_eq p.basis q.basis
    && bool_eq p.requires_review q.requires_review
same_proposal _ _ = false

-- reflect.DeepEqual on two receipts, whose times are UTC readings of one clock.
same_receipt : Receipt → Receipt → Bool
unfolding same_proposal
same_receipt a b =
    str_eq a.run_id b.run_id
    && str_eq a.job b.job
    && str_eq a.status b.status
    && str_eq a.output_type b.output_type
    && eqb_ℤ a.started_at b.started_at
    && eqb_ℤ a.finished_at b.finished_at
    && str_eq a.cursor b.cursor
    && bool_eq a.changed b.changed
    && eqb_ℤ a.tokens_used b.tokens_used
    && str_eq a.error b.error
    && same_proposal a.proposal b.proposal

-- `current, ok := s.active[job]; ok && current.runID == receipt.RunID`
unfoldable pub holds : Option Lease → String → Bool
holds none run_id = false
holds (some current) run_id = str_eq current.run_id run_id

unfoldable pub finish : Receipt → MemoryStore → MemoryStore × Option Err
unfolding same_receipt holds
finish receipt s = elim (lookup (job_key receipt.job receipt.run_id) s.completed) [
  | some prior ↦ if same_receipt prior receipt then (s, none) else (s, some invalid_input)
  | none ↦
      if holds (lookup receipt.job s.active) receipt.run_id
      then (
        record s {
          completed = put (job_key receipt.job receipt.run_id) receipt s.completed;
          active = remove receipt.job s.active;
        },
        none,
      )
      else (s, some already_running)
]

abbrev pub memory_state_store : StateStore MemoryStore
memory_state_store = record { acquire = acquire; finish = finish }
