-- ===== src/Jobs/Types.antt =====
-- internal/jobs/types.go: the constants, errors and records of the job runner.
-- A time is its distance in nanoseconds from Go's zero time, a duration a number of nanoseconds.
use codex_commons.Prelude.Results.{Fallible}
use codex_commons.Prelude.{String, Bool, false, Option, none, List}
use codex_commons.Prelude.Int.{ℤ, zero_ℤ}

abbrev pub github_watcher : String
github_watcher = "github_watcher"

abbrev pub wiki_curator : String
wiki_curator = "wiki_curator"

abbrev pub capability_github_read : String
capability_github_read = "github.read"

abbrev pub capability_interpret : String
capability_interpret = "model.interpret"

abbrev pub capability_wiki_propose : String
capability_wiki_propose = "wiki.propose"

abbrev pub capability_create_jobs : String
capability_create_jobs = "jobs.create"

abbrev pub capability_wake_agents : String
capability_wake_agents = "agents.wake"

abbrev pub output_sync_receipt : String
output_sync_receipt = "sync_receipt"

abbrev pub output_wiki_revision_proposal : String
output_wiki_revision_proposal = "wiki_revision_proposal"

abbrev pub watcher_input_scope : String
watcher_input_scope = "one project and one upstream cursor"

abbrev pub curator_input_scope : String
curator_input_scope = "one resolved task and its bounded resolution evidence"

-- The sentinel errors, by which errors.Is tells errors apart. The text that fmt.Errorf wraps round
-- one is left out. The last three stand for context.Canceled, context.DeadlineExceeded and for an
-- error of an external component that wraps no sentinel; `nil_dereference` is Go's panic.
pub data Err : Type 0 where
  invalid_definition invalid_input disabled capability budget : Err
  already_running too_soon idempotency_conflict nil_dereference : Err
  canceled deadline_exceeded : Err
  other : String → Err

abbrev pub Result {ℓ} : Type ℓ → Type ℓ
Result A = Fallible Err A

pub record Definition : Type 0 where
  pub name : String
  pub input_scope : String
  pub capabilities : List String
  pub max_wall_runtime : ℤ
  pub token_budget : ℤ
  pub minimum_interval : ℤ
  pub allowed_output : String

pub record WatchInput : Type 0 where
  pub project : String
  pub cursor : String

pub record ResolvedTask : Type 0 where
  pub project : String
  pub task_id : String
  pub state : String
  pub resolution_revision : ℤ
  pub title : String
  pub resolution : String
  pub evidence : List String

pub record RunRequest : Type 0 where
  pub run_id : String
  pub job : String
  pub watch : Option WatchInput
  pub resolved : Option ResolvedTask

pub record WikiProposal : Type 0 where
  pub project : String
  pub task_id : String
  pub page : String
  pub base_revision : ℤ
  pub proposed_title : String
  pub proposed_body : String
  pub basis : String
  pub requires_review : Bool

pub record Receipt : Type 0 where
  pub run_id : String
  pub job : String
  pub status : String
  pub output_type : String
  pub started_at : ℤ
  pub finished_at : ℤ
  pub cursor : String
  pub changed : Bool
  pub tokens_used : ℤ
  pub error : String
  pub proposal : Option WikiProposal

pub record SyncResult : Type 0 where
  pub cursor : String
  pub changed : Bool

pub record AcquireResult : Type 0 where
  pub acquired : Bool
  pub existing : Option Receipt

-- `Receipt{}`, which accompanies an error.
abbrev pub empty_receipt : Receipt
empty_receipt = record {
  run_id = "";
  job = "";
  status = "";
  output_type = "";
  started_at = zero_ℤ;
  finished_at = zero_ℤ;
  cursor = "";
  changed = false;
  tokens_used = zero_ℤ;
  error = "";
  proposal = none;
}

-- The persistence interface of a runner, over a state `S`. The first argument of `acquire` is what
-- ctx.Err() answers; the others are the definition, the run id, the input digest, the time of the
-- call and the end of the lease.
pub record StateStore (S : Type 0) : Type 0 where
  pub acquire : Option Err → Definition → String → String → ℤ → ℤ → S → S × Result AcquireResult
  pub finish : Receipt → S → S × Option Err
