-- ===== src/Jobs/Runner.antt =====
-- Runner.Run and what it calls in internal/jobs/runner.go.
-- What the outside answers during one call is a record: the clock, the contexts, the kill switch,
-- the GitHub reader and the interpreter. The other calls of the store are a parameter of Run.
pub mod Authority
pub mod Gates
pub mod Finishing
pub mod Completion
pub mod Endings
use codex_commons.Prelude.{
  String, len, Bool, false, Option, none, some, List, [], ◌∷◌, not, ◌&&◌, ◌||◌,
}
use codex_commons.Prelude.Tests.{leb, str_eq, if◌then◌else◌}
use codex_commons.Prelude.Table.{lookup}
use codex_commons.Prelude.Int.{ℤ, zero_ℤ, ◌+ℤ◌, ◌-ℤ◌, ltb_ℤ, leb_ℤ, eqb_ℤ}
use codex_commons.Prelude.Results.{ok, err, ◌>>=◌, ◌>>◌, require, check, found}
use codex_commons.Jobs.Types.{
  Definition, WatchInput, ResolvedTask, RunRequest, WikiProposal, Receipt, SyncResult,
  AcquireResult, StateStore, empty_receipt, Result, Err, invalid_definition, invalid_input,
  disabled, capability, budget, already_running, nil_dereference, canceled, deadline_exceeded,
  github_watcher, wiki_curator, output_sync_receipt, output_wiki_revision_proposal,
}
use codex_commons.Jobs.Definitions.{Runner}
use codex_commons.Jobs.Input.{
  Canonical, max_identifier, max_text, valid_id, validate_input, semantic_input_digest,
}

pub record Env : Type 0 where
  -- ctx.Err() at the start of Run and inside Acquire, and runCtx.Err() after the execution
  pub ctx_err : Option Err
  pub acquire_ctx_err : Option Err
  pub run_ctx_err : Option Err
  -- the two readings of the clock
  pub started : ℤ
  pub finished : ℤ
  pub is_disabled : String → Bool
  pub hash : Canonical → String
  pub github_check : WatchInput → Result SyncResult
  pub propose : ResolvedTask → ℤ → Result (WikiProposal × ℤ)

-- The loop over definition.Capabilities.
check_granted : (String → Bool) → List String → Option Err
check_granted granted [] = none
check_granted granted (c ∷ cs) =
    let rest = check_granted granted cs in if granted c then rest else some capability

-- Run up to the digest: every refusal that leaves the store alone.
unfoldable pub preflight : Runner → Env → RunRequest → Result Definition
unfolding check_granted
preflight r env q = do
  d ← found (lookup q.job r.definitions) invalid_input
  require (valid_id q.run_id) invalid_input
  check env.ctx_err
  require (not (env.is_disabled q.job)) disabled
  check (check_granted r.granted d.capabilities)
  check (validate_input q)
  ok d

-- A receipt as `execute` leaves it, with the error that it returns.
abbrev pub Outcome : Type 0
Outcome = Receipt × Option Err

take_sync : Receipt → Result SyncResult → Outcome
take_sync receipt (err e) = (receipt, some e)
take_sync receipt (ok result) =
    if leb (len result.cursor) max_identifier
    then (record receipt { cursor = result.cursor; changed = result.changed }, none)
    else (receipt, some invalid_input)

watch_github : Runner → Env → Definition → Option WatchInput → Receipt → Outcome
unfolding take_sync
watch_github r env d watch receipt =
    if not r.github_set
      || not (eqb_ℤ d.token_budget zero_ℤ)
      || not (str_eq d.allowed_output output_sync_receipt)
    then (receipt, some invalid_definition)
    else elim watch [
      | none ↦ (receipt, some nil_dereference)
      | some w ↦ take_sync receipt (env.github_check w)
    ]

-- The test on what the interpreter proposes.
unfoldable pub proposal_in_scope : ResolvedTask → WikiProposal → Bool
proposal_in_scope v p =
    str_eq p.project v.project
    && str_eq p.task_id v.task_id
    && not (str_eq p.page "")
    && leb (len p.page) max_identifier
    && not (str_eq p.proposed_title "")
    && leb (len p.proposed_title) max_text
    && not (str_eq p.proposed_body "")
    && leb (len p.proposed_body) max_text
    && leb (len p.basis) max_text
    && not (ltb_ℤ p.base_revision zero_ℤ)
    && p.requires_review

take_proposal : ResolvedTask → ℤ → Receipt → Result (WikiProposal × ℤ) → Outcome
unfolding proposal_in_scope
take_proposal v token_budget receipt (err e) = (receipt, some e)
take_proposal v token_budget receipt (ok (proposal, tokens)) =
    if ltb_ℤ tokens zero_ℤ || ltb_ℤ token_budget tokens
    then (receipt, some budget)
    else if proposal_in_scope v proposal
    then (record receipt { tokens_used = tokens; proposal = some proposal }, none)
    else (receipt, some invalid_input)

curate_wiki : Runner → Env → Definition → Option ResolvedTask → Receipt → Outcome
unfolding take_proposal
curate_wiki r env d resolved receipt =
    if not r.interpreter_set
      || leb_ℤ d.token_budget zero_ℤ
      || not (str_eq d.allowed_output output_wiki_revision_proposal)
    then (receipt, some invalid_definition)
    else elim resolved [
      | none ↦ (receipt, some nil_dereference)
      | some v ↦ take_proposal v d.token_budget receipt (env.propose v d.token_budget)
    ]

unfoldable pub execute : Runner → Env → Definition → RunRequest → Receipt → Outcome
unfolding watch_github curate_wiki
execute r env d q receipt =
    if str_eq q.job github_watcher
    then watch_github r env d q.watch receipt
    else if str_eq q.job wiki_curator
    then curate_wiki r env d q.resolved receipt
    else (receipt, some invalid_input)

-- errors.Is against the sentinels, in the order of the switch.
unfoldable pub stable_error : Err → String
stable_error canceled = "canceled"
stable_error deadline_exceeded = "deadline_exceeded"
stable_error budget = "budget_exceeded"
stable_error invalid_input = "invalid_output"
stable_error _ = "unavailable"

first_error : Option Err → Option Err → Option Err
first_error (some e) later = some e
first_error none later = later

-- The error of the whole run: that of `execute`, or the context's, unless the run took too long.
unfoldable pub run_error : Env → Definition → Option Err → Option Err
unfolding first_error
run_error env d executed =
    if ltb_ℤ d.max_wall_runtime (env.finished -ℤ env.started)
    then some deadline_exceeded
    else first_error executed env.run_ctx_err

-- Status, Error and FinishedAt, from the error of the run.
unfoldable pub close_receipt : Env → Receipt → Option Err → Receipt
unfolding stable_error
close_receipt env receipt none = record receipt { status = "succeeded"; finished_at = env.finished }
close_receipt env receipt (some e) = record receipt {
  error = stable_error e;
  finished_at = env.finished;
}

unfoldable pub open_receipt : Env → Definition → RunRequest → Receipt
open_receipt env d q = record {
  run_id = q.run_id;
  job = q.job;
  status = "failed";
  output_type = d.allowed_output;
  started_at = env.started;
  finished_at = zero_ℤ;
  cursor = "";
  changed = false;
  tokens_used = zero_ℤ;
  error = "";
  proposal = none;
}

-- The closed receipt of a run, and its error.
unfoldable pub perform : Runner → Env → Definition → RunRequest → Outcome
unfolding execute run_error close_receipt open_receipt
perform r env d q =
    let (receipt, executed) = execute r env d q (open_receipt env d q) in
    let e = run_error env d executed in (close_receipt env receipt e, e)

-- Run holds no lock between Acquire and Finish. `meanwhile` is what the other calls of the store make of
-- it in between: of the store that Acquire leaves, the store that Finish meets.
module _ {S : Type 0} (store : StateStore S) where
  unfoldable pub finish_run : Outcome → S → S × Outcome
  finish_run (receipt, e) s =
      let (s', failed) = store.finish receipt s in
      elim failed [ some f ↦ (s', (empty_receipt, some f)) | none ↦ (s', (receipt, e)) ]

  unfoldable pub after_acquire :
      Runner → Env → Definition → RunRequest → (S → S) → S × Result AcquireResult → S × Outcome
  unfolding finish_run
  after_acquire r env d q meanwhile (s, err e) = (s, (empty_receipt, some e))
  after_acquire r env d q meanwhile (s, ok a) = elim a.existing [
    | some receipt ↦ (s, (receipt, none))
    | none ↦
        if a.acquired
        then finish_run (perform r env d q) (meanwhile s)
        else (s, (empty_receipt, some already_running))
  ]

  unfoldable pub run : Runner → Env → RunRequest → (S → S) → S → S × Outcome
  unfolding after_acquire
  run r env q meanwhile s = elim (preflight r env q) [
    | err e ↦ (s, (empty_receipt, some e))
    | ok d ↦ elim (semantic_input_digest env.hash q) [
      | err e ↦ (s, (empty_receipt, some e))
      | ok digest ↦ after_acquire r env d q meanwhile (
          store.acquire env.acquire_ctx_err d q.run_id digest env.started
            (env.started +ℤ d.max_wall_runtime) s)
    ]
  ]
