-- ===== src/Jobs/Examples.antt =====
-- Tests of the job runner, and its theorems at concrete inputs.
use codex_commons.Prelude.{
  ◌≡◌, ◌≢◌, String, true, false, none, some, List, [], ◌∷◌, ◌⊎◌, inl, inr, arith, refl,
}
use codex_commons.Prelude.Tests.{str_eq}
use codex_commons.Prelude.Table.{lookup, put, remove}
use codex_commons.Prelude.Text.{trim_space}
use codex_commons.Prelude.Int.{pos, ◌+ℤ◌, ◌-ℤ◌, ◌≤ℤ◌}
use codex_commons.Prelude.Results.{ok, err}
use codex_commons.Jobs.Types.{
  Definition, RunRequest, Receipt, WikiProposal, Err, github_watcher, wiki_curator,
  invalid_definition, idempotency_conflict, already_running, empty_receipt,
}
use codex_commons.Jobs.Definitions.{
  Runner, validate, validate_builtin_definition, watcher_definition, curator_definition, register,
  register_all, new_runner,
}
use codex_commons.Jobs.Definitions.Envelope.{IsBuiltinTable, new_runner-IsBuiltinTable}
use codex_commons.Jobs.Input.{valid_id, validate_input, semantic_input_digest}
use codex_commons.Jobs.Memory.{
  new_memory_store, job_key, acquire, finish, holds, memory_state_store,
}
use codex_commons.Jobs.Memory.Trace.{Op, AllOps, acquire_op, finish_op, step, steps, is_acquired}
use codex_commons.Jobs.Memory.Leases.{lease_exclusive, interval_respected}
use codex_commons.Jobs.Memory.Replay.{acquire_replays, replay}
use codex_commons.Jobs.Memory.Keys.{IsConsistent, job_key-injective, steps-IsConsistent}
use codex_commons.Jobs.Runner.{Env, preflight, perform, run, finish_run, after_acquire}
use codex_commons.Jobs.Runner.Authority.{WithinAuthority, perform-WithinAuthority}
use codex_commons.Jobs.Runner.Gates.{IsAdmitted, run_gated}
use codex_commons.Jobs.Runner.Finishing.{acquisition}
use codex_commons.Jobs.Runner.Completion.{LeavesRun, run_completes, run_replays}
use codex_commons.Jobs.Runner.Endings.{EndsAs, run_ends}

abbrev watcher : Definition
watcher = record {
  name = github_watcher;
  input_scope = "one project and one upstream cursor";
  capabilities = "github.read" ∷ [];
  max_wall_runtime = pos 10;
  token_budget = pos 0;
  minimum_interval = pos 60;
  allowed_output = "sync_receipt";
}

abbrev curator : Definition
curator = record {
  name = wiki_curator;
  input_scope = "one resolved task and its bounded resolution evidence";
  capabilities = "model.interpret" ∷ "wiki.propose" ∷ [];
  max_wall_runtime = pos 20;
  token_budget = pos 500;
  minimum_interval = pos 0;
  allowed_output = "wiki_revision_proposal";
}

constructors_agree :
    (watcher_definition (pos 60) (pos 10) ≡ watcher)
    × (curator_definition (pos 0) (pos 20) (pos 500) ≡ curator)
unfolding watcher_definition curator_definition
constructors_agree = (refl, refl)

abbrev runner : Runner
runner = record {
  github_set = true;
  interpreter_set = true;
  granted = λ c. true;
  definitions = (github_watcher, watcher) ∷ (wiki_curator, curator) ∷ [];
}

runner_accepted :
    new_runner true true true true true (λ c. true) (watcher ∷ curator ∷ []) ≡ ok runner
unfolding new_runner register_all register validate validate_builtin_definition lookup put str_eq
runner_accepted = refl

watcher_twice :
    new_runner true true true true true (λ c. true) (watcher ∷ watcher ∷ [])
    ≡ err invalid_definition
unfolding new_runner register_all register validate validate_builtin_definition lookup put str_eq
watcher_twice = refl

new_runner-IsBuiltinTable_example :
    IsBuiltinTable runner.definitions
    × (lookup github_watcher runner.definitions ≢ none)
    × (lookup wiki_curator runner.definitions ≢ none)
new_runner-IsBuiltinTable_example =
    new_runner-IsBuiltinTable true true true true true (λ c. true) (watcher ∷ curator ∷ []) runner
      runner_accepted

first_acquires :
    is_acquired (acquire none watcher "r1" "d" (pos 5) (pos 15) new_memory_store).1 ≡ true
unfolding acquire lookup
first_acquires = refl

lease_exclusive_example :
    is_acquired
      (acquire none watcher "r2" "e" (pos 14) (pos 24) (
        steps
          (acquire_op none curator "c" "x" (pos 6) (pos 26) ∷ [])
          (acquire none watcher "r1" "d" (pos 5) (pos 15) new_memory_store).0)).1
    ≡ false
lease_exclusive_example =
    lease_exclusive none none watcher watcher "r1" "r2" "d" "e" (pos 5) (pos 14) (pos 15) (pos 24)
      new_memory_store (acquire_op none curator "c" "x" (pos 6) (pos 26) ∷ []) first_acquires
      (inr (omega arith), tt) refl (omega arith)

later_acquires :
    is_acquired
      (acquire none watcher "r2" "e" (pos 70) (pos 80) (
        steps
          (acquire_op none curator "c" "x" (pos 6) (pos 26) ∷ [])
          (acquire none watcher "r1" "d" (pos 5) (pos 15) new_memory_store).0)).1
    ≡ true
unfolding acquire lookup put steps step str_eq job_key ◌+ℤ◌
later_acquires = refl

interval_respected_example : pos 5 +ℤ pos 60 ≤ℤ pos 70
interval_respected_example =
    interval_respected none none watcher watcher "r1" "r2" "d" "e" (pos 5) (pos 70) (pos 15)
      (pos 80) new_memory_store (acquire_op none curator "c" "x" (pos 6) (pos 26) ∷ [])
      first_acquires (omega arith, tt) refl later_acquires

abbrev receipt : Receipt
receipt = record empty_receipt { run_id = "r1"; job = github_watcher; status = "succeeded" }

finish_succeeds :
    (finish receipt
      (steps [] (acquire none watcher "r1" "d" (pos 5) (pos 15) new_memory_store).0)).1
    ≡ none
unfolding acquire finish lookup put remove steps str_eq job_key
finish_succeeds = refl

acquire_replays_example :
    let later =
      steps []
        (finish receipt
          (steps [] (acquire none watcher "r1" "d" (pos 5) (pos 15) new_memory_store).0)).0 in
    acquire none watcher "r1" "other" (pos 6) (pos 16) later ≡ (later, replay "d" "other" receipt)
acquire_replays_example =
    acquire_replays none watcher watcher "r1" "d" "other" (pos 5) (pos 6) (pos 15) (pos 16)
      new_memory_store [] [] receipt first_acquires refl refl refl finish_succeeds

conflict_reply : replay "d" "other" receipt ≡ err idempotency_conflict
unfolding str_eq
conflict_reply = refl

job_key-injective_example : (github_watcher ≡ github_watcher) × (◌≡◌ {A = String} "r1" "r1")
job_key-injective_example = job_key-injective github_watcher github_watcher "r1" "r1" refl refl refl

steps-IsConsistent_example : IsConsistent (
    steps
      (acquire_op none watcher "r1" "d" (pos 5) (pos 15) ∷ finish_op receipt ∷ [])
      new_memory_store)
steps-IsConsistent_example =
    steps-IsConsistent (acquire_op none watcher "r1" "d" (pos 5) (pos 15) ∷ finish_op receipt ∷ [])
      (refl, (refl, tt))

abbrev proposal : WikiProposal
proposal = record {
  project = "commons-lab";
  task_id = "T-101";
  page = "W-home";
  base_revision = pos 41;
  proposed_title = "Home";
  proposed_body = "Body";
  basis = "";
  requires_review = true;
}

abbrev env : Env
env = record {
  ctx_err = none;
  acquire_ctx_err = none;
  run_ctx_err = none;
  started = pos 100;
  finished = pos 110;
  is_disabled = λ j. false;
  hash = λ c. "digest";
  github_check = λ w. ok (record { cursor = "42"; changed = true });
  propose = λ v b. ok (proposal, pos 300);
}

abbrev request : RunRequest
request = record {
  run_id = "run-1";
  job = wiki_curator;
  watch = none;
  resolved = some (record {
    project = "commons-lab";
    task_id = "T-101";
    state = "resolved";
    resolution_revision = pos 3;
    title = "Title";
    resolution = "Done";
    evidence = "E-1" ∷ [];
  });
}

performs : (perform runner env curator request).1 ≡ none
unfolding perform str_eq ◌-ℤ◌
performs = refl

perform-WithinAuthority_example :
    WithinAuthority curator request (perform runner env curator request).0
perform-WithinAuthority_example = perform-WithinAuthority runner env curator request performs

passes : preflight runner env request ≡ ok curator
unfolding preflight lookup valid_id validate_input trim_space str_eq
passes = refl

digests : semantic_input_digest env.hash request ≡ ok "digest"
unfolding semantic_input_digest str_eq
digests = refl

acquires : is_acquired (acquisition env curator request "digest" new_memory_store).1 ≡ true
unfolding acquire lookup
acquires = refl

-- Another job is acquired while the run executes.
abbrev others : List Op
others = acquire_op none watcher "w1" "x" (pos 105) (pos 115) ∷ []

-- The run is overtaken: behind the end of its lease another run of the job is acquired.
abbrev overtaken : List Op
overtaken = acquire_op none curator "run-2" "y" (pos 121) (pos 141) ∷ []

others-LeavesRun : AllOps (LeavesRun wiki_curator "run-1" (pos 100 +ℤ pos 20)) others
others-LeavesRun = (inl (λ e. cc e), tt)

run_gated_example :
    ((d : Definition) × IsAdmitted runner env request d)
    ⊎ ((e : Err) × (run memory_state_store runner env request (steps others) new_memory_store
          ≡ (new_memory_store, (empty_receipt, some e))))
run_gated_example = run_gated memory_state_store runner env request (steps others) new_memory_store

run_completes_example :
    let (s', out) = run memory_state_store runner env request (steps others) new_memory_store in
    (out ≡ perform runner env curator request)
    × (lookup (job_key wiki_curator "run-1") s'.completed
        ≡ some (perform runner env curator request).0)
    × (lookup wiki_curator s'.active ≡ none)
    × (lookup (job_key wiki_curator "run-1") s'.bindings ≡ some "digest")
run_completes_example =
    run_completes runner env request curator "digest" new_memory_store others passes digests refl
      acquires others-LeavesRun

run_ends_example :
    EndsAs wiki_curator "run-1" "digest"
      (perform runner env curator request)
      (steps overtaken (acquisition env curator request "digest" new_memory_store).0)
      (run memory_state_store runner env request (steps overtaken) new_memory_store)
run_ends_example =
    run_ends runner env request curator "digest" new_memory_store overtaken passes digests refl
      acquires

-- The overtaken run is refused by Finish.
overtaken_fails :
    (run memory_state_store runner env request (steps overtaken) new_memory_store).1
    ≡ (empty_receipt, some already_running)
unfolding run finish_run after_acquire perform preflight semantic_input_digest acquire finish holds
    steps step lookup put valid_id validate_input trim_space job_key str_eq ◌+ℤ◌ ◌-ℤ◌
overtaken_fails = refl

finishes :
    (finish
      (perform runner env curator request).0
      (steps others (acquisition env curator request "digest" new_memory_store).0)).1
    ≡ none
unfolding perform acquire finish holds steps step lookup put remove job_key str_eq ◌+ℤ◌ ◌-ℤ◌
finishes = refl

run_replays_example :
    let later =
      steps overtaken
        (run memory_state_store runner env request (steps others) new_memory_store).0 in
    run memory_state_store runner env request (steps others) later
    ≡ (later, ((perform runner env curator request).0, none))
unfolding str_eq
run_replays_example =
    run_replays runner runner env env request request curator curator "digest" "digest"
      new_memory_store others overtaken (steps others) passes digests refl acquires finishes passes
      digests refl refl refl
