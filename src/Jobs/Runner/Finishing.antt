-- ===== src/Jobs/Runner/Finishing.antt =====
-- What Run hands to Finish, over a MemoryStore with other calls of it in between.
use codex_commons.Prelude.{◌≡◌, String, true, Option, none, some, List, arith, refl, subst, ◌∙◌}
use codex_commons.Prelude.Table.{lookup}
use codex_commons.Prelude.Int.{ℤ, ◌+ℤ◌}
use codex_commons.Prelude.Results.{ok}
use codex_commons.Jobs.Types.{Definition, RunRequest, Receipt, AcquireResult, Result, Err}
use codex_commons.Jobs.Definitions.{Runner}
use codex_commons.Jobs.Input.{semantic_input_digest}
use codex_commons.Jobs.Memory.{MemoryStore, job_key, acquire, finish, memory_state_store}
use codex_commons.Jobs.Memory.Trace.{Op, steps, is_acquired, steps_induction}
use codex_commons.Jobs.Memory.Replay.{Any, all_trivially, step-bindings, acquire-bindings}
use codex_commons.Jobs.Runner.{
  Env, Outcome, preflight, perform, execute, open_receipt, close_receipt, run_error, run,
  finish_run, after_acquire,
}

-- What the call of Acquire inside Run answers.
abbrev pub acquisition :
    Env → Definition → RunRequest → String → MemoryStore → MemoryStore × Result AcquireResult
acquisition env d q g s =
    acquire env.acquire_ctx_err d q.run_id g env.started (env.started +ℤ d.max_wall_runtime) s

pub acquired-completed :
    (c : Option Err) (d : Definition) (r g : String) (now u : ℤ) (s : MemoryStore)
    → is_acquired (acquire c d r g now u s).1 ≡ true
    → lookup (job_key d.name r) (acquire c d r g now u s).0.completed ≡ none
unfolding acquire
acquired-completed c d r g now u s h = ground arith

pub acquired_reply :
    (c : Option Err) (d : Definition) (r g : String) (now u : ℤ) (s : MemoryStore)
    → is_acquired (acquire c d r g now u s).1 ≡ true
    → (acquire c d r g now u s).1 ≡ ok (record { acquired = true; existing = none })
unfolding acquire
acquired_reply c d r g now u s h = ground arith

-- Every outcome keeps the run id and the job of the request.
execute_labels :
    (r : Runner) (env : Env) (d : Definition) (q : RunRequest) (receipt : Receipt)
    → ((execute r env d q receipt).0.run_id ≡ receipt.run_id)
      × ((execute r env d q receipt).0.job ≡ receipt.job)
unfolding execute
execute_labels r env d q receipt = (ground arith, ground arith)

close_labels :
    (env : Env) (receipt : Receipt) (e : Option Err)
    → ((close_receipt env receipt e).run_id ≡ receipt.run_id)
      × ((close_receipt env receipt e).job ≡ receipt.job)
unfolding close_receipt
close_labels env receipt none = (refl, refl)
close_labels env receipt (some e) = (refl, refl)

pub perform_labels :
    (r : Runner) (env : Env) (d : Definition) (q : RunRequest)
    → ((perform r env d q).0.run_id ≡ q.run_id) × ((perform r env d q).0.job ≡ q.job)
perform_labels r env d q =
    let done = execute r env d q (open_receipt env d q) in
    let (run_of, job_of) = execute_labels r env d q (open_receipt env d q) in
    let (run_kept, job_kept) = close_labels env done.0 (run_error env d done.1) in
    unfold perform in
    (
      run_kept ∙ run_of ∙ unfold open_receipt in refl,
      job_kept ∙ job_of ∙ unfold open_receipt in refl,
    )

after_acquired :
    (r : Runner) (env : Env) (d : Definition) (q : RunRequest)
    (meanwhile : MemoryStore → MemoryStore) (t : MemoryStore) (reply : Result AcquireResult)
    → reply ≡ ok (record { acquired = true; existing = none })
    → after_acquire memory_state_store r env d q meanwhile (t, reply)
      ≡ finish_run memory_state_store (perform r env d q) (meanwhile t)
unfolding after_acquire
after_acquired r env d q meanwhile t reply h = rw h

pub run_acquired :
    (r : Runner) (env : Env) (q : RunRequest) (meanwhile : MemoryStore → MemoryStore)
    (d : Definition) (g : String) (s : MemoryStore)
    → preflight r env q ≡ ok d
    → semantic_input_digest env.hash q ≡ ok g
    → run memory_state_store r env q meanwhile s
      ≡ after_acquire memory_state_store r env d q meanwhile (acquisition env d q g s)
unfolding run
run_acquired r env q meanwhile d g s p h = rw (p, run) (rw (h, run))

-- A run that acquires its job calls Finish with what it produced, on what the others left.
pub run_finishes :
    (r : Runner) (env : Env) (q : RunRequest) (d : Definition) (g : String) (s : MemoryStore)
    (between : List Op)
    → preflight r env q ≡ ok d
    → semantic_input_digest env.hash q ≡ ok g
    → is_acquired (acquisition env d q g s).1 ≡ true
    → run memory_state_store r env q (steps between) s
      ≡ finish_run memory_state_store
          (perform r env d q)
          (steps between (acquisition env d q g s).0)
run_finishes r env q d g s between p h a =
    run_acquired r env q (steps between) d g s p h
    ∙ after_acquired r env d q (steps between) (acquisition env d q g s).0
        (acquisition env d q g s).1
        (acquired_reply env.acquire_ctx_err d q.run_id g env.started
          (env.started +ℤ d.max_wall_runtime) s a)

-- What the run bound stays bound.
pub run_bound :
    (env : Env) (q : RunRequest) (d : Definition) (g : String) (s : MemoryStore) (between : List Op)
    → d.name ≡ q.job
    → is_acquired (acquisition env d q g s).1 ≡ true
    → lookup (job_key q.job q.run_id) (steps between (acquisition env d q g s).0).bindings ≡ some g
run_bound env q d g s between named a =
    let k = job_key q.job q.run_id in
    let t = (acquisition env d q g s).0 in
    steps_induction (λ m. lookup k m.bindings ≡ some g) Any (λ op m _. step-bindings k g op m)
      between t (all_trivially between)
      (subst (λ n. lookup (job_key n q.run_id) t.bindings ≡ some g) named
        (acquire-bindings env.acquire_ctx_err d q.run_id g env.started
          (env.started +ℤ d.max_wall_runtime) s a))

pub finish_run_done :
    (out : Outcome) (t : MemoryStore)
    → (finish out.0 t).1 ≡ none
    → finish_run memory_state_store out t ≡ ((finish out.0 t).0, out)
unfolding finish_run
finish_run_done (receipt, e) t h = rw (h, finish_run) refl
