-- ===== src/Jobs/Runner/Completion.antt =====
-- The runner over a MemoryStore, with any other calls of the store between Acquire and Finish: a run
-- that acquires its job and keeps its lease completes, and a finished one replays.
use codex_commons.Prelude.{
  ◌≡◌, ◌≢◌, ◌⊎◌, inl, inr, String, true, none, some, List, arith, refl, subst, subst₂, sym, ap, ◌∙◌,
}
use codex_commons.Prelude.Tests.{Bool-cases, str_eq, str_eq_iff, str_eq_refl, if◌then◌else◌}
use codex_commons.Prelude.Table.{lookup, lookup-put, lookup-remove}
use codex_commons.Prelude.Int.{ℤ, ◌+ℤ◌, ◌<ℤ◌}
use codex_commons.Prelude.Results.{ok}
use codex_commons.Jobs.Types.{Definition, RunRequest, Receipt, empty_receipt, idempotency_conflict}
use codex_commons.Jobs.Definitions.{Runner}
use codex_commons.Jobs.Input.{semantic_input_digest}
use codex_commons.Jobs.Memory.{MemoryStore, job_key, acquire, finish, memory_state_store}
use codex_commons.Jobs.Memory.Trace.{
  Op, acquire_op, finish_op, step, steps, is_acquired, AllOps, steps_induction,
}
use codex_commons.Jobs.Memory.Replay.{
  Any, all_trivially, step-bindings, step-completed, acquire_completed, replay, FinishesOther,
  step-uncompleted, finish-completed,
}
use codex_commons.Jobs.Memory.Leases.{Held, Leaves, step-Held, acquire-Held}
use codex_commons.Jobs.Runner.{Env, Outcome, preflight, perform, run, finish_run, after_acquire}
use codex_commons.Jobs.Runner.Finishing.{
  acquisition, acquired-completed, perform_labels, run_acquired, run_finishes, run_bound,
  finish_run_done,
}

finish_by_holder :
    (receipt : Receipt) (u : ℤ) (s : MemoryStore)
    → Held receipt.job receipt.run_id u s
    → lookup (job_key receipt.job receipt.run_id) s.completed ≡ none
    → let (s', failed) = finish receipt s in
      (failed ≡ none)
      × (lookup (job_key receipt.job receipt.run_id) s'.completed ≡ some receipt)
      × (lookup receipt.job s'.active ≡ none)
      × (s'.bindings ≡ s.bindings)
unfolding finish
finish_by_holder receipt u s h e =
    let k = job_key receipt.job receipt.run_id in
    ground (
      arith,
      str_eq_refl receipt.run_id,
      str_eq_refl k,
      str_eq_refl receipt.job,
      lookup-put k k receipt s.completed,
      lookup-remove receipt.job receipt.job s.active,
    )

finish_run_by_holder :
    (out : Outcome) (u : ℤ) (t : MemoryStore) (n i g : String)
    → out.0.job ≡ n
    → out.0.run_id ≡ i
    → Held n i u t
    → lookup (job_key n i) t.completed ≡ none
    → lookup (job_key n i) t.bindings ≡ some g
    → let (s', done) = finish_run memory_state_store out t in
      (done ≡ out)
      × (lookup (job_key n i) s'.completed ≡ some out.0)
      × (lookup n s'.active ≡ none)
      × (lookup (job_key n i) s'.bindings ≡ some g)
unfolding finish_run
finish_run_by_holder (receipt, e) u t n i g job run_id held fresh bound =
    let (finished, completed, released, same) =
      finish_by_holder receipt u t (subst₂ (λ m j. Held m j u t) (sym job) (sym run_id) held)
        (subst₂ (λ m j. lookup (job_key m j) t.completed ≡ none) (sym job) (sym run_id) fresh) in
    rw (finished, finish_run)
      (
        refl,
        subst₂ (λ m j. lookup (job_key m j) (finish receipt t).0.completed ≡ some receipt) job
            run_id completed,
        subst (λ m. lookup m (finish receipt t).0.active ≡ none) job released,
        rw same bound,
      )

-- The call leaves the lease of run `i` of job `n` until `u` alone, and does not finish that run: an
-- acquisition of the job comes before `u`, and a finish is under another key.
abbrev pub LeavesRun : String → String → ℤ → Op → Type 0
LeavesRun n i u (acquire_op c d r g now until) = (d.name ≢ n) ⊎ (now <ℤ u)
LeavesRun n i u (finish_op receipt) = job_key receipt.job receipt.run_id ≢ job_key n i

LeavesRun-Leaves : (n i : String) (u : ℤ) (op : Op) → LeavesRun n i u op → Leaves n i u op
LeavesRun-Leaves n i u (acquire_op c d r g now until) l = l
LeavesRun-Leaves n i u (finish_op receipt) l = elim (Bool-cases (str_eq receipt.job n)) [
  | inl same ↦ inr (λ e.
      l (ap (λ m. job_key m receipt.run_id) ((str_eq_iff receipt.job n).0 same) ∙ ap (job_key n) e))
  | inr other ↦ inl (λ e. ground (arith, other, str_eq_iff receipt.job n, e))
]

LeavesRun-FinishesOther :
    (n i : String) (u : ℤ) (op : Op) → LeavesRun n i u op → FinishesOther (job_key n i) op
LeavesRun-FinishesOther n i u (acquire_op c d r g now until) l = tt
LeavesRun-FinishesOther n i u (finish_op receipt) l = l

-- A run that is admitted under `d`, of its job's name, whose input has a digest, and which acquires its
-- job, and whose lease the other calls leave alone until it finishes (they acquire the job only before
-- the end of the lease, and finish nothing under the run's key), returns what the execution produced,
-- and leaves the store with that receipt completed under its digest and with no lease on the job.
pub run_completes :
    (r : Runner) (env : Env) (q : RunRequest) (d : Definition) (g : String) (s : MemoryStore)
    (between : List Op)
    → preflight r env q ≡ ok d
    → semantic_input_digest env.hash q ≡ ok g
    → d.name ≡ q.job
    → is_acquired (acquisition env d q g s).1 ≡ true
    → AllOps (LeavesRun q.job q.run_id (env.started +ℤ d.max_wall_runtime)) between
    → let (s', out) = run memory_state_store r env q (steps between) s in
      (out ≡ perform r env d q)
      × (lookup (job_key q.job q.run_id) s'.completed ≡ some (perform r env d q).0)
      × (lookup q.job s'.active ≡ none)
      × (lookup (job_key q.job q.run_id) s'.bindings ≡ some g)
run_completes r env q d g s between p h named a left =
    let t = (acquisition env d q g s).0 in
    let (run_id, job) = perform_labels r env d q in
    let until = env.started +ℤ d.max_wall_runtime in
    let c = env.acquire_ctx_err in
    let k = job_key q.job q.run_id in
    let held : Held q.job q.run_id until (steps between t) =
      steps_induction (Held q.job q.run_id until) (LeavesRun q.job q.run_id until)
        (λ op m l. step-Held q.job q.run_id until op m (LeavesRun-Leaves q.job q.run_id until op l))
        between t left
        (subst (λ n. Held n q.run_id until t) named
          (acquire-Held c d q.run_id g env.started until s a)) in
    let fresh : lookup k (steps between t).completed ≡ none =
      steps_induction (λ m. lookup k m.completed ≡ none) (LeavesRun q.job q.run_id until)
        (λ op m l. step-uncompleted k op m (LeavesRun-FinishesOther q.job q.run_id until op l))
        between t left
        (subst (λ n. lookup (job_key n q.run_id) t.completed ≡ none) named
          (acquired-completed c d q.run_id g env.started until s a)) in
    rw (run_finishes r env q d g s between p h a) (
      finish_run_by_holder (perform r env d q) until (steps between t) q.job q.run_id g job run_id
        held fresh (run_bound env q d g s between named a))

after_existing :
    (r : Runner) (env : Env) (d : Definition) (q : RunRequest)
    (meanwhile : MemoryStore → MemoryStore) (t : MemoryStore) (bound g : String) (receipt : Receipt)
    → after_acquire memory_state_store r env d q meanwhile (t, replay bound g receipt)
      ≡ (t, if str_eq bound g then (receipt, none) else (empty_receipt, some idempotency_conflict))
unfolding after_acquire
after_existing r env d q meanwhile t bound g receipt = ground arith

-- What a run whose Finish answers no error leaves: its receipt and its digest.
run_leaves :
    (r : Runner) (env : Env) (q : RunRequest) (d : Definition) (g : String) (s : MemoryStore)
    (between : List Op)
    → preflight r env q ≡ ok d
    → semantic_input_digest env.hash q ≡ ok g
    → d.name ≡ q.job
    → is_acquired (acquisition env d q g s).1 ≡ true
    → (finish (perform r env d q).0 (steps between (acquisition env d q g s).0)).1 ≡ none
    → let (s', out) = run memory_state_store r env q (steps between) s in
      (lookup (job_key q.job q.run_id) s'.completed ≡ some (perform r env d q).0)
      × (lookup (job_key q.job q.run_id) s'.bindings ≡ some g)
run_leaves r env q d g s between p h named a done =
    let t = steps between (acquisition env d q g s).0 in
    let (run_id, job) = perform_labels r env d q in
    let out = perform r env d q in
    let k = job_key q.job q.run_id in
    rw (run_finishes r env q d g s between p h a ∙ finish_run_done out t done) (
      subst₂ (λ n i. lookup (job_key n i) (finish out.0 t).0.completed ≡ some out.0) job run_id
          (finish-completed out.0 t done),
      unfold step in step-bindings k g (finish_op out.0) t (run_bound env q d g s between named a),
    )

-- Running again: after a run that acquired its job and whose Finish, behind any other calls of the
-- store, answers no error, and after any calls that follow it, a further request for the same job and
-- run id that is admitted, whose input has a digest, and whose context lives, changes nothing, whatever
-- the clock, the reader and the interpreter now answer: with the digest of the first request it answers
-- the first receipt and no error, with another digest an idempotency conflict.
pub run_replays :
    (r r' : Runner) (env env' : Env) (q q' : RunRequest) (d d' : Definition) (g g' : String)
    (s : MemoryStore) (between ops : List Op) (meanwhile : MemoryStore → MemoryStore)
    → preflight r env q ≡ ok d
    → semantic_input_digest env.hash q ≡ ok g
    → d.name ≡ q.job
    → is_acquired (acquisition env d q g s).1 ≡ true
    → (finish (perform r env d q).0 (steps between (acquisition env d q g s).0)).1 ≡ none
    → preflight r' env' q' ≡ ok d'
    → semantic_input_digest env'.hash q' ≡ ok g'
    → d'.name ≡ q.job
    → q'.run_id ≡ q.run_id
    → env'.acquire_ctx_err ≡ none
    → let later = steps ops (run memory_state_store r env q (steps between) s).0 in
      run memory_state_store r' env' q' meanwhile later ≡ (
        later,
        if str_eq g g'
            then ((perform r env d q).0, none)
            else (empty_receipt, some idempotency_conflict),
      )
run_replays r r' env env' q q' d d' g g' s between ops meanwhile p h named a done p' h' named' same
      alive =
    let k = job_key q.job q.run_id in
    let receipt = (perform r env d q).0 in
    let (completed, bound) = run_leaves r env q d g s between p h named a done in
    let first = (run memory_state_store r env q (steps between) s).0 in
    let later = steps ops first in
    let still : lookup k later.bindings ≡ some g =
      steps_induction (λ m. lookup k m.bindings ≡ some g) Any (λ op m _. step-bindings k g op m) ops
        first (all_trivially ops) bound in
    let kept : lookup k later.completed ≡ some receipt =
      steps_induction (λ m. lookup k m.completed ≡ some receipt) Any
        (λ op m _. step-completed k receipt op m) ops first (all_trivially ops) completed in
    let until = env'.started +ℤ d'.max_wall_runtime in
    let answer : acquisition env' d' q' g' later ≡ (later, replay g g' receipt) =
      subst (λ c. acquire c d' q'.run_id g' env'.started until later ≡ (later, replay g g' receipt))
        (sym alive)
        (acquire_completed d' q'.run_id g g' env'.started until later receipt
          (subst₂ (λ n i. lookup (job_key n i) later.bindings ≡ some g) (sym named') (sym same)
            still)
          (subst₂ (λ n i. lookup (job_key n i) later.completed ≡ some receipt) (sym named')
            (sym same) kept)) in
    run_acquired r' env' q' meanwhile d' g' later p' h'
    ∙ ap (after_acquire memory_state_store r' env' d' q' meanwhile) answer
    ∙ after_existing r' env' d' q' meanwhile later g g' receipt
