-- ===== src/Jobs/Runner/Endings.antt =====
-- The ways in which a run that acquired its job ends, whatever the other calls of the store do meanwhile.
use codex_commons.Prelude.{
  ◌≡◌, ◌≢◌, ◌⊎◌, inl, inr, String, true, false, Option, none, some, List, arith, refl, subst₂, sym,
  ap,
}
use codex_commons.Prelude.Table.{lookup}
use codex_commons.Prelude.Results.{ok}
use codex_commons.Jobs.Types.{
  Definition, RunRequest, Receipt, empty_receipt, Err, invalid_input, already_running,
}
use codex_commons.Jobs.Definitions.{Runner}
use codex_commons.Jobs.Input.{semantic_input_digest}
use codex_commons.Jobs.Memory.{MemoryStore, job_key, finish, holds, memory_state_store}
use codex_commons.Jobs.Memory.Trace.{Op, finish_op, step, steps, is_acquired}
use codex_commons.Jobs.Memory.Replay.{step-bindings, finish-completed}
use codex_commons.Jobs.Runner.{Env, Outcome, preflight, perform, run, finish_run}
use codex_commons.Jobs.Runner.Finishing.{
  acquisition, perform_labels, run_finishes, run_bound, finish_run_done,
}

-- How Finish ends for run `i` of job `n`: it completed the run, or it refused and left the store,
-- because the run was completed before, or because the job is not leased to it.
abbrev pub EndsAs :
    String → String → String → Outcome → MemoryStore → MemoryStore × Outcome → Type 0
EndsAs n i g out t (s', done) =
    let k = job_key n i in
    ((done ≡ out) × (lookup k s'.completed ≡ some out.0) × (lookup k s'.bindings ≡ some g))
    ⊎ ((s' ≡ t) × (done ≡ (empty_receipt, some invalid_input)) × (lookup k t.completed ≢ none))
    ⊎ ((s' ≡ t)
        × (done ≡ (empty_receipt, some already_running))
        × (lookup k t.completed ≡ none)
        × (holds (lookup n t.active) i ≡ false))

finish_run_refused :
    (out : Outcome) (t : MemoryStore) (x : Err)
    → finish out.0 t ≡ (t, some x)
    → finish_run memory_state_store out t ≡ (t, (empty_receipt, some x))
unfolding finish_run
finish_run_refused (receipt, e) t x h =
    rw (ap (λ (y : MemoryStore × Option Err). y.1) h, finish_run)
      (ap (λ (y : MemoryStore × Option Err). (y.0, (empty_receipt, some x))) h)

finish_cases :
    (receipt : Receipt) (t : MemoryStore)
    → let k = job_key receipt.job receipt.run_id in
      ((finish receipt t).1 ≡ none)
      ⊎ ((finish receipt t ≡ (t, some invalid_input)) × (lookup k t.completed ≢ none))
      ⊎ ((finish receipt t ≡ (t, some already_running))
          × (lookup k t.completed ≡ none)
          × (holds (lookup receipt.job t.active) receipt.run_id ≡ false))
unfolding finish
finish_cases receipt t = ground arith

finish_run-EndsAs :
    (out : Outcome) (t : MemoryStore) (g : String)
    → lookup (job_key out.0.job out.0.run_id) t.bindings ≡ some g
    → EndsAs out.0.job out.0.run_id g out t (finish_run memory_state_store out t)
finish_run-EndsAs out t g bound = elim (finish_cases out.0 t) [
  | inl done ↦ rw (finish_run_done out t done) (
      inl (
        refl,
        finish-completed out.0 t done,
        unfold step in step-bindings (job_key out.0.job out.0.run_id) g (finish_op out.0) t bound,
      ))
  | inr (inl (refused, known)) ↦
      rw (finish_run_refused out t invalid_input refused) (inr (inl (refl, refl, known)))
  | inr (inr (refused, fresh, lost)) ↦
      rw (finish_run_refused out t already_running refused) (inr (inr (refl, refl, fresh, lost)))
]

-- Whatever the other calls of the store do between its Acquire and its Finish, a run that is admitted
-- under `d`, of its job's name, whose input has a digest, and which acquires its job ends in one of
-- three ways. It returns what the execution produced, with that receipt completed under its digest. Or
-- it leaves the store as the other calls left it and answers an empty receipt with an error:
-- ErrInvalidInput if they completed the run already, and ErrAlreadyRunning if they did not, and the job
-- is no longer leased to the run.
pub run_ends :
    (r : Runner) (env : Env) (q : RunRequest) (d : Definition) (g : String) (s : MemoryStore)
    (between : List Op)
    → preflight r env q ≡ ok d
    → semantic_input_digest env.hash q ≡ ok g
    → d.name ≡ q.job
    → is_acquired (acquisition env d q g s).1 ≡ true
    → EndsAs q.job q.run_id g
        (perform r env d q)
        (steps between (acquisition env d q g s).0)
        (run memory_state_store r env q (steps between) s)
run_ends r env q d g s between p h named a =
    let t = steps between (acquisition env d q g s).0 in
    let (run_id, job) = perform_labels r env d q in
    let out = perform r env d q in
    rw (run_finishes r env q d g s between p h a) (
      subst₂ (λ n i. EndsAs n i g out t (finish_run memory_state_store out t)) job run_id
        (finish_run-EndsAs out t g (
          subst₂ (λ n i. lookup (job_key n i) t.bindings ≡ some g) (sym job) (sym run_id)
            (run_bound env q d g s between named a))))
