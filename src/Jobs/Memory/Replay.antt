-- ===== src/Jobs/Memory/Replay.antt =====
-- Bindings and receipts are permanent: the run id of a finished run replays its receipt.
use codex_commons.Prelude.{
  ◌≡◌, ◌≢◌, String, Bool, true, false, Option, none, some, List, [], ◌∷◌, subst₂, subst, inl, inr,
  arith, refl, sym,
}
use codex_commons.Prelude.Tests.{
  Option-cases, bool_eq, str_eq, str_eq_iff, str_eq_refl, if◌then◌else◌,
}
use codex_commons.Prelude.Table.{lookup, lookup-put}
use codex_commons.Prelude.Int.{ℤ, eqb_ℤ}
use codex_commons.Prelude.Results.{ok, err}
use codex_commons.Jobs.Types.{
  Definition, Receipt, WikiProposal, AcquireResult, Result, Err, idempotency_conflict,
}
use codex_commons.Jobs.Memory.{MemoryStore, job_key, acquire, finish, same_receipt, same_proposal}
use codex_commons.Jobs.Memory.Trace.{
  Op, acquire_op, finish_op, step, steps, is_acquired, AllOps, steps_induction,
}

-- Any call at all.
abbrev pub Any : Op → Type 0
Any op = Unit {0}

pub all_trivially : (ops : List Op) → AllOps Any ops
all_trivially [] = tt
all_trivially (op ∷ ops) = (tt, all_trivially ops)

-- The call does not finish the run of key `k`.
abbrev pub FinishesOther : String → Op → Type 0
FinishesOther k (acquire_op c d r g now until) = Unit
FinishesOther k (finish_op receipt) = job_key receipt.job receipt.run_id ≢ k

pub step-bindings :
    (k g : String) (op : Op) (s : MemoryStore)
    → lookup k s.bindings ≡ some g
    → lookup k (step op s).bindings ≡ some g
unfolding step acquire finish
step-bindings k g (acquire_op c d r g' now until) s h = ground (
  arith,
  str_eq_iff (job_key d.name r) k,
  str_eq_iff g g',
  lookup-put (job_key d.name r) k g' s.bindings,
)
step-bindings k g (finish_op receipt) s h = ground arith

pub step-completed :
    (k : String) (receipt : Receipt) (op : Op) (s : MemoryStore)
    → lookup k s.completed ≡ some receipt
    → lookup k (step op s).completed ≡ some receipt
unfolding step acquire finish
step-completed k receipt (acquire_op c d r g' now until) s h = ground arith
step-completed k receipt (finish_op new) s h = ground (
  arith,
  str_eq_iff (job_key new.job new.run_id) k,
  lookup-put (job_key new.job new.run_id) k new s.completed,
)

-- Only the finish of a run completes its key.
pub step-uncompleted :
    (k : String) (op : Op) (s : MemoryStore)
    → FinishesOther k op
    → lookup k s.completed ≡ none
    → lookup k (step op s).completed ≡ none
unfolding step acquire finish
step-uncompleted k (acquire_op c d r g now until) s other h = ground arith
step-uncompleted k (finish_op new) s other h = ground (
  arith,
  other,
  str_eq_iff (job_key new.job new.run_id) k,
  lookup-put (job_key new.job new.run_id) k new s.completed,
)

bool_eq→≡ : (a b : Bool) → bool_eq a b ≡ true → a ≡ b
bool_eq→≡ a b h = ground arith

eqb_ℤ→≡ : (a b : ℤ) → eqb_ℤ a b ≡ true → a ≡ b
eqb_ℤ→≡ a b h = ground arith

same_proposal→≡ : (p q : Option WikiProposal) → same_proposal p q ≡ true → p ≡ q
unfolding same_proposal
same_proposal→≡ none none h = refl
same_proposal→≡ none (some q) h = cc
same_proposal→≡ (some p) none h = cc
same_proposal→≡ (some p) (some q) h = ground (
  arith,
  str_eq_iff p.project q.project,
  str_eq_iff p.task_id q.task_id,
  str_eq_iff p.page q.page,
  eqb_ℤ→≡ p.base_revision q.base_revision,
  str_eq_iff p.proposed_title q.proposed_title,
  str_eq_iff p.proposed_body q.proposed_body,
  str_eq_iff p.basis q.basis,
  bool_eq→≡ p.requires_review q.requires_review,
)

same_receipt→≡ : (a b : Receipt) → same_receipt a b ≡ true → a ≡ b
unfolding same_receipt
same_receipt→≡ a b h = ground (
  arith,
  str_eq_iff a.run_id b.run_id,
  str_eq_iff a.job b.job,
  str_eq_iff a.status b.status,
  str_eq_iff a.output_type b.output_type,
  eqb_ℤ→≡ a.started_at b.started_at,
  eqb_ℤ→≡ a.finished_at b.finished_at,
  str_eq_iff a.cursor b.cursor,
  bool_eq→≡ a.changed b.changed,
  eqb_ℤ→≡ a.tokens_used b.tokens_used,
  str_eq_iff a.error b.error,
  same_proposal→≡ a.proposal b.proposal,
)

pub finish-completed :
    (receipt : Receipt) (s : MemoryStore)
    → (finish receipt s).1 ≡ none
    → lookup (job_key receipt.job receipt.run_id) (finish receipt s).0.completed ≡ some receipt
unfolding finish
finish-completed receipt s h =
    elim (Option-cases (lookup (job_key receipt.job receipt.run_id) s.completed)) [
      | inl e ↦ ground (
        arith,
        e,
        str_eq_refl (job_key receipt.job receipt.run_id),
        lookup-put (job_key receipt.job receipt.run_id) (job_key receipt.job receipt.run_id) receipt
            s.completed,
      )
      | inr (prior, e) ↦ ground (arith, e, same_receipt→≡ prior receipt)
    ]

pub acquire-bindings :
    (c : Option Err) (d : Definition) (r g : String) (now u : ℤ) (s : MemoryStore)
    → is_acquired (acquire c d r g now u s).1 ≡ true
    → lookup (job_key d.name r) (acquire c d r g now u s).0.bindings ≡ some g
unfolding acquire
acquire-bindings c d r g now u s h = ground (
  arith,
  str_eq_refl (job_key d.name r),
  lookup-put (job_key d.name r) (job_key d.name r) g s.bindings,
)

-- What a second acquisition of a finished run answers.
abbrev pub replay : String → String → Receipt → Result AcquireResult
replay bound digest receipt =
    if str_eq bound digest
    then ok (record { acquired = false; existing = some receipt })
    else err idempotency_conflict

pub acquire_completed :
    (d : Definition) (r g g' : String) (now u : ℤ) (s : MemoryStore) (receipt : Receipt)
    → lookup (job_key d.name r) s.bindings ≡ some g
    → lookup (job_key d.name r) s.completed ≡ some receipt
    → acquire none d r g' now u s ≡ (s, replay g g' receipt)
unfolding acquire
acquire_completed d r g g' now u s receipt b e = ground arith

-- A run is acquired with digest `g`; later, after any calls at all, it is finished without error;
-- then, after any further calls, acquiring the run again changes nothing, and answers the receipt of
-- that finish if the digest is `g` and an idempotency conflict if it is another one.
pub acquire_replays :
    (c : Option Err) (d d' : Definition) (r g g' : String) (now now' u u' : ℤ) (s : MemoryStore)
    (before after : List Op) (receipt : Receipt)
    → is_acquired (acquire c d r g now u s).1 ≡ true
    → receipt.job ≡ d.name
    → receipt.run_id ≡ r
    → d'.name ≡ d.name
    → (finish receipt (steps before (acquire c d r g now u s).0)).1 ≡ none
    → let later = steps after (finish receipt (steps before (acquire c d r g now u s).0)).0 in
      acquire none d' r g' now' u' later ≡ (later, replay g g' receipt)
acquire_replays c d d' r g g' now now' u u' s before after receipt h job run same done =
    let k = job_key d.name r in
    let held = steps before (acquire c d r g now u s).0 in
    let bound : lookup k held.bindings ≡ some g =
      steps_induction (λ m. lookup k m.bindings ≡ some g) Any (λ op m _. step-bindings k g op m)
        before (acquire c d r g now u s).0 (all_trivially before)
        (acquire-bindings c d r g now u s h) in
    let later = steps after (finish receipt held).0 in
    let still : lookup k later.bindings ≡ some g =
      steps_induction (λ m. lookup k m.bindings ≡ some g) Any (λ op m _. step-bindings k g op m)
        after (finish receipt held).0 (all_trivially after)
        (unfold step in step-bindings k g (finish_op receipt) held bound) in
    let kept : lookup k later.completed ≡ some receipt =
      steps_induction (λ m. lookup k m.completed ≡ some receipt) Any
        (λ op m _. step-completed k receipt op m) after (finish receipt held).0
        (all_trivially after)
        (subst₂ (λ n q. lookup (job_key n q) (finish receipt held).0.completed ≡ some receipt) job
          run (finish-completed receipt held done)) in
    acquire_completed d' r g g' now' u' later receipt
      (subst (λ n. lookup (job_key n r) later.bindings ≡ some g) (sym same) still)
      (subst (λ n. lookup (job_key n r) later.completed ≡ some receipt) (sym same) kept)
