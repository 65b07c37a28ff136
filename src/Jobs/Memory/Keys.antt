-- ===== src/Jobs/Memory/Keys.antt =====
-- The request key name + "\x00" + runID tells runs apart, and what follows for the store: a finished
-- run holds no lease, and a leased run is bound.
use Prim.Native.Char.{Char, code}
use Prim.Native.String
use text.Mathlib.TextLemmas.{cons-eq-cons, cons-append, nil-append}
use codex_commons.Prelude.{
  ◌≡◌, String, Bool, true, Option, none, some, List, arith, refl, ap, sym, subst, ◌∙◌, ◌&&◌, not,
  ◌≢◌,
}
use codex_commons.Prelude.Tests.{str_eq_iff, ◌==◌}
use codex_commons.Prelude.Table.{lookup, lookup-put, lookup-remove}
use codex_commons.Prelude.Int.{ℤ}
use codex_commons.Jobs.Types.{Definition, Receipt, Err}
use codex_commons.Jobs.Memory.{MemoryStore, Lease, job_key, acquire, finish, new_memory_store}
use codex_commons.Jobs.Memory.Trace.{
  Op, acquire_op, finish_op, step, steps, AllOps, steps_induction,
}

-- No NUL among the characters, as in the names of the two jobs.
abbrev pub no_nul : String → Bool
no_nul String.[] = true
no_nul (String.◌∷◌ c s) = not (code c == 0) && no_nul s

abbrev nul : Char
nul = "\0"

abbrev append : String → String → String
append s t = String.◌++◌ s t

nul-append : (x : String) → append "\0" x ≡ String.◌∷◌ nul x
nul-append x = cons-append nul String.[] x ∙ ap (String.◌∷◌ nul) (nil-append x)

nul_first :
    (c : Char) (b x y : String)
    → no_nul (String.◌∷◌ c b) ≡ true
    → append "\0" x ≡ append (String.◌∷◌ c b) (append "\0" y)
    → ⊥
nul_first c b x y q e =
    let same : nul ≡ c =
      (cons-eq-cons.0 (sym (nul-append x) ∙ e ∙ cons-append c b (append "\0" y))).0 in
    cc (subst (λ k. not (code k == 0) && no_nul b ≡ true) (sym same) q)

split_at_nul :
    (a b x y : String)
    → no_nul a ≡ true
    → no_nul b ≡ true
    → append a (append "\0" x) ≡ append b (append "\0" y)
    → (a ≡ b) × (x ≡ y)
split_at_nul String.[] String.[] x y p q e = (
  refl,
  (cons-eq-cons.0 (
      sym (nul-append x)
      ∙ sym (nil-append (append "\0" x))
      ∙ e
      ∙ nil-append (append "\0" y)
      ∙ nul-append y)).1,
)
split_at_nul String.[] (String.◌∷◌ c b) x y p q e =
    absurd (nul_first c b x y q (sym (nil-append (append "\0" x)) ∙ e))
split_at_nul (String.◌∷◌ c a) String.[] x y p q e =
    absurd (nul_first c a y x p (sym (nil-append (append "\0" y)) ∙ sym e))
split_at_nul (String.◌∷◌ c a) (String.◌∷◌ c' b) x y p q e =
    let (head, rest) =
      cons-eq-cons.0
        (sym (cons-append c a (append "\0" x)) ∙ e ∙ cons-append c' b (append "\0" y)) in
    let (tails, ends) = split_at_nul a b x y (ground (arith, p)) (ground (arith, q)) rest in
    (cons-eq-cons.1 (head, tails), ends)

-- The keys of two runs are equal only if the jobs and the run ids are, for job names with no NUL.
pub job_key-injective :
    (n m r q : String)
    → no_nul n ≡ true
    → no_nul m ≡ true
    → job_key n r ≡ job_key m q
    → (n ≡ m) × (r ≡ q)
unfolding job_key
job_key-injective n m r q p p' e = split_at_nul n m r q p p' e

-- Every leased run is bound to a digest, has started its job, and is not completed.
pub record IsConsistent (s : MemoryStore) : Type 0 where
  pub open_run :
      (n : String) (l : Lease)
      → no_nul n ≡ true
      → lookup n s.active ≡ some l
      → lookup (job_key n l.run_id) s.completed ≡ none
  pub bound_run :
      (n : String) (l : Lease)
      → lookup n s.active ≡ some l
      → lookup (job_key n l.run_id) s.bindings ≢ none
  pub started_job :
      (n : String) (l : Lease) → lookup n s.active ≡ some l → lookup n s.last_start ≢ none

-- The job of the call has no NUL in its name.
abbrev pub Named : Op → Type 0
Named (acquire_op c d r g now until) = no_nul d.name ≡ true
Named (finish_op receipt) = no_nul receipt.job ≡ true

acquire-IsConsistent :
    (c : Option Err) (d : Definition) (r g : String) (now u : ℤ) (s : MemoryStore)
    → IsConsistent s
    → IsConsistent (acquire c d r g now u s).0
unfolding acquire
acquire-IsConsistent c d r g now u s h = record {
  open_run = λ n l p e. ground (
    arith,
    str_eq_iff d.name n,
    lookup-put d.name n (record { run_id = r; until = u }) s.active,
    h.open_run n l,
  );
  bound_run = λ n l e. ground (
    arith,
    str_eq_iff d.name n,
    lookup-put d.name n (record { run_id = r; until = u }) s.active,
    str_eq_iff (job_key d.name r) (job_key n l.run_id),
    lookup-put (job_key d.name r) (job_key n l.run_id) g s.bindings,
    h.bound_run n l,
  );
  started_job = λ n l e. ground (
    arith,
    str_eq_iff d.name n,
    lookup-put d.name n (record { run_id = r; until = u }) s.active,
    lookup-put d.name n now s.last_start,
    h.started_job n l,
  );
}

finish-IsConsistent :
    (receipt : Receipt) (s : MemoryStore)
    → no_nul receipt.job ≡ true
    → IsConsistent s
    → IsConsistent (finish receipt s).0
unfolding finish
finish-IsConsistent receipt s named h = record {
  open_run = λ n l p e. ground (
    arith,
    str_eq_iff receipt.job n,
    lookup-remove receipt.job n s.active,
    str_eq_iff (job_key receipt.job receipt.run_id) (job_key n l.run_id),
    lookup-put (job_key receipt.job receipt.run_id) (job_key n l.run_id) receipt s.completed,
    job_key-injective receipt.job n receipt.run_id l.run_id named p,
    h.open_run n l,
  );
  bound_run = λ n l e.
      ground
        (arith, str_eq_iff receipt.job n, lookup-remove receipt.job n s.active, h.bound_run n l);
  started_job = λ n l e.
      ground
        (arith, str_eq_iff receipt.job n, lookup-remove receipt.job n s.active, h.started_job n l);
}

step-IsConsistent :
    (op : Op) (s : MemoryStore) → Named op → IsConsistent s → IsConsistent (step op s)
unfolding step
step-IsConsistent (acquire_op c d r g now u) s q h = acquire-IsConsistent c d r g now u s h
step-IsConsistent (finish_op receipt) s q h = finish-IsConsistent receipt s q h

new-IsConsistent : IsConsistent new_memory_store
unfolding lookup
new-IsConsistent = record {
  open_run = λ n l p e. cc;
  bound_run = λ n l e. cc;
  started_job = λ n l e. cc;
}

-- After any calls of a new store by jobs with no NUL in their names, every leased run has a digest
-- bound to it, its job has a last start, and the run is not completed.
pub steps-IsConsistent :
    (ops : List Op) → AllOps Named ops → IsConsistent (steps ops new_memory_store)
steps-IsConsistent ops q =
    steps_induction IsConsistent Named step-IsConsistent ops new_memory_store q new-IsConsistent
