-- ===== src/Jobs/Memory/Leases.antt =====
-- A lease excludes every other run of its job until it expires or is finished.
use codex_commons.Prelude.{
  ◌≡◌, ◌≢◌, String, true, false, Option, none, some, List, ◌⊎◌, inl, inr, arith, subst,
}
use codex_commons.Prelude.Tests.{Option-cases, str_eq_iff, str_eq_refl}
use codex_commons.Prelude.Table.{lookup, lookup-put, lookup-remove}
use codex_commons.Prelude.Int.{ℤ, ◌<ℤ◌, ◌≤ℤ◌, ◌+ℤ◌, +ℤ_parts}
use codex_commons.Jobs.Types.{Definition, Receipt, Err}
use codex_commons.Jobs.Memory.{MemoryStore, acquire, finish}
use codex_commons.Jobs.Memory.Trace.{
  Op, acquire_op, finish_op, step, steps, is_acquired, AllOps, steps_induction,
}

-- Run `r` holds the lease of job `n` until `u`.
abbrev pub Held : String → String → ℤ → MemoryStore → Type 0
Held n r u s = lookup n s.active ≡ some (record { run_id = r; until = u })

-- The call is of another job, comes before `u`, or finishes another run.
abbrev pub Leaves : String → String → ℤ → Op → Type 0
Leaves n r u (acquire_op c d r' g now until) = (d.name ≢ n) ⊎ (now <ℤ u)
Leaves n r u (finish_op receipt) = (receipt.job ≢ n) ⊎ (receipt.run_id ≢ r)

pub step-Held :
    (n r : String) (u : ℤ) (op : Op) (s : MemoryStore)
    → Leaves n r u op
    → Held n r u s
    → Held n r u (step op s)
unfolding step acquire finish
step-Held n r u (acquire_op c d r' g now until) s l h = ground (
  arith,
  str_eq_iff d.name n,
  lookup-put d.name n (record { run_id = r'; until = until }) s.active,
)
step-Held n r u (finish_op receipt) s l h = ground (
  arith,
  str_eq_iff receipt.job n,
  str_eq_iff r receipt.run_id,
  lookup-remove receipt.job n s.active,
)

pub acquire-Held :
    (c : Option Err) (d : Definition) (r g : String) (now u : ℤ) (s : MemoryStore)
    → is_acquired (acquire c d r g now u s).1 ≡ true
    → Held d.name r u (acquire c d r g now u s).0
unfolding acquire
acquire-Held c d r g now u s h = ground (
  arith,
  str_eq_refl d.name,
  lookup-put d.name d.name (record { run_id = r; until = u }) s.active,
)

refuses_while_leased :
    (c : Option Err) (d : Definition) (r r' g : String) (now u u' : ℤ) (s : MemoryStore)
    → Held d.name r u s
    → now <ℤ u
    → is_acquired (acquire c d r' g now u' s).1 ≡ false
unfolding acquire
refuses_while_leased c d r r' g now u u' s h l = ground arith

-- Once a run holds its job until `u`, and as long as nobody finishes that run and the calls of the
-- job come before `u`, no acquisition of the job before `u` succeeds, whatever run it is for.
pub lease_exclusive :
    (c c' : Option Err) (d d' : Definition) (r r' g g' : String) (now now' u u' : ℤ)
    (s : MemoryStore) (ops : List Op)
    → is_acquired (acquire c d r g now u s).1 ≡ true
    → AllOps (Leaves d.name r u) ops
    → d.name ≡ d'.name
    → now' <ℤ u
    → is_acquired (acquire c' d' r' g' now' u' (steps ops (acquire c d r g now u s).0)).1 ≡ false
lease_exclusive c c' d d' r r' g g' now now' u u' s ops h q same before =
    let held : Held d.name r u (steps ops (acquire c d r g now u s).0) =
      steps_induction (Held d.name r u) (Leaves d.name r u) (step-Held d.name r u) ops
        (acquire c d r g now u s).0 q (acquire-Held c d r g now u s h) in
    refuses_while_leased c' d' r r' g' now' u u' (steps ops (acquire c d r g now u s).0)
      (subst (λ n. Held n r u (steps ops (acquire c d r g now u s).0)) same held) before

-- The clock of the call has not gone back before `t`.
abbrev pub NotBefore : ℤ → Op → Type 0
NotBefore t (acquire_op c d r g now until) = t ≤ℤ now
NotBefore t (finish_op receipt) = Unit

-- The last start of job `n` is not before `t`.
abbrev pub Since : ℤ → Option ℤ → Type 0
Since t none = ⊥
Since t (some last) = t ≤ℤ last

last_start-acquire :
    (n : String) (c : Option Err) (d : Definition) (r g : String) (now u : ℤ) (s : MemoryStore)
    → (lookup n (acquire c d r g now u s).0.last_start ≡ lookup n s.last_start)
      ⊎ (lookup n (acquire c d r g now u s).0.last_start ≡ some now)
unfolding acquire
last_start-acquire n c d r g now u s = ground (arith, lookup-put d.name n now s.last_start)

last_start-finish :
    (receipt : Receipt) (s : MemoryStore) → (finish receipt s).0.last_start ≡ s.last_start
unfolding finish
last_start-finish receipt s = ground arith

step-Since :
    (n : String) (t : ℤ) (op : Op) (s : MemoryStore)
    → NotBefore t op
    → Since t (lookup n s.last_start)
    → Since t (lookup n (step op s).last_start)
unfolding step
step-Since n t (acquire_op c d r g now u) s q h = elim (last_start-acquire n c d r g now u s) [
  | inl same ↦ rw same h
  | inr new ↦ rw new q
]
step-Since n t (finish_op receipt) s q h = rw (last_start-finish receipt s) h

acquire-last_start :
    (c : Option Err) (d : Definition) (r g : String) (now u : ℤ) (s : MemoryStore)
    → is_acquired (acquire c d r g now u s).1 ≡ true
    → lookup d.name (acquire c d r g now u s).0.last_start ≡ some now
unfolding acquire
acquire-last_start c d r g now u s h =
    ground (arith, str_eq_refl d.name, lookup-put d.name d.name now s.last_start)

acquire_waits :
    (c : Option Err) (d : Definition) (r g : String) (t now u : ℤ) (s : MemoryStore)
    → Since t (lookup d.name s.last_start)
    → is_acquired (acquire c d r g now u s).1 ≡ true
    → t +ℤ d.minimum_interval ≤ℤ now
unfolding acquire
acquire_waits c d r g t now u s h a = elim (Option-cases (lookup d.name s.last_start)) [
  | inl e ↦ absurd (rw e at h)
  | inr (last, e) ↦
      let after : t ≤ℤ last = rw e at h in
      ground (arith, after, +ℤ_parts t d.minimum_interval, +ℤ_parts last d.minimum_interval)
]

-- Two successful acquisitions of one job are the later definition's minimum interval apart, whatever
-- calls come between them, as long as the clock of those calls never goes back before the first.
pub interval_respected :
    (c c' : Option Err) (d d' : Definition) (r r' g g' : String) (now now' u u' : ℤ)
    (s : MemoryStore) (ops : List Op)
    → is_acquired (acquire c d r g now u s).1 ≡ true
    → AllOps (NotBefore now) ops
    → d.name ≡ d'.name
    → is_acquired (acquire c' d' r' g' now' u' (steps ops (acquire c d r g now u s).0)).1 ≡ true
    → now +ℤ d'.minimum_interval ≤ℤ now'
interval_respected c c' d d' r r' g g' now now' u u' s ops h q same again =
    let t = (acquire c d r g now u s).0 in
    let since : Since now (lookup d.name (steps ops t).last_start) =
      steps_induction (λ m. Since now (lookup d.name m.last_start)) (NotBefore now)
        (step-Since d.name now) ops t q (rw (acquire-last_start c d r g now u s h) (omega arith)) in
    acquire_waits c' d' r' g' now now' u' (steps ops t)
      (subst (λ n. Since now (lookup n (steps ops t).last_start)) same since) again
