-- ===== src/Jobs/Memory/Trace.antt =====
-- Sequences of calls of a MemoryStore, in the order in which they take its mutex.
use codex_commons.Prelude.{String, Bool, false, Option, List, [], ◌∷◌}
use codex_commons.Prelude.Int.{ℤ}
use codex_commons.Prelude.Results.{ok, err}
use codex_commons.Jobs.Types.{Definition, Receipt, AcquireResult, Result, Err}
use codex_commons.Jobs.Memory.{MemoryStore, acquire, finish}

pub data Op : Type 0 where
  acquire_op : Option Err → Definition → String → String → ℤ → ℤ → Op
  finish_op : Receipt → Op

unfoldable pub step : Op → MemoryStore → MemoryStore
step (acquire_op c d r g now until) s = (acquire c d r g now until s).0
step (finish_op receipt) s = (finish receipt s).0

unfoldable pub steps : List Op → MemoryStore → MemoryStore
steps [] s = s
steps (op ∷ ops) s = steps ops (step op s)

-- The reply lets its caller run.
abbrev pub is_acquired : Result AcquireResult → Bool
is_acquired (ok a) = a.acquired
is_acquired (err e) = false

-- A property that each step keeps holds at the end of every sequence of steps that satisfy `Q`.
abbrev pub AllOps : (Op → Type 0) → List Op → Type 0
AllOps Q [] = Unit {0}
AllOps Q (op ∷ ops) = Q op × AllOps Q ops

pub steps_induction :
    (P : MemoryStore → Type 0) (Q : Op → Type 0)
    → ((op : Op) (s : MemoryStore) → Q op → P s → P (step op s))
    → (ops : List Op) (s : MemoryStore) → AllOps Q ops
    → P s
    → P (steps ops s)
unfolding steps
steps_induction P Q keep [] s q p = p
steps_induction P Q keep (op ∷ ops) s q p =
    steps_induction P Q keep ops (step op s) q.1 (keep op s q.0 p)
