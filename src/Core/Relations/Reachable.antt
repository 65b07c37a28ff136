-- ===== src/Core/Relations/Reachable.antt =====
-- The recursive query of validateTaskRelations finds exactly the tasks that a task depends on, itself
-- or through others, and its queue empties within one round for each dependency.
use codex_commons.Prelude.{
  ◌≡◌, ℕ, zero, suc, ◌≤◌, String, true, false, List, [], ◌∷◌, inl, inr, refl, arith, ◌↔◌,
}
use codex_commons.Prelude.Tests.{str_eq, str_eq_iff, Bool-cases}
use codex_commons.Prelude.Lists.{length, contains}
use codex_commons.Core.Types.{DependencyRow}
use codex_commons.Core.Rows.{has_dependency}
use codex_commons.Core.Relations.{Search, scan, drain, reachable}
use codex_commons.Core.Relations.Scan.{
  scan_keeps, scan_covers, scan_queues, scan_within, scan_queue_within, work-scan, unseen, work,
}

-- One task depends on another, itself or through others.
pub data DependsOn (rows : List DependencyRow) (id : String) : String → Type 0 where
  directly_on : {other : String} → has_dependency id other rows ≡ true → DependsOn rows id other
  through :
      {other further : String}
      → DependsOn rows id other
      → has_dependency other further rows ≡ true
      → DependsOn rows id further

-- A task that is reached and no longer queued has what it depends on reached.
Closed : List DependencyRow → Search → Type 0
Closed rows s =
    (u v : String)
    → contains s.reached u ≡ true
    → contains s.queue u ≡ false
    → has_dependency u v rows ≡ true
    → contains s.reached v ≡ true

scan-Closed :
    (rows : List DependencyRow) (id : String) (rest reached : List String)
    → Closed rows (record { queue = id ∷ rest; reached = reached })
    → Closed rows (scan rows id (record { queue = rest; reached = reached }))
unfolding Closed
scan-Closed rows id rest reached h u v r n e =
    let s : Search = record { queue = rest; reached = reached } in
    elim (scan_queues rows id u s r) [
      | inr queued ↦ absurd (cc (queued, n))
      | inl before ↦ elim (Bool-cases (str_eq id u)) [
        | inl same ↦ scan_covers rows id v s (rw ((str_eq_iff id u).0 same) e)
        | inr other ↦ elim (Bool-cases (contains rest u)) [
          | inl waits ↦ absurd (cc ((scan_keeps rows id u s).1 waits, n))
          | inr gone ↦ (scan_keeps rows id v s).0 (h u v before (rw (other, gone) refl) e)
        ]
      ]
    ]

-- The search ends with an empty queue and all that follows from what it had reached.
record Ends (rows : List DependencyRow) (s t : Search) : Type 0 where
  empties : t.queue ≡ []
  closed : Closed rows t
  keeps : (v : String) → contains s.reached v ≡ true → contains t.reached v ≡ true

drain-Ends :
    (fuel : ℕ) (rows : List DependencyRow) (queue reached : List String)
    → work rows (record { queue = queue; reached = reached }) ≤ fuel
    → Closed rows (record { queue = queue; reached = reached })
    → Ends rows
        (record { queue = queue; reached = reached })
        (drain fuel rows (record { queue = queue; reached = reached }))
unfolding drain
drain-Ends zero rows [] r h c = record { empties = refl; closed = c; keeps = λ v k. k }
drain-Ends zero rows (id ∷ rest) r h c = absurd (omega (arith, h))
drain-Ends (suc fuel) rows [] r h c = record { empties = refl; closed = c; keeps = λ v k. k }
drain-Ends (suc fuel) rows (id ∷ rest) r h c =
    let s : Search = record { queue = rest; reached = r } in
    let t : Search = scan rows id s in
    let later =
      drain-Ends fuel rows t.queue t.reached (omega (arith, work-scan rows rows id s (λ v k. k), h))
        (scan-Closed rows id rest r c) in
    record {
      empties = later.empties;
      closed = later.closed;
      keeps = λ v k. later.keeps v ((scan_keeps rows id v s).0 k);
    }

drain_within :
    (P : String → Type 0) (rows : List DependencyRow)
    → ((u v : String) → P u → has_dependency u v rows ≡ true → P v)
    → (fuel : ℕ) (queue reached : List String) → ((v : String) → contains queue v ≡ true → P v)
    → ((v : String) → contains reached v ≡ true → P v)
    → (v : String)
    → contains (drain fuel rows (record { queue = queue; reached = reached })).reached v ≡ true
    → P v
unfolding drain
drain_within P rows k zero q m hq h v r = h v r
drain_within P rows k (suc fuel) [] m hq h v r = h v r
drain_within P rows k (suc fuel) (id ∷ rest) m hq h v r =
    let s : Search = record { queue = rest; reached = m } in
    let t : Search = scan rows id s in
    let here : P id = hq id (rw ((str_eq_iff id id).1 refl) refl) in
    drain_within P rows k fuel t.queue t.reached
      (scan_queue_within P rows id s (λ u e. k id u here e) (λ u e. hq u (ground arith)))
      (scan_within P rows id s (λ u e. k id u here e) h) v r

unseen_le : (rows : List DependencyRow) → unseen rows [] ≤ length rows
unfolding unseen
unseen_le [] = omega arith
unseen_le (row ∷ rows) = omega (arith, unseen_le rows)

start-Closed :
    (rows : List DependencyRow) (id : String)
    → Closed rows (scan rows id (record { queue = []; reached = [] }))
unfolding Closed
start-Closed rows id u v r n e =
    elim (scan_queues rows id u (record { queue = []; reached = [] }) r) [
      | inl before ↦ absurd cc
      | inr queued ↦ absurd (cc (queued, n))
    ]

complete :
    (rows : List DependencyRow) (id : String) (s : Search)
    → s.queue ≡ []
    → Closed rows s
    → ((v : String) → has_dependency id v rows ≡ true → contains s.reached v ≡ true)
    → (other : String) → DependsOn rows id other
    → contains s.reached other ≡ true
unfolding Closed
complete rows id s q c h other (directly_on e) = h other e
complete rows id s q c h other (through {other = u} p e) =
    c u other (complete rows id s q c h u p) (rw q refl) e

-- The recursive query is right: its answer for a task holds another exactly when the task depends on
-- that other, directly or through other tasks.
pub reachable_exact :
    (rows : List DependencyRow) (id other : String)
    → (contains (reachable rows id) other ≡ true) ↔ DependsOn rows id other
unfolding reachable Closed
reachable_exact rows id other =
    let none : Search = record { queue = []; reached = [] } in
    let start : Search = scan rows id none in
    let end : Ends rows start (drain (length rows) rows start) =
      drain-Ends (length rows) rows start.queue start.reached
        (omega (arith, work-scan rows rows id none (λ v k. k), unseen_le rows))
        (start-Closed rows id) in
    (
      drain_within (DependsOn rows id) rows (λ u v p e. through p e) (length rows) start.queue
          start.reached
          (scan_queue_within (DependsOn rows id) rows id none (λ v e. directly_on e)
            (λ v e. absurd cc))
          (scan_within (DependsOn rows id) rows id none (λ v e. directly_on e) (λ v e. absurd cc))
          other,
      complete rows id (drain (length rows) rows start) end.empties end.closed
          (λ v e. end.keeps v (scan_covers rows id v none e)) other,
    )
