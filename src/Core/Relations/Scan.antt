-- ===== src/Core/Relations/Scan.antt =====
-- One round of the recursive query: what it adds to the queue and to what is reached, and that the
-- work that is left does not grow.
use codex_commons.Prelude.{
  ◌≡◌, ℕ, ◌+◌, ◌≤◌, ◌<◌, String, Bool, true, false, List, [], ◌∷◌, ◌||◌, ◌&&◌, not, ◌⊎◌, inl, inr,
  refl, arith,
}
use codex_commons.Prelude.Tests.{str_eq, str_eq_iff, Bool-cases, if◌then◌else◌}
use codex_commons.Prelude.Lists.{length, contains}
use codex_commons.Core.Types.{DependencyRow}
use codex_commons.Core.Rows.{has_dependency}
use codex_commons.Core.Relations.{Search, scan}

-- The state of the search behind one row.
abbrev look_at : DependencyRow → String → Search → Search
look_at row id s =
    if str_eq row.task_id id && not (contains s.reached row.depends_on)
    then record { queue = row.depends_on ∷ s.queue; reached = row.depends_on ∷ s.reached }
    else s

look_at_keeps :
    (row : DependencyRow) (id v : String) (s : Search)
    → (contains s.reached v ≡ true → contains (look_at row id s).reached v ≡ true)
      × (contains s.queue v ≡ true → contains (look_at row id s).queue v ≡ true)
look_at_keeps row id v s = ground arith

pub scan_keeps :
    (rows : List DependencyRow) (id v : String) (s : Search)
    → (contains s.reached v ≡ true → contains (scan rows id s).reached v ≡ true)
      × (contains s.queue v ≡ true → contains (scan rows id s).queue v ≡ true)
unfolding scan
scan_keeps [] id v s = (λ h. h, λ h. h)
scan_keeps (row ∷ rows) id v s =
    let rest = scan_keeps rows id v (look_at row id s) in
    let here = look_at_keeps row id v s in (λ h. rest.0 (here.0 h), λ h. rest.1 (here.1 h))

look_at_covers :
    (row : DependencyRow) (id v : String) (s : Search)
    → str_eq row.task_id id && str_eq row.depends_on v ≡ true
    → contains (look_at row id s).reached v ≡ true
look_at_covers row id v s h = ground (arith, str_eq_iff row.depends_on v)

pub scan_covers :
    (rows : List DependencyRow) (id v : String) (s : Search)
    → has_dependency id v rows ≡ true
    → contains (scan rows id s).reached v ≡ true
unfolding scan has_dependency
scan_covers [] id v s h = cc
scan_covers (row ∷ rows) id v s h =
    elim (Bool-cases (str_eq row.task_id id && str_eq row.depends_on v)) [
      | inl e ↦ (scan_keeps rows id v (look_at row id s)).0 (look_at_covers row id v s e)
      | inr n ↦ scan_covers rows id v (look_at row id s) (rw n at h)
    ]

look_at_queues :
    (row : DependencyRow) (id v : String) (s : Search)
    → contains (look_at row id s).reached v ≡ true
    → (contains s.reached v ≡ true) ⊎ (contains (look_at row id s).queue v ≡ true)
look_at_queues row id v s h = ground arith

pub scan_queues :
    (rows : List DependencyRow) (id v : String) (s : Search)
    → contains (scan rows id s).reached v ≡ true
    → (contains s.reached v ≡ true) ⊎ (contains (scan rows id s).queue v ≡ true)
unfolding scan
scan_queues [] id v s h = inl h
scan_queues (row ∷ rows) id v s h = elim (scan_queues rows id v (look_at row id s) h) [
  | inl e ↦ elim (look_at_queues row id v s e) [
    | inl before ↦ inl before
    | inr queued ↦ inr ((scan_keeps rows id v (look_at row id s)).1 queued)
  ]
  | inr queued ↦ inr queued
]

pub scan_within :
    (P : String → Type 0) (rows : List DependencyRow) (id : String) (s : Search)
    → ((v : String) → has_dependency id v rows ≡ true → P v)
    → ((v : String) → contains s.reached v ≡ true → P v)
    → (v : String) → contains (scan rows id s).reached v ≡ true
    → P v
unfolding scan has_dependency
scan_within P [] id s k h v r = h v r
scan_within P (row ∷ rows) id s k h v r =
    scan_within P rows id (look_at row id s) (λ u e. k u (ground arith))
      (λ u e. elim (Bool-cases (contains s.reached u)) [
        | inl before ↦ h u before
        | inr new ↦ k u (ground arith)
      ])
      v r

pub scan_queue_within :
    (P : String → Type 0) (rows : List DependencyRow) (id : String) (s : Search)
    → ((v : String) → has_dependency id v rows ≡ true → P v)
    → ((v : String) → contains s.queue v ≡ true → P v)
    → (v : String) → contains (scan rows id s).queue v ≡ true
    → P v
unfolding scan has_dependency
scan_queue_within P [] id s k h v r = h v r
scan_queue_within P (row ∷ rows) id s k h v r =
    scan_queue_within P rows id (look_at row id s) (λ u e. k u (ground arith))
      (λ u e. elim (Bool-cases (contains s.queue u)) [
        | inl before ↦ h u before
        | inr new ↦ k u (ground arith)
      ])
      v r

-- How many dependencies lead to a task that is not reached.
unfoldable pub unseen : List DependencyRow → List String → ℕ
unseen [] reached = 0
unseen (row ∷ rows) reached =
    (if contains reached row.depends_on then 0 else 1) + unseen rows reached

pub has_target : String → List DependencyRow → Bool
has_target id [] = false
has_target id (row ∷ rows) = str_eq row.depends_on id || has_target id rows

unseen_mono :
    (rows : List DependencyRow) (id : String) (reached : List String)
    → unseen rows (id ∷ reached) ≤ unseen rows reached
unfolding unseen
unseen_mono [] id reached = omega arith
unseen_mono (row ∷ rows) id reached = ground (arith, unseen_mono rows id reached)

unseen_falls :
    (rows : List DependencyRow) (id : String) (reached : List String)
    → has_target id rows ≡ true
    → contains reached id ≡ false
    → unseen rows (id ∷ reached) < unseen rows reached
unfolding unseen has_target
unseen_falls [] id reached h n = cc
unseen_falls (row ∷ rows) id reached h n = elim (Bool-cases (str_eq row.depends_on id)) [
  | inl e ↦
      let same : row.depends_on ≡ id = (str_eq_iff row.depends_on id).0 e in
      ground (arith, unseen_mono rows id reached, str_eq_iff id row.depends_on, same, n)
  | inr e ↦ ground (arith, unseen_falls rows id reached (rw e at h) n)
]

abbrev pub work : List DependencyRow → Search → ℕ
work all s = unseen all s.reached + length s.queue

pub work-scan :
    (all rows : List DependencyRow) (id : String) (s : Search)
    → ((v : String) → has_target v rows ≡ true → has_target v all ≡ true)
    → work all (scan rows id s) ≤ work all s
unfolding scan has_target
work-scan all [] id s k = omega arith
work-scan all (row ∷ rows) id s k =
    let known = k row.depends_on (rw ((str_eq_iff row.depends_on row.depends_on).1 refl) refl) in
    let rest = work-scan all rows id (look_at row id s) (λ v h. k v (ground arith)) in
    elim (Bool-cases (contains s.reached row.depends_on)) [
      | inl e ↦ ground (arith, rest)
      | inr e ↦
          let fall = unseen_falls all row.depends_on s.reached known e in ground (arith, rest, fall)
    ]
