-- ===== src/Presence/Listing.antt =====
-- List: sorted by session, and in agreement with Get.
use codex_commons.Prelude.{
  ◌≡◌, String, true, false, Option, none, some, List, [], ◌∷◌, ◌⊎◌, inl, inr, arith, refl, ◌∙◌, ap,
  subst,
}
use codex_commons.Prelude.Tests.{Bool-cases, str_eq, str_eq_iff, str_eq_refl, if◌then◌else◌}
use codex_commons.Prelude.Lists.{All}
use codex_commons.Prelude.Table.{Table, lookup, KeysUnique}
use codex_commons.Prelude.Text.{str_ltb, str_ltb_asymm, str_ltb_trans, str_ltb_total}
use codex_commons.Prelude.Int.{ℤ}
use codex_commons.Presence.{
  Registry, SessionRecord, Snapshot, snapshot, get, selects, collect, insert_by_session,
  sort_by_session, list, new_registry,
}
use codex_commons.Presence.Trace.{Op, steps, IsKeyed, steps-IsKeyed}

-- The first snapshot of a session in a list.
unfoldable pub find : String → List Snapshot → Option Snapshot
find k [] = none
find k (x ∷ xs) = if str_eq x.session k then some x else find k xs

-- No session stands before a smaller one.
abbrev pub IsSorted : List Snapshot → Type 0
IsSorted [] = Unit {0}
IsSorted (x ∷ xs) = All (λ y. str_ltb y.session x.session ≡ false) xs × IsSorted xs

-- str_ltb is a total order, so "not after" is transitive.
not_after_trans : (a b c : String) → str_ltb b a ≡ false → str_ltb c b ≡ false → str_ltb c a ≡ false
not_after_trans a b c h k = elim (Bool-cases (str_ltb a b)) [
  | inl ab ↦ elim (Bool-cases (str_ltb c a)) [
    | inl ca ↦ absurd (cc (str_ltb_trans c a b ca ab, k))
    | inr n ↦ n
  ]
  | inr ba ↦ subst (λ x. str_ltb c x ≡ false) (str_ltb_total b a h ba) k
]

insert-All :
    (bound : String) (x : Snapshot) (ys : List Snapshot)
    → str_ltb x.session bound ≡ false
    → All (λ y. str_ltb y.session bound ≡ false) ys
    → All (λ y. str_ltb y.session bound ≡ false) (insert_by_session x ys)
unfolding insert_by_session
insert-All bound x [] h a = (h, tt)
insert-All bound x (y ∷ ys) h a = elim (Bool-cases (str_ltb y.session x.session)) [
  | inl before ↦ rw before (a.0, insert-All bound x ys h a.1)
  | inr after ↦ rw after (h, a)
]

All-not_after :
    (x y : String) (ys : List Snapshot)
    → str_ltb y x ≡ false
    → All (λ z. str_ltb z.session y ≡ false) ys
    → All (λ z. str_ltb z.session x ≡ false) ys
All-not_after x y [] h a = tt
All-not_after x y (z ∷ zs) h a = (not_after_trans x y z.session h a.0, All-not_after x y zs h a.1)

insert-IsSorted :
    (x : Snapshot) (ys : List Snapshot) → IsSorted ys → IsSorted (insert_by_session x ys)
unfolding insert_by_session
insert-IsSorted x [] h = (tt, tt)
insert-IsSorted x (y ∷ ys) h = elim (Bool-cases (str_ltb y.session x.session)) [
  | inl before ↦ rw before (
    insert-All y.session x ys (str_ltb_asymm y.session x.session before) h.0,
    insert-IsSorted x ys h.1,
  )
  | inr after ↦ rw after ((after, All-not_after x.session y.session ys after h.0), h)
]

sort-IsSorted : (xs : List Snapshot) → IsSorted (sort_by_session xs)
unfolding sort_by_session
sort-IsSorted [] = tt
sort-IsSorted (x ∷ xs) = insert-IsSorted x (sort_by_session xs) (sort-IsSorted xs)

find-insert :
    (k : String) (x : Snapshot) (ys : List Snapshot)
    → find x.session ys ≡ none
    → find k (insert_by_session x ys) ≡ (if str_eq x.session k then some x else find k ys)
unfolding find insert_by_session
find-insert k x [] h = refl
find-insert k x (y ∷ ys) h = ground (
  arith,
  str_eq_iff x.session k,
  str_eq_iff y.session k,
  str_eq_iff y.session x.session,
  find-insert k x ys,
)

-- No session stands twice.
abbrev Distinct : List Snapshot → Type 0
Distinct [] = Unit {0}
Distinct (x ∷ xs) = (find x.session xs ≡ none) × Distinct xs

find-sort :
    (k : String) (xs : List Snapshot) → Distinct xs → find k (sort_by_session xs) ≡ find k xs
unfolding find sort_by_session
find-sort k [] h = refl
find-sort k (x ∷ xs) h =
    find-insert k x (sort_by_session xs) (find-sort x.session xs h.1 ∙ h.0)
    ∙ rw (find-sort k xs h.1)

-- What List shows of a record.
abbrev pub shown : ℤ → String → Option SessionRecord → Option Snapshot
shown now project none = none
shown now project (some rec) = if selects project rec then some (snapshot now rec) else none

abbrev Named : Table SessionRecord → Type 0
Named m = (k : String) (rec : SessionRecord) → lookup k m ≡ some rec → rec.session ≡ k

Named-tail :
    (j : String) (rec : SessionRecord) (m : Table SessionRecord)
    → lookup j m ≡ none
    → Named ((j, rec) ∷ m)
    → Named m
Named-tail j rec m fresh h k x e = h k x (unfold lookup in go (Bool-cases (str_eq j k)))
  where
    go : (str_eq j k ≡ true) ⊎ (str_eq j k ≡ false) → lookup k ((j, rec) ∷ m) ≡ some x
    go (inl same) = absurd (cc (subst (λ i. lookup i m ≡ none) ((str_eq_iff j k).0 same) fresh, e))
    go (inr other) = unfold lookup in rw other e

Named-head :
    (j : String) (rec : SessionRecord) (m : Table SessionRecord)
    → Named ((j, rec) ∷ m)
    → rec.session ≡ j
Named-head j rec m h = h j rec (unfold lookup in rw (str_eq_refl j))

find-collect :
    (now : ℤ) (project k : String) (m : Table SessionRecord)
    → KeysUnique m
    → Named m
    → find k (collect now project m) ≡ shown now project (lookup k m)
unfolding find collect snapshot lookup
find-collect now project k [] u h = refl
find-collect now project k ((j, rec) ∷ m) u h = ground (
  arith,
  Named-head j rec m h,
  u.0,
  str_eq_iff j k,
  find-collect now project k m u.1 (Named-tail j rec m u.0 h),
)

collect-Distinct :
    (now : ℤ) (project : String) (m : Table SessionRecord)
    → KeysUnique m
    → Named m
    → Distinct (collect now project m)
unfolding collect
collect-Distinct now project [] u h = tt
collect-Distinct now project ((j, rec) ∷ m) u h =
    let rest = collect-Distinct now project m u.1 (Named-tail j rec m u.0 h) in
    elim (Bool-cases (selects project rec)) [
      | inl yes' ↦ rw yes' (
        unfold snapshot in
            (find-collect now project rec.session m u.1 (Named-tail j rec m u.0 h)
              ∙ rw (Named-head j rec m h) (ap (shown now project) u.0)),
        rest,
      )
      | inr no' ↦ rw no' rest
    ]

find-list :
    (now : ℤ) (project k : String) (r : Registry)
    → IsKeyed r
    → find k (list now project r) ≡ shown now project (lookup k r.sessions)
unfolding list
find-list now project k r h =
    find-sort k (collect now project r.sessions)
      (collect-Distinct now project r.sessions h.unique h.named)
    ∙ find-collect now project k r.sessions h.unique h.named

get-shown : (now : ℤ) (k : String) (r : Registry) → get now k r ≡ shown now "" (lookup k r.sessions)
unfolding get selects
get-shown now k r = ground (arith, str_eq_refl "")

-- For every registry that calls can make, List is sorted by session, and holds for each session
-- `k` exactly what its record shows: the snapshot that Get gives, if the project is "" or the
-- record's, and nothing otherwise.
pub list_agrees :
    (now : ℤ) (project k : String) (ops : List Op)
    → let r = steps ops new_registry in
      IsSorted (list now project r)
      × (find k (list now project r) ≡ shown now project (lookup k r.sessions))
      × (get now k r ≡ shown now "" (lookup k r.sessions))
unfolding list
list_agrees now project k ops = (
  sort-IsSorted (collect now project (steps ops new_registry).sessions),
  find-list now project k (steps ops new_registry) (steps-IsKeyed ops),
  get-shown now k (steps ops new_registry),
)
