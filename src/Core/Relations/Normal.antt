-- ===== src/Core/Relations/Normal.antt =====
-- normalizeDependencyIDs: the same identifiers, in order and each once, or nothing.
use codex_commons.Prelude.{
  ◌≡◌, ◌≤◌, refl, ap, ◌∙◌, suc, String, true, false, some, List, [], ◌∷◌, ◌||◌, arith, inl, inr,
}
use codex_commons.Prelude.Tests.{str_eq, str_eq_iff, Bool-cases}
use codex_commons.Prelude.Lists.{length, contains, All}
use codex_commons.Prelude.Text.{str_ltb, str_ltb_asymm, str_ltb_total}
use codex_commons.Archaeology.StableIds.{bounded_text}
use codex_commons.Core.Relations.{
  insert_sorted, sort_strings, valid_behind, valid_dependencies, normalize_dependency_ids,
}

-- Each string is less than the next one.
abbrev pub AscendsFrom : String → List String → Type 0
AscendsFrom low [] = Unit
AscendsFrom low (x ∷ xs) = (str_ltb low x ≡ true) × AscendsFrom x xs

abbrev pub Ascends : List String → Type 0
Ascends [] = Unit
Ascends (x ∷ xs) = AscendsFrom x xs

-- No string is less than the one before it.
abbrev OrderedFrom : String → List String → Type 0
OrderedFrom low [] = Unit
OrderedFrom low (x ∷ xs) = (str_ltb x low ≡ false) × OrderedFrom x xs

abbrev Ordered : List String → Type 0
Ordered [] = Unit
Ordered (x ∷ xs) = OrderedFrom x xs

insert-OrderedFrom :
    (low value : String) (xs : List String)
    → str_ltb value low ≡ false
    → OrderedFrom low xs
    → OrderedFrom low (insert_sorted value xs)
unfolding insert_sorted
insert-OrderedFrom low value [] h k = (h, tt)
insert-OrderedFrom low value (x ∷ xs) h k = elim (Bool-cases (str_ltb x value)) [
  | inl less ↦ rw less (k.0, insert-OrderedFrom x value xs (str_ltb_asymm x value less) k.1)
  | inr other ↦ rw other (h, (other, k.1))
]

insert-Ordered : (value : String) (xs : List String) → Ordered xs → Ordered (insert_sorted value xs)
unfolding insert_sorted
insert-Ordered value [] h = tt
insert-Ordered value (x ∷ xs) h = elim (Bool-cases (str_ltb x value)) [
  | inl less ↦ rw less (insert-OrderedFrom x value xs (str_ltb_asymm x value less) h)
  | inr other ↦ rw other (other, h)
]

sort-Ordered : (xs : List String) → Ordered (sort_strings xs)
unfolding sort_strings
sort-Ordered [] = tt
sort-Ordered (x ∷ xs) = insert-Ordered x (sort_strings xs) (sort-Ordered xs)

contains-insert :
    (value v : String) (xs : List String)
    → contains (insert_sorted value xs) v ≡ (str_eq value v || contains xs v)
unfolding insert_sorted
contains-insert value v [] = refl
contains-insert value v (x ∷ xs) = ground (arith, contains-insert value v xs)

contains-sort : (v : String) (xs : List String) → contains (sort_strings xs) v ≡ contains xs v
unfolding sort_strings
contains-sort v [] = refl
contains-sort v (x ∷ xs) =
    contains-insert x v (sort_strings xs) ∙ ap (λ b. str_eq x v || b) (contains-sort v xs)

length-insert :
    (value : String) (xs : List String) → length (insert_sorted value xs) ≡ suc (length xs)
unfolding insert_sorted
length-insert value [] = refl
length-insert value (x ∷ xs) = ground (arith, length-insert value xs)

length-sort : (xs : List String) → length (sort_strings xs) ≡ length xs
unfolding sort_strings
length-sort [] = refl
length-sort (x ∷ xs) = length-insert x (sort_strings xs) ∙ ap suc (length-sort xs)

strict :
    (low : String) (xs : List String)
    → OrderedFrom low xs
    → valid_behind low xs ≡ true
    → AscendsFrom low xs
unfolding valid_behind
strict low [] h k = tt
strict low (x ∷ xs) h k = (
  elim (Bool-cases (str_ltb low x)) [
    | inl less ↦ less
    | inr other ↦ absurd (ground (arith, k, (str_eq_iff x low).1 (str_ltb_total x low h.0 other)))
  ],
  strict x xs h.1 (ground (arith, k)),
)

ascending : (xs : List String) → Ordered xs → valid_dependencies xs ≡ true → Ascends xs
unfolding valid_dependencies
ascending [] h k = tt
ascending (x ∷ xs) h k = strict x xs h (ground (arith, k))

abbrev Bounded : String → Type 0
Bounded v = bounded_text v 200 true ≡ true

Bounded-behind : (low : String) (xs : List String) → valid_behind low xs ≡ true → All Bounded xs
unfolding valid_behind
Bounded-behind low [] h = tt
Bounded-behind low (x ∷ xs) h = (ground (arith, h), Bounded-behind x xs (ground (arith, h)))

each-Bounded : (xs : List String) → valid_dependencies xs ≡ true → All Bounded xs
unfolding valid_dependencies
each-Bounded [] h = tt
each-Bounded (x ∷ xs) h = (ground (arith, h), Bounded-behind x xs (ground (arith, h)))

-- Dependencies that are accepted become at most 20 identifiers in ascending order, so none twice, each
-- within its bounds, and they are exactly the ones that were given, whose number is unchanged.
pub normalize_dependency_ids_lem :
    (ids out : List String)
    → normalize_dependency_ids ids ≡ some out
    → Ascends out
      × (length out ≤ 20)
      × (length out ≡ length ids)
      × ((v : String) → contains out v ≡ contains ids v)
      × All (λ v. bounded_text v 200 true ≡ true) out
unfolding normalize_dependency_ids
normalize_dependency_ids_lem ids out h =
    let same : sort_strings ids ≡ out = ground arith in
    let valid : valid_dependencies (sort_strings ids) ≡ true = ground arith in
    let few : length ids ≤ 20 = ground arith in
    rw (← same) (
      ascending (sort_strings ids) (sort-Ordered ids) valid,
      omega (arith, length-sort ids, few),
      length-sort ids,
      λ v. contains-sort v ids,
      each-Bounded (sort_strings ids) valid,
    )
