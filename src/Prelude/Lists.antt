-- ===== src/Prelude/Lists.antt =====
-- Lists measured and indexed by native numbers, under the library's names, and membership tests.
use Prim.Native.Nat.{ℕ, zero, suc, ◌+◌}
use Prim.Native.String.{String}
use mathlib.Core.Path.{◌≡◌, refl}
use mathlib.Core.Bool.{Bool, true, false, ◌&&◌, ◌||◌}
use mathlib.Core.List.{List, [], ◌∷◌, ◌++◌}
use native.Mathlib.Omega.{arith}
use codex_commons.Prelude.Tests.{str_eq}

module _ {ℓ} {A : Type ℓ} where
  abbrev pub length : List A → ℕ
  length [] = 0
  length (x ∷ xs) = suc (length xs)

  abbrev pub take : ℕ → List A → List A
  take zero xs = []
  take (suc n) [] = []
  take (suc n) (x ∷ xs) = x ∷ take n xs

  abbrev pub drop : ℕ → List A → List A
  drop zero xs = xs
  drop (suc n) [] = []
  drop (suc n) (x ∷ xs) = drop n xs

  pub length-append : (xs ys : List A) → length (xs ++ ys) ≡ length xs + length ys
  length-append [] ys = omega arith
  length-append (x ∷ xs) ys = omega (arith, length-append xs ys)

  pub take-append-drop : (n : ℕ) (xs : List A) → take n xs ++ drop n xs ≡ xs
  take-append-drop zero xs = refl
  take-append-drop (suc n) [] = refl
  take-append-drop (suc n) (x ∷ xs) = rw (take-append-drop n xs)

-- Every element satisfies the predicate: the product of what it says of each.
abbrev pub All {α π} : {X : Type α} → (X → Type π) → List X → Type π
All IsGood [] = Unit
All IsGood (first ∷ others) = IsGood first × All IsGood others

pub All-map {α π ρ} :
    {X : Type α} (P : X → Type π) (Q : X → Type ρ) (xs : List X)
    → ((x : X) → P x → Q x)
    → All P xs
    → All Q xs
All-map P Q [] f h = tt
All-map P Q (x ∷ xs) f h = (f x h.0, All-map P Q xs f h.1)

-- A set of strings, as Go's map[string]bool is used, is the list of its members.
abbrev pub contains : List String → String → Bool
contains [] a = false
contains (x ∷ xs) a = str_eq x a || contains xs a

abbrev pub contains_all : List String → List String → Bool
contains_all actual [] = true
contains_all actual (x ∷ xs) = contains actual x && contains_all actual xs
