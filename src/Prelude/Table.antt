-- ===== src/Prelude/Table.antt =====
-- A Go map with string keys, as an association list that holds each key at most once.
use Prim.Native.String.{String}
use mathlib.Core.Path.{◌≡◌, refl, ◌∙◌}
use mathlib.Core.Logic.{◌⊎◌, inl, inr}
use mathlib.Core.Option.{Option, none, some}
use mathlib.Core.List.{List, [], ◌∷◌}
use native.Mathlib.Omega.{arith}
use codex_commons.Prelude.Tests.{Bool-cases, str_eq, str_eq_iff, if◌then◌else◌}

abbrev pub Table {ℓ} : Type ℓ → Type ℓ
Table V = List (String × V)

module _ {ℓ} {V : Type ℓ} where
  unfoldable pub lookup : String → Table V → Option V
  lookup k [] = none
  lookup k ((j, v) ∷ m) = if str_eq j k then some v else lookup k m

  unfoldable pub put : String → V → Table V → Table V
  put k v [] = (k, v) ∷ []
  put k v ((j, w) ∷ m) = let rest = put k v m in if str_eq j k then (k, v) ∷ m else (j, w) ∷ rest

  unfoldable pub remove : String → Table V → Table V
  remove k [] = []
  remove k ((j, w) ∷ m) = let rest = remove k m in if str_eq j k then rest else (j, w) ∷ rest

  pub lookup-put :
      (k j : String) (v : V) (m : Table V)
      → lookup j (put k v m) ≡ (if str_eq k j then some v else lookup j m)
  unfolding lookup put
  lookup-put k j v [] = refl
  lookup-put k j v ((i, w) ∷ m) =
      ground (arith, str_eq_iff k j, str_eq_iff i k, str_eq_iff i j, lookup-put k j v m)

  pub put_origin :
      (k j : String) (v w : V) (m : Table V)
      → lookup j (put k v m) ≡ some w
      → ((k ≡ j) × (v ≡ w)) ⊎ (lookup j m ≡ some w)
  put_origin k j v w m h = elim (Bool-cases (str_eq k j)) [
    | inl e ↦ inl ((str_eq_iff k j).0 e, ground (arith, lookup-put k j v m))
    | inr n ↦ inr (ground (arith, lookup-put k j v m))
  ]

  pub lookup-remove :
      (k j : String) (m : Table V)
      → lookup j (remove k m) ≡ (if str_eq k j then none else lookup j m)
  unfolding lookup remove
  lookup-remove k j [] = ground arith
  lookup-remove k j ((i, w) ∷ m) =
      ground (arith, str_eq_iff k j, str_eq_iff i k, str_eq_iff i j, lookup-remove k j m)

module _ {ℓ} {V : Type ℓ} where
  -- Each key stands once.
  abbrev pub KeysUnique : Table V → Type ℓ
  KeysUnique [] = Unit
  KeysUnique ((k, v) ∷ m) = (lookup k m ≡ none) × KeysUnique m

  pub put-KeysUnique : (k : String) (v : V) (m : Table V) → KeysUnique m → KeysUnique (put k v m)
  unfolding put lookup
  put-KeysUnique k v [] h = (refl, h)
  put-KeysUnique k v ((j, w) ∷ m) h = elim (Bool-cases (str_eq j k)) [
    | inl e ↦ rw e (rw (← (str_eq_iff j k).0 e) h.0, h.1)
    | inr n ↦ rw n (
      lookup-put k j v m ∙ ground (arith, h.0, n, str_eq_iff j k, str_eq_iff k j),
      put-KeysUnique k v m h.1,
    )
  ]

pub ruleset table_laws = (lookup-put, lookup-remove)
