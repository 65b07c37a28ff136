-- ===== src/Retention/Order.antt =====
-- The list that the removal runs over is in the order of the comparison, and holds the backups.
use mathlib.Core.List.Perm
use mathlib.Core.List.{Perm}
use codex_commons.Prelude.{
  ℕ, zero, suc, ◌≡◌, String, true, false, List, [], ◌∷◌, arith, inl, inr, sym, subst, ◌∙◌,
}
use codex_commons.Prelude.Tests.{Bool-cases}
use codex_commons.Prelude.Lists.{All, take, drop}
use codex_commons.Prelude.Text.{str_ltb, str_ltb_trans, str_ltb_asymm, str_ltb_total}
use codex_commons.Retention.{RetainedFile, stands_before, insert_file, sort_files}

-- `b` does not come before `a`.
abbrev pub IsBefore : RetainedFile → RetainedFile → Type 0
IsBefore a b = stands_before b a ≡ false

abbrev pub IsOrdered : List RetainedFile → Type 0
IsOrdered [] = Unit
IsOrdered (x ∷ xs) = All (IsBefore x) xs × IsOrdered xs

str_ltb_neg_trans :
    (s t u : String) → str_ltb s t ≡ false → str_ltb t u ≡ false → str_ltb s u ≡ false
str_ltb_neg_trans s t u h k = elim (Bool-cases (str_ltb s u)) [
  | inr f ↦ f
  | inl su ↦ elim (Bool-cases (str_ltb u t)) [
    | inl ut ↦ absurd (cc (sym (str_ltb_trans s u t su ut) ∙ h))
    | inr not_ut ↦
        let same : t ≡ u = str_ltb_total t u k not_ut in
        absurd (cc (sym (subst (λ x. str_ltb s x ≡ true) (sym same) su) ∙ h))
  ]
]

IsBefore-trans : (x y z : RetainedFile) → IsBefore x y → IsBefore y z → IsBefore x z
unfolding stands_before
IsBefore-trans x y z h k = ground (arith, h, k, str_ltb_neg_trans x.name y.name z.name)

stands_before_asymm : (x y : RetainedFile) → stands_before y x ≡ true → IsBefore y x
unfolding stands_before
stands_before_asymm x y h = ground (arith, h, str_ltb_asymm x.name y.name)

IsBefore-All :
    (x y : RetainedFile) (ys : List RetainedFile)
    → IsBefore x y
    → All (IsBefore y) ys
    → All (IsBefore x) ys
IsBefore-All x y [] h k = tt
IsBefore-All x y (z ∷ ys) h k = (IsBefore-trans x y z h k.0, IsBefore-All x y ys h k.1)

insert_file-All :
    (P : RetainedFile → Type 0) (x : RetainedFile) (ys : List RetainedFile)
    → P x
    → All P ys
    → All P (insert_file x ys)
unfolding insert_file
insert_file-All P x [] h k = (h, tt)
insert_file-All P x (y ∷ ys) h k = elim (Bool-cases (stands_before y x)) [
  | inl t ↦ rw t (k.0, insert_file-All P x ys h k.1)
  | inr f ↦ rw f (h, k)
]

insert_file-IsOrdered :
    (x : RetainedFile) (ys : List RetainedFile) → IsOrdered ys → IsOrdered (insert_file x ys)
unfolding insert_file
insert_file-IsOrdered x [] h = (tt, tt)
insert_file-IsOrdered x (y ∷ ys) h = elim (Bool-cases (stands_before y x)) [
  | inl t ↦ rw t (
    insert_file-All (IsBefore y) x ys (stands_before_asymm x y t) h.0,
    insert_file-IsOrdered x ys h.1,
  )
  | inr f ↦ rw f ((f, IsBefore-All x y ys f h.0), h)
]

pub sort_files-IsOrdered : (fs : List RetainedFile) → IsOrdered (sort_files fs)
unfolding sort_files
sort_files-IsOrdered [] = tt
sort_files-IsOrdered (f ∷ fs) = insert_file-IsOrdered f (sort_files fs) (sort_files-IsOrdered fs)

All-drop :
    (P : RetainedFile → Type 0) (n : ℕ) (fs : List RetainedFile) → All P fs → All P (drop n fs)
All-drop P zero fs h = h
All-drop P (suc n) [] h = h
All-drop P (suc n) (f ∷ fs) h = All-drop P n fs h.1

pub IsOrdered-take :
    (n : ℕ) (fs : List RetainedFile)
    → IsOrdered fs
    → All (λ kept. All (IsBefore kept) (drop n fs)) (take n fs)
IsOrdered-take zero fs h = tt
IsOrdered-take (suc n) [] h = tt
IsOrdered-take (suc n) (f ∷ fs) h = (All-drop (IsBefore f) n fs h.0, IsOrdered-take n fs h.1)

insert_file-Perm : (x : RetainedFile) (ys : List RetainedFile) → Perm (insert_file x ys) (x ∷ ys)
unfolding insert_file
insert_file-Perm x [] = Perm.rfl
insert_file-Perm x (y ∷ ys) = elim (Bool-cases (stands_before y x)) [
  | inl t ↦ rw t (Perm.trans (Perm.cons y (insert_file-Perm x ys)) (Perm.swap x y ys))
  | inr f ↦ rw f Perm.rfl
]

-- Sorting loses no file and makes none.
pub sort_files-Perm : (fs : List RetainedFile) → Perm (sort_files fs) fs
unfolding sort_files
sort_files-Perm [] = Perm.nil
sort_files-Perm (f ∷ fs) =
    Perm.trans (insert_file-Perm f (sort_files fs)) (Perm.cons f (sort_files-Perm fs))
