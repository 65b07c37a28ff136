-- ===== src/Prelude/Bytes.antt =====
-- Go strings that the code walks byte by byte, as lists of byte values, and what packages bytes and
-- strings compute on them.
use Prim.Native.Nat.{ℕ, suc, ◌+◌}
use Prim.Native.Char.{code}
use Prim.Native.String.{String}
use mathlib.Core.Path.{◌≡◌, refl, ap₂, subst}
use mathlib.Core.Logic.{◌↔◌, inl, inr}
use mathlib.Core.Bool.{Bool, true, false, ◌&&◌, ◌||◌}
use mathlib.Core.List.{List, [], ◌∷◌, ◌++◌}
use native.Mathlib.Omega.{arith}
use codex_commons.Prelude.Tests.{Bool-cases, ◌==◌, if◌then◌else◌}

abbrev pub Bytes : Type 0
Bytes = List ℕ

-- The bytes of an ASCII text.
abbrev pub bytes : String → Bytes
bytes String.[] = []
bytes (String.◌∷◌ c s) = code c ∷ bytes s

unfoldable pub bytes_eq : Bytes → Bytes → Bool
bytes_eq [] [] = true
bytes_eq (a ∷ s) (b ∷ t) = a == b && bytes_eq s t
bytes_eq _ _ = false

pub bytes_eq→≡ : (s t : Bytes) → bytes_eq s t ≡ true → s ≡ t
unfolding bytes_eq
bytes_eq→≡ [] [] h = refl
bytes_eq→≡ [] (b ∷ t) h = cc
bytes_eq→≡ (a ∷ s) [] h = cc
bytes_eq→≡ (a ∷ s) (b ∷ t) h = ap₂ ◌∷◌ (ground arith) (bytes_eq→≡ s t (ground arith))

pub bytes_eq_refl : (s : Bytes) → bytes_eq s s ≡ true
unfolding bytes_eq
bytes_eq_refl [] = refl
bytes_eq_refl (a ∷ s) = ground (arith, bytes_eq_refl s)

pub bytes_eq_iff : (s t : Bytes) → (bytes_eq s t ≡ true) ↔ (s ≡ t)
bytes_eq_iff s t = (bytes_eq→≡ s t, λ e. rw e (bytes_eq_refl t))

-- strings.IndexByte(s, b) >= 0.
unfoldable pub has_byte : ℕ → Bytes → Bool
has_byte b [] = false
has_byte b (c ∷ s) = c == b || has_byte b s

-- bytes.Count(s, []byte{b}).
unfoldable pub count_byte : ℕ → Bytes → ℕ
count_byte b [] = 0
count_byte b (c ∷ s) = let rest = count_byte b s in if c == b then suc rest else rest

-- Every byte satisfies a test: a loop that returns at the first byte that does not.
unfoldable pub all_bytes : (ℕ → Bool) → Bytes → Bool
all_bytes p [] = true
all_bytes p (c ∷ s) = p c && all_bytes p s

pub has_byte-append : (b : ℕ) (s t : Bytes) → has_byte b (s ++ t) ≡ (has_byte b s || has_byte b t)
unfolding has_byte
has_byte-append b [] t = refl
has_byte-append b (c ∷ s) t = ground (arith, has_byte-append b s t)

pub count_byte-append :
    (b : ℕ) (s t : Bytes) → count_byte b (s ++ t) ≡ count_byte b s + count_byte b t
unfolding count_byte
count_byte-append b [] t = omega arith
count_byte-append b (c ∷ s) t = ground (arith, count_byte-append b s t)

pub count_byte-zero : (b : ℕ) (s : Bytes) → has_byte b s ≡ false → count_byte b s ≡ 0
unfolding has_byte count_byte
count_byte-zero b [] h = refl
count_byte-zero b (c ∷ s) h = ground (arith, count_byte-zero b s)

ne_of_test : (p : ℕ → Bool) (c b : ℕ) → p c ≡ true → p b ≡ false → (c == b) ≡ false
ne_of_test p c b h n = elim (Bool-cases (c == b)) [
  | inl same ↦ let e : c ≡ b = ground (arith, same) in absurd (cc (subst (λ x. p x ≡ true) e h, n))
  | inr other ↦ other
]

-- A byte that fails the test is in no text that passes it.
pub has_byte-all_bytes :
    (b : ℕ) (p : ℕ → Bool) (s : Bytes) → p b ≡ false → all_bytes p s ≡ true → has_byte b s ≡ false
unfolding has_byte all_bytes
has_byte-all_bytes b p [] n h = refl
has_byte-all_bytes b p (c ∷ s) n h = ground (arith, ne_of_test p c b, has_byte-all_bytes b p s n)
