-- ===== src/GithubSync/Strings/Decimal.antt =====
-- strconv.Itoa: what it prints is read back as the same number, and holds digits only.
use Prim.Native.Nat.{◌*◌, ◌/◌, ◌%◌}
use Prim.Native.Char.{code}
use Prim.Native.String as S
use text.Mathlib.TextLemmas.{cons-append, nil-append}
use codex_commons.Prelude.{
  ◌≡◌, refl, sym, ap, ◌∙◌, ℕ, zero, suc, ◌+◌, ◌-◌, ◌≤◌, ◌<◌, String, Bool, true, ◌&&◌, arith, inl,
  inr,
}
use codex_commons.Prelude.Tests.{leb, ltb, Bool-cases}
use codex_commons.Prelude.Text.{all_chars}
use codex_commons.GithubSync.Strings.{digit_char, decimal, itoa}

digit_code : (d : ℕ) → d < 10 → code (S.char_at "0123456789" d) ≡ 48 + d
digit_code zero h = refl
digit_code (suc zero) h = refl
digit_code (suc (suc zero)) h = refl
digit_code (suc (suc (suc zero))) h = refl
digit_code (suc (suc (suc (suc zero)))) h = refl
digit_code (suc (suc (suc (suc (suc zero))))) h = refl
digit_code (suc (suc (suc (suc (suc (suc zero)))))) h = refl
digit_code (suc (suc (suc (suc (suc (suc (suc zero))))))) h = refl
digit_code (suc (suc (suc (suc (suc (suc (suc (suc zero)))))))) h = refl
digit_code (suc (suc (suc (suc (suc (suc (suc (suc (suc zero))))))))) h = refl
digit_code (suc (suc (suc (suc (suc (suc (suc (suc (suc (suc d)))))))))) h =
    absurd (omega (arith, h))

-- The number that a text of digits continues.
value_from : ℕ → String → ℕ
value_from n S.[] = n
value_from n (S.◌∷◌ c s) = value_from (n * 10 + (code c - 48)) s

digit_first :
    (d : ℕ) (behind : String)
    → S.◌++◌ (digit_char d) behind ≡ S.◌∷◌ (S.char_at "0123456789" d) behind
digit_first d behind =
    cons-append (S.char_at "0123456789" d) S.[] behind
    ∙ ap (S.◌∷◌ (S.char_at "0123456789" d)) (nil-append behind)

value_from-digit :
    (n d : ℕ) (behind : String)
    → d < 10
    → value_from n (S.◌++◌ (digit_char d) behind) ≡ value_from (n * 10 + d) behind
unfolding value_from
value_from-digit n d behind h =
    ap (value_from n) (digit_first d behind)
    ∙ ap (λ k. value_from (n * 10 + (k - 48)) behind) (digit_code d h)
    ∙ ap (λ k. value_from k behind) (omega arith)

value_from-decimal :
    (fuel n : ℕ) (behind : String)
    → n ≤ fuel
    → value_from 0 (decimal fuel n behind) ≡ value_from n behind
unfolding decimal
value_from-decimal zero n behind h =
    value_from-digit 0 (n % 10) behind (omega arith)
    ∙ ap (λ k. value_from k behind) (omega (arith, h))
value_from-decimal (suc fuel) n behind h = elim (Bool-cases (ltb n 10)) [
  | inl small ↦
      rw (small, decimal)
        (value_from-digit 0 n behind (ground (arith, small))
          ∙ ap (λ k. value_from k behind) (omega arith))
  | inr large ↦
      rw (large, decimal)
        (value_from-decimal fuel (n / 10) (S.◌++◌ (digit_char (n % 10)) behind)
            (ground (arith, h, large))
          ∙ value_from-digit (n / 10) (n % 10) behind (omega arith)
          ∙ ap (λ k. value_from k behind) (omega arith))
]

-- Two numbers that print alike are equal.
pub itoa-injective : (n m : ℕ) → itoa n ≡ itoa m → n ≡ m
unfolding itoa value_from
itoa-injective n m h =
    sym (value_from-decimal n n "" (omega arith))
    ∙ ap (value_from 0) h
    ∙ value_from-decimal m m "" (omega arith)

abbrev pub is_digit_code : ℕ → Bool
is_digit_code c = leb 48 c && leb c 57

digit_passes :
    (d : ℕ) (behind : String)
    → d < 10
    → all_chars is_digit_code behind ≡ true
    → all_chars is_digit_code (S.◌++◌ (digit_char d) behind) ≡ true
unfolding all_chars
digit_passes d behind h p =
    ap (all_chars is_digit_code) (digit_first d behind)
    ∙ ap (λ k. is_digit_code k && all_chars is_digit_code behind) (digit_code d h)
    ∙ ground (arith, h, p)

decimal_passes :
    (fuel n : ℕ) (behind : String)
    → all_chars is_digit_code behind ≡ true
    → all_chars is_digit_code (decimal fuel n behind) ≡ true
unfolding decimal
decimal_passes zero n behind p = digit_passes (n % 10) behind (omega arith) p
decimal_passes (suc fuel) n behind p = elim (Bool-cases (ltb n 10)) [
  | inl small ↦ rw (small, decimal) (digit_passes n behind (ground (arith, small)) p)
  | inr large ↦
      rw (large, decimal)
        (decimal_passes fuel (n / 10) (S.◌++◌ (digit_char (n % 10)) behind)
          (digit_passes (n % 10) behind (omega arith) p))
]

pub itoa_digits : (n : ℕ) → all_chars is_digit_code (itoa n) ≡ true
unfolding itoa all_chars
itoa_digits n = decimal_passes n n "" refl
