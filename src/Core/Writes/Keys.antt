-- ===== src/Core/Writes/Keys.antt =====
-- The storage key of a request tells who sent it: no two actors share one.
use Prim.Native.Char.{Char, code, len_utf8}
use Prim.Native.String as S
use text.Mathlib.TextPositions.{len_utf8-pos}
use text.Mathlib.TextLemmas.{cons-eq-cons, cons-append, nil-append}
use codex_commons.Prelude.{◌≡◌, ◌≢◌, refl, sym, ap, subst, ◌∙◌, ◌+◌, String, len, true, ◌&&◌, arith}
use codex_commons.Prelude.Tests.{str_eq-of_ne}
use codex_commons.Prelude.Text.{all_chars}
use codex_commons.GithubSync.Strings.{itoa}
use codex_commons.GithubSync.Strings.Decimal.{itoa-injective, itoa_digits, is_digit_code}
use codex_commons.Core.Writes.{request_storage_key}

abbrev append : String → String → String
append s t = S.◌++◌ s t

colon-append : (x : String) → append ":" x ≡ S.◌∷◌ ":" x
colon-append x = cons-append ":" S.[] x ∙ ap (S.◌∷◌ ":") (nil-append x)

no_colon :
    (c : Char) (b x y : String)
    → all_chars is_digit_code (S.◌∷◌ c b) ≡ true
    → append ":" x ≡ append (S.◌∷◌ c b) (append ":" y)
    → ⊥
unfolding all_chars
no_colon c b x y q e =
    let colon : Char = ":" in
    let same : colon ≡ c =
      (cons-eq-cons.0 (sym (colon-append x) ∙ e ∙ cons-append c b (append ":" y))).0 in
    cc (subst (λ k. is_digit_code (code k) && all_chars is_digit_code b ≡ true) (sym same) q)

split_at_colon :
    (a b x y : String)
    → all_chars is_digit_code a ≡ true
    → all_chars is_digit_code b ≡ true
    → append a (append ":" x) ≡ append b (append ":" y)
    → (a ≡ b) × (x ≡ y)
unfolding all_chars
split_at_colon S.[] S.[] x y p q e = (
  refl,
  (cons-eq-cons.0 (
      sym (colon-append x)
      ∙ sym (nil-append (append ":" x))
      ∙ e
      ∙ nil-append (append ":" y)
      ∙ colon-append y)).1,
)
split_at_colon S.[] (S.◌∷◌ c b) x y p q e =
    absurd (no_colon c b x y q (sym (nil-append (append ":" x)) ∙ e))
split_at_colon (S.◌∷◌ c a) S.[] x y p q e =
    absurd (no_colon c a y x p (sym (nil-append (append ":" y)) ∙ sym e))
split_at_colon (S.◌∷◌ c a) (S.◌∷◌ k b) x y p q e =
    let (head, rest) =
      cons-eq-cons.0 (sym (cons-append c a (append ":" x)) ∙ e ∙ cons-append k b (append ":" y)) in
    let (tails, ends) = split_at_colon a b x y (ground (arith, p)) (ground (arith, q)) rest in
    (cons-eq-cons.1 (head, tails), ends)

len-nil : len S.[] ≡ 0
len-nil = S.len.nil

len-cons : (c : Char) (s : String) → len (S.◌∷◌ c s) ≡ len_utf8 c + len s
len-cons c s = S.len.cons c s

not_empty : (c : Char) (s : String) → len (S.◌∷◌ c s) ≡ len S.[] → ⊥
not_empty c s h = let (k, wide) = len_utf8-pos c in omega (arith, h, len-cons c s, wide, len-nil)

-- Two texts of one length that begin one text are equal.
split_at_len : (s t x y : String) → len s ≡ len t → append s x ≡ append t y → (s ≡ t) × (x ≡ y)
split_at_len S.[] S.[] x y n e = (refl, sym (nil-append x) ∙ e ∙ nil-append y)
split_at_len S.[] (S.◌∷◌ c t) x y n e = absurd (not_empty c t (sym n))
split_at_len (S.◌∷◌ c s) S.[] x y n e = absurd (not_empty c s n)
split_at_len (S.◌∷◌ c s) (S.◌∷◌ k t) x y n e =
    let (head, rest) = cons-eq-cons.0 (sym (cons-append c s x) ∙ e ∙ cons-append k t y) in
    let (tails, ends) =
      split_at_len s t x y (omega (arith, n, ap len_utf8 head, len-cons c s, len-cons k t)) rest in
    (cons-eq-cons.1 (head, tails), ends)

-- The storage keys of two requests whose actors and request identifiers are not empty are equal only if
-- one actor sent both under one request identifier, whatever the sessions are.
pub request_storage_key-injective :
    (actor session request actor2 session2 request2 : String)
    → actor ≢ ""
    → actor2 ≢ ""
    → request ≢ ""
    → request2 ≢ ""
    → request_storage_key actor session request ≡ request_storage_key actor2 session2 request2
    → (actor ≡ actor2) × (request ≡ request2)
unfolding request_storage_key
request_storage_key-injective actor session request actor2 session2 request2 a a2 r r2 e =
    let keys : append (itoa (len actor)) (append ":" (append actor request))
        ≡ append (itoa (len actor2)) (append ":" (append actor2 request2)) =
      ground (
        arith,
        str_eq-of_ne actor "" a,
        str_eq-of_ne actor2 "" a2,
        str_eq-of_ne request "" r,
        str_eq-of_ne request2 "" r2,
        e,
      ) in
    let (lengths, rest) =
      split_at_colon (itoa (len actor)) (itoa (len actor2)) (append actor request)
        (append actor2 request2) (itoa_digits (len actor)) (itoa_digits (len actor2)) keys in
    split_at_len actor actor2 request request2 (itoa-injective (len actor) (len actor2) lengths)
      rest
