-- ===== src/Prelude/Text.antt =====
-- strings.TrimSpace, and the order of strings that Go's < decides.
use Prim.Native.Nat.{ℕ, ◌-◌}
use Prim.Native.Char.{Char, code}
use Prim.Native.String.{String, [], ◌∷◌, char_at}
use mathlib.Core.Path.{◌≡◌, refl, ap₂}
use mathlib.Core.Bool.{Bool, true, false, ◌&&◌, ◌||◌}
use native.Mathlib.Omega.{arith}
use text.Mathlib.TextEquality.{Char-path}
use codex_commons.Prelude.Tests.{leb, ltb, ◌==◌, str_eq, if◌then◌else◌}

-- unicode.IsSpace.
is_space : ℕ → Bool
is_space c =
    leb 9 c && leb c 13
    || c == 0x20
    || c == 0x85
    || c == 0xA0
    || c == 0x1680
    || leb 0x2000 c && leb c 0x200a
    || c == 0x2028
    || c == 0x2029
    || c == 0x202f
    || c == 0x205f
    || c == 0x3000

trim_left : String → String
trim_left [] = []
trim_left (c ∷ s) = let rest = trim_left s in if is_space (code c) then rest else c ∷ s

trim_right : String → String
trim_right [] = []
trim_right (c ∷ s) =
    let rest = trim_right s in if is_space (code c) && str_eq rest [] then [] else c ∷ rest

unfoldable pub trim_space : String → String
unfolding is_space trim_left trim_right
trim_space s = trim_left (trim_right s)

-- strings.ToLower, as far as the result is ASCII: the letters A to Z, and the two others whose lower
-- case is ASCII, U+0130 and U+212A. Other letters stay as they are.
lower_char : Char → Char
lower_char c =
    if leb 65 (code c) && leb (code c) 90
    then char_at "abcdefghijklmnopqrstuvwxyz" (code c - 65)
    else if code c == 0x130
    then "i"
    else if code c == 0x212A
    then "k"
    else c

unfoldable pub to_lower : String → String
unfolding lower_char
to_lower [] = []
to_lower (c ∷ s) = lower_char c ∷ to_lower s

-- Every character satisfies a test.
unfoldable pub all_chars : (ℕ → Bool) → String → Bool
all_chars p [] = true
all_chars p (c ∷ s) = p (code c) && all_chars p s

-- s < t. The byte order of valid UTF-8 is the order of the code points.
unfoldable pub str_ltb : String → String → Bool
str_ltb s [] = false
str_ltb [] (d ∷ t) = true
str_ltb (c ∷ s) (d ∷ t) =
    let rest = str_ltb s t in
    if ltb (code c) (code d) then true else if ltb (code d) (code c) then false else rest

pub str_ltb_asymm : (s t : String) → str_ltb s t ≡ true → str_ltb t s ≡ false
unfolding str_ltb
str_ltb_asymm [] [] h = refl
str_ltb_asymm (c ∷ s) [] h = cc
str_ltb_asymm [] (d ∷ t) h = refl
str_ltb_asymm (c ∷ s) (d ∷ t) h = ground (arith, str_ltb_asymm s t)

pub str_ltb_trans : (s t u : String) → str_ltb s t ≡ true → str_ltb t u ≡ true → str_ltb s u ≡ true
unfolding str_ltb
str_ltb_trans s t [] h k = cc
str_ltb_trans s [] (e ∷ u) h k = cc
str_ltb_trans [] (d ∷ t) (e ∷ u) h k = refl
str_ltb_trans (c ∷ s) (d ∷ t) (e ∷ u) h k = ground (arith, str_ltb_trans s t u)

pub str_ltb_total : (s t : String) → str_ltb s t ≡ false → str_ltb t s ≡ false → s ≡ t
unfolding str_ltb
str_ltb_total [] [] h k = refl
str_ltb_total (c ∷ s) [] h k = cc
str_ltb_total [] (d ∷ t) h k = cc
str_ltb_total (c ∷ s) (d ∷ t) h k =
    ap₂ ◌∷◌ (Char-path c d (ground arith)) (str_ltb_total s t (ground arith) (ground arith))
