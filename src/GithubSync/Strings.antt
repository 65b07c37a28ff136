-- ===== src/GithubSync/Strings.antt =====
-- What packages strings, strconv and unicode compute for internal/githubsync.
pub mod Decimal
use Prim.Native.Nat.{◌*◌, ◌/◌, ◌%◌, ◌^◌}
use Prim.Native.Char.{Char, code}
use Prim.Native.String.{◌∷◌, [], ◌++◌, char_at}
use codex_commons.Prelude.{ℕ, zero, suc, ◌+◌, ◌-◌, String, ◌&&◌, not}
use codex_commons.Prelude.Tests.{leb, ltb, ◌==◌, str_eq, if◌then◌else◌}
use codex_commons.Prelude.Int.{ℤ, pos, negsuc, pos_part, neg_part}

abbrev digit_char : ℕ → String
digit_char d = char_at "0123456789" d ∷ []

-- strconv.Itoa of a number that is not negative; it has at most as many digits as its value, or one.
decimal : ℕ → ℕ → String → String
decimal zero n behind = digit_char (n % 10) ++ behind
decimal (suc fuel) n behind =
    let longer = decimal fuel (n / 10) (digit_char (n % 10) ++ behind) in
    if ltb n 10 then digit_char n ++ behind else longer

unfoldable pub itoa : ℕ → String
unfolding decimal
itoa n = decimal n n ""

-- strings.TrimRight(s, "/").
unfoldable pub trim_right_slash : String → String
trim_right_slash [] = []
trim_right_slash (c ∷ s) =
    let rest = trim_right_slash s in if code c == 0x2f && str_eq rest "" then [] else c ∷ rest

-- Put a character before the first of two parts.
abbrev pub before_first : Char → String × String → String × String
before_first c (s, t) = (c ∷ s, t)

-- strings.SplitN(s, "?", 2): what stands before the first question mark, and what after it, or "".
unfoldable pub split_query : String → String × String
split_query [] = ([], [])
split_query (c ∷ s) =
    let rest = split_query s in if code c == 0x3f then ([], s) else before_first c rest

-- What strconv reads: a number, a number past the end of uint64, or something else.
pub data Digits : Type 0 where
  value : ℕ → Digits
  out_of_range bad_syntax : Digits

read_digits : ℕ → String → Digits
read_digits n [] = value n
read_digits n (c ∷ s) =
    let m = n * 10 + (code c - 48) in
    let rest = read_digits m s in
    if not (leb 48 (code c) && leb (code c) 57)
    then bad_syntax
    else if leb (2 ^ 64) m
    then out_of_range
    else rest

abbrev unsigned : Digits → ℕ
unsigned (value n) = n
unsigned out_of_range = 2 ^ 64 - 1
unsigned bad_syntax = 0

parse_unsigned : String → Digits
unfolding read_digits
parse_unsigned [] = bad_syntax
parse_unsigned (c ∷ s) = read_digits 0 (c ∷ s)

abbrev positive : ℕ → ℤ
positive n = if leb (2 ^ 63) n then pos (2 ^ 63 - 1) else pos n

abbrev negative : ℕ → ℤ
negative zero = pos 0
negative (suc n) = if ltb (2 ^ 63) (suc n) then negsuc (2 ^ 63 - 1) else negsuc n

-- The first answer of strconv.Atoi and of strconv.ParseInt(s, 10, 64): 0 for a text that is no number,
-- the nearest int64 for a number outside its range.
unfoldable pub atoi : String → ℤ
unfolding parse_unsigned
atoi [] = pos 0
atoi (c ∷ s) =
    if code c == 0x2b
    then positive (unsigned (parse_unsigned s))
    else if code c == 0x2d
    then negative (unsigned (parse_unsigned s))
    else positive (unsigned (parse_unsigned (c ∷ s)))

-- The int64 that holds the low 64 bits of a natural number.
abbrev signed : ℕ → ℤ
signed m = if ltb m (2 ^ 63) then pos m else negsuc (2 ^ 64 - m - 1)

-- time.Duration(n) * time.Second, on int64 with its wrap-around.
unfoldable pub seconds : ℤ → ℤ
seconds n =
    let m = (pos_part n + neg_part n) * 1000000000 % 2 ^ 64 in
    if pos_part n == 0 then signed ((2 ^ 64 - m) % 2 ^ 64) else signed m
