-- ===== src/Prelude/Sql.antt =====
-- length(trim(s)) of SQLite, which the checks of several tables use: trim takes the spaces at both ends,
-- and length counts the characters in front of the first NUL.
use Prim.Native.Nat.{ℕ, suc}
use Prim.Native.String.{String}
use Prim.Native.Char.{code}
use mathlib.Core.Bool.{Bool, ◌&&◌}
use codex_commons.Prelude.Tests.{leb, ltb, ◌==◌, if◌then◌else◌}

unfoldable pub skip_spaces : String → String
skip_spaces String.[] = String.[]
skip_spaces (String.◌∷◌ c s) =
    let rest = skip_spaces s in if code c == 0x20 then rest else String.◌∷◌ c s

-- How many characters stand up to the last one that is no space.
unfoldable pub width : String → ℕ
width String.[] = 0
width (String.◌∷◌ c s) = let rest = width s in if rest == 0 && code c == 0x20 then 0 else suc rest

-- How many characters stand in front of the first NUL.
unfoldable pub before_nul : String → ℕ
before_nul String.[] = 0
before_nul (String.◌∷◌ c s) = let rest = before_nul s in if code c == 0 then 0 else suc rest

unfoldable pub trimmed_length : String → ℕ
trimmed_length s =
    let t = skip_spaces s in if ltb (before_nul t) (width t) then before_nul t else width t

-- CHECK(length(trim(s)) BETWEEN 1 AND 200)
unfoldable pub name_fits : String → Bool
name_fits s = leb 1 (trimmed_length s) && leb (trimmed_length s) 200
