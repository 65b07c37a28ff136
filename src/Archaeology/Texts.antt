-- ===== src/Archaeology/Texts.antt =====
-- Searches in strings (packages strings and path), and the patterns of the archaeology tests.
use Prim.Native.Char.{code}
use Prim.Native.String.{◌∷◌, []}
use mathlib.Core.List as L
use codex_commons.Prelude.{String, Bool, true, false, List, ◌&&◌, ◌||◌}
use codex_commons.Prelude.Tests.{◌==◌, str_eq}

unfoldable pub has_prefix : String → String → Bool
has_prefix s [] = true
has_prefix [] (d ∷ t) = false
has_prefix (c ∷ s) (d ∷ t) = code c == code d && has_prefix s t

-- strings.TrimPrefix, of a prefix that is there.
unfoldable pub behind_prefix : String → String → String
behind_prefix s [] = s
behind_prefix [] (d ∷ t) = []
behind_prefix (c ∷ s) (d ∷ t) = behind_prefix s t

unfoldable pub has_suffix : String → String → Bool
has_suffix [] t = str_eq [] t
has_suffix (c ∷ s) t = str_eq (c ∷ s) t || has_suffix s t

unfoldable pub contains_text : String → String → Bool
contains_text [] t = has_prefix [] t
contains_text (c ∷ s) t = has_prefix (c ∷ s) t || contains_text s t

unfoldable pub contains_any : String → List String → Bool
contains_any s L.[] = false
contains_any s (L.◌∷◌ t ts) = contains_text s t || contains_any s ts
