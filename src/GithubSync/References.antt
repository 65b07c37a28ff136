-- ===== src/GithubSync/References.antt =====
-- validName and boundedSHAs of internal/githubsync/client.go.
pub mod Sets
use codex_commons.Prelude.{ℕ, suc, String, len, Bool, true, false, List, [], ◌∷◌, not, ◌&&◌, ◌||◌}
use codex_commons.Prelude.Tests.{leb, ltb, str_eq, ◌==◌, if◌then◌else◌}
use codex_commons.Prelude.Lists.{length}
use codex_commons.Prelude.Text.{trim_space, str_ltb}
use codex_commons.Prelude.Results.{ok, err, ◌>>=◌, ◌>>◌, require}
use codex_commons.Prelude.Text.{all_chars, to_lower}
use codex_commons.GithubSync.Types.{Fails, invalid, Err}

unfoldable pub is_name_char : ℕ → Bool
is_name_char c =
    leb 0x61 c && leb c 0x7a
    || leb 0x41 c && leb c 0x5a
    || leb 0x30 c && leb c 0x39
    || c == 0x2d
    || c == 0x5f
    || c == 0x2e

unfoldable pub valid_name : String → Bool
valid_name s =
    if str_eq s "" || ltb 100 (len s) || str_eq s "." || str_eq s ".."
    then false
    else all_chars is_name_char s

unfoldable pub is_sha_char : ℕ → Bool
is_sha_char c = leb 0x30 c && leb c 0x39 || leb 0x61 c && leb c 0x66

-- The tests on one reference, already trimmed and in lower case.
unfoldable pub valid_sha : String → Bool
valid_sha value = not (ltb (len value) 7 || ltb 64 (len value)) && all_chars is_sha_char value

unfoldable pub normal_sha : String → String
normal_sha value = to_lower (trim_space value)

-- The set of the loop and the sort after it, in one: a list in order, with each string once.
unfoldable pub insert_sha : String → List String → List String
insert_sha value [] = value ∷ []
insert_sha value (s ∷ set) =
    let rest = insert_sha value set in
    if str_eq value s then s ∷ set else if str_ltb value s then value ∷ s ∷ set else s ∷ rest

unfoldable pub collect_shas : List String → Fails (List String)
collect_shas [] = ok []
collect_shas (value ∷ values) =
    let rest = collect_shas values in
    do
      require (valid_sha (normal_sha value)) invalid
      set ← rest
      ok (insert_sha (normal_sha value) set)

unfoldable pub bounded_shas : List String → ℕ → Fails (List String)
bounded_shas values limit = do
  require (not (ltb limit (length values))) invalid
  collect_shas values
