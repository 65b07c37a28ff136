-- ===== src/Ops/Paths.antt =====
-- internal/opsfs/path.go: which paths an operator may name, and how one is taken apart.
pub mod Grammar
use codex_commons.Prelude.{
  ℕ, zero, suc, ◌≡◌, ◌≢◌, String, Bool, true, false, Option, none, some, List, [], ◌∷◌, ◌++◌, ◌&&◌,
  ◌||◌, not,
}
use codex_commons.Prelude.Tests.{leb, ◌==◌, if◌then◌else◌}
use codex_commons.Prelude.Bytes.{Bytes, bytes, bytes_eq, all_bytes}
use codex_commons.Prelude.Results.{ok, err}
use codex_commons.Ops.Types.{Err, invalid_path, Result}

-- The cases of the switch in validComponent.
unfoldable pub is_safe : ℕ → Bool
is_safe c =
    leb b'A' c && leb c b'Z'
    || leb b'a' c && leb c b'z'
    || leb b'0' c && leb c b'9'
    || c == b'.'
    || c == b'_'
    || c == b'-'

unfoldable pub valid_component : Bytes → Option Err
valid_component part =
    if bytes_eq part []
    then some (invalid_path "empty component")
    else if bytes_eq part (bytes ".") || bytes_eq part (bytes "..")
    then some (invalid_path "traversal component")
    else if all_bytes is_safe part
    then none
    else some (invalid_path "unsafe character")

-- strings.Split(s, "/").
abbrev pub cons_first : ℕ → List Bytes → List Bytes
cons_first c [] = (c ∷ []) ∷ []
cons_first c (p ∷ ps) = (c ∷ p) ∷ ps

unfoldable pub split_slash : Bytes → List Bytes
split_slash [] = [] ∷ []
split_slash (c ∷ s) = let rest = split_slash s in if c == b'/' then [] ∷ rest else cons_first c rest

-- strings.Contains(path, "//").
unfoldable pub has_double_slash : Bytes → Bool
has_double_slash [] = false
has_double_slash (c ∷ []) = false
has_double_slash (c ∷ d ∷ s) = c == b'/' && d == b'/' || has_double_slash (d ∷ s)

-- path[len(path)-1] == '/', for a path that is not empty.
unfoldable pub ends_in_slash : Bytes → Bool
ends_in_slash [] = false
ends_in_slash (c ∷ []) = c == b'/'
ends_in_slash (c ∷ d ∷ s) = ends_in_slash (d ∷ s)

-- The loop over the components.
unfoldable pub valid_components : List Bytes → Option Err
valid_components [] = none
valid_components (p ∷ ps) =
    let rest = valid_components ps in elim (valid_component p) [ some e ↦ some e | none ↦ rest ]

unfoldable pub valid_abs_path : Bytes → Option Err
valid_abs_path [] = some (invalid_path "must be absolute")
valid_abs_path (c ∷ rest) =
    if not (c == b'/')
    then some (invalid_path "must be absolute")
    else if bytes_eq (c ∷ rest) (bytes "/")
    then some (invalid_path "root is not an operator leaf")
    else if has_double_slash (c ∷ rest)
    then some (invalid_path "empty component")
    else if ends_in_slash (c ∷ rest)
    then some (invalid_path "trailing slash")
    else valid_components (split_slash rest)

-- The cut at strings.LastIndexByte(path, '/'): what stands before it and after it.
unfoldable pub cut_last_slash : Bytes → Option (Bytes × Bytes)
cut_last_slash [] = none
cut_last_slash (c ∷ s) = elim (cut_last_slash s) [
  | some (before, after) ↦ some (c ∷ before, after)
  | none ↦ if c == b'/' then some ([], s) else none
]

-- Without a slash the index is -1, and the slice path[:-1] would panic; a valid path has one.
unfoldable pub split_parent_leaf : Bytes → Result (Bytes × Bytes)
split_parent_leaf path = elim (valid_abs_path path) [
  | some e ↦ err e
  | none ↦ elim (cut_last_slash path) [
    | none ↦ err (invalid_path "index out of range")
    | some (before, leaf) ↦ if bytes_eq before [] then ok (bytes "/", leaf) else ok (before, leaf)
  ]
]

-- The -wal, -shm and -journal files beside a database.
unfoldable pub sqlite_siblings : Bytes → List Bytes
sqlite_siblings leaf =
    (leaf ++ bytes "-wal") ∷ (leaf ++ bytes "-shm") ∷ (leaf ++ bytes "-journal") ∷ []
