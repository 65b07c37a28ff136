-- ===== src/Ops/Checksum.antt =====
-- internal/opsfs/checksum.go: one canonical record of a checksum file.
pub mod Records
pub mod Format
use codex_commons.Prelude.{
  ℕ, zero, suc, ◌≡◌, String, Bool, true, false, Option, none, some, List, [], ◌∷◌, ◌++◌, ◌&&◌, ◌||◌,
  not,
}
use codex_commons.Prelude.Tests.{leb, ltb, ◌==◌, if◌then◌else◌}
use codex_commons.Prelude.Lists.{length}
use codex_commons.Prelude.Bytes.{Bytes, bytes, bytes_eq, all_bytes, has_byte, count_byte}
use codex_commons.Prelude.Results.{ok, err}
use codex_commons.Ops.Types.{Err, invalid_checksum, Result, max_checksum_bytes}
use codex_commons.Ops.Paths.{valid_abs_path}

unfoldable pub is_hex : ℕ → Bool
is_hex c = leb b'0' c && leb c b'9' || leb b'a' c && leb c b'f'

unfoldable pub valid_digest : Bytes → Option Err
unfolding is_hex
valid_digest digest =
    if not (length digest == 64)
    then some (invalid_checksum "digest")
    else if all_bytes is_hex digest
    then none
    else some (invalid_checksum "digest")

-- body[:len(body)-1], if body[len(body)-1] is a newline.
unfoldable pub strip_newline : Bytes → Option Bytes
strip_newline [] = none
strip_newline (c ∷ []) = if c == b'\n' then some [] else none
strip_newline (c ∷ d ∷ s) = elim (strip_newline (d ∷ s)) [
  | none ↦ none
  | some line ↦ some (c ∷ line)
]

-- The text behind a leading space.
abbrev pub after_space : Bytes → Option Bytes
after_space [] = none
after_space (c ∷ s) = if c == b' ' then some s else none

abbrev pub longer : ℕ → Option (Bytes × Bytes) → Option (Bytes × Bytes)
longer c none = none
longer c (some (before, after)) = some (c ∷ before, after)

-- strings.Cut(line, "  "): before and after the first two spaces.
unfoldable pub cut_two_spaces : Bytes → Option (Bytes × Bytes)
cut_two_spaces [] = none
cut_two_spaces (c ∷ s) =
    let later = longer c (cut_two_spaces s) in
    elim (after_space s) [ none ↦ later | some rest ↦ if c == b' ' then some ([], rest) else later ]

-- The tests on the two fields of the line.
unfoldable pub check_fields : Bytes → Bytes × Bytes → Result Bytes
check_fields path (digest, rest) =
    if has_byte b' ' rest || has_byte b'\t' rest
    then err (invalid_checksum "extra field")
    else if not (bytes_eq rest path)
    then err (invalid_checksum "path")
    else elim (valid_digest digest) [ some e ↦ err e | none ↦ ok digest ]

unfoldable pub check_line : Bytes → Bytes → Result Bytes
unfolding check_fields
check_line path line =
    if has_byte b'\n' line || has_byte b'\r' line
    then err (invalid_checksum "line count")
    else elim (cut_two_spaces line) [
      | none ↦ err (invalid_checksum "grammar")
      | some fields ↦ check_fields path fields
    ]

unfoldable pub parse_sha256_sum : Bytes → Bytes → Result Bytes
unfolding check_line
parse_sha256_sum body path =
    if length body == 0 || ltb max_checksum_bytes (length body)
    then err (invalid_checksum "size")
    else if has_byte 0 body
    then err (invalid_checksum "control")
    else if not (count_byte b'\n' body == 1)
    then err (invalid_checksum "line count")
    else elim (strip_newline body) [
      | none ↦ err (invalid_checksum "line count")
      | some line ↦ check_line path line
    ]

-- digest + "  " + path + "\n"
abbrev pub checksum_record : Bytes → Bytes → Bytes
checksum_record digest path = digest ++ b' ' ∷ b' ' ∷ (path ++ b'\n' ∷ [])

unfoldable pub format_sha256_sum : Bytes → Bytes → Result Bytes
format_sha256_sum digest path = elim (valid_abs_path path) [
  | some e ↦ err e
  | none ↦ elim (valid_digest digest) [
    | some e ↦ err e
    | none ↦ elim (parse_sha256_sum (checksum_record digest path) path) [
      | err e ↦ err e
      | ok parsed ↦ ok (checksum_record digest path)
    ]
  ]
]
