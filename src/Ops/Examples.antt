-- ===== src/Ops/Examples.antt =====
-- Tests of the path and checksum grammars, and their theorems at concrete inputs.
use codex_commons.Prelude.{◌≡◌, ◌↔◌, ◌≤◌, none, some, List, [], ◌∷◌, ◌++◌, refl, arith}
use codex_commons.Prelude.Lists.{length, All}
use codex_commons.Prelude.Bytes.{Bytes, bytes, bytes_eq, all_bytes}
use codex_commons.Prelude.Results.{ok}
use codex_commons.Ops.Types.{invalid_path, max_checksum_bytes}
use codex_commons.Ops.Paths.{
  is_safe, valid_component, split_slash, has_double_slash, ends_in_slash, valid_components,
  valid_abs_path, split_parent_leaf,
}
use codex_commons.Ops.Paths.Grammar.{
  IsComponent, render, parent_of, valid_abs_path_iff, split_parent_leaf-render,
}
use codex_commons.Ops.Checksum.{parse_sha256_sum, checksum_record, format_sha256_sum, is_hex}
use codex_commons.Ops.Checksum.Records.{IsDigest, IsField}
use codex_commons.Ops.Checksum.Format.{parse_sha256_sum_iff, format_sha256_sum_iff}

abbrev backups : Bytes
backups = bytes "/srv/commons-backups"

accepts_backups : valid_abs_path backups ≡ none
unfolding valid_abs_path valid_components valid_component split_slash has_double_slash ends_in_slash
    is_safe bytes_eq all_bytes
accepts_backups = refl

rejects_traversal : valid_abs_path (bytes "/srv/../etc") ≡ some (invalid_path "traversal component")
unfolding valid_abs_path valid_components valid_component split_slash has_double_slash ends_in_slash
    is_safe bytes_eq all_bytes
rejects_traversal = refl

srv-IsComponent : IsComponent (bytes "srv")
unfolding is_safe all_bytes
srv-IsComponent = record {
  nonempty = λ e. cc e;
  not_dot = λ e. cc e;
  not_dots = λ e. cc e;
  safe = refl;
}

backups-IsComponent : IsComponent (bytes "commons-backups")
unfolding is_safe all_bytes
backups-IsComponent = record {
  nonempty = λ e. cc e;
  not_dot = λ e. cc e;
  not_dots = λ e. cc e;
  safe = refl;
}

valid_abs_path_iff_example :
    (valid_abs_path backups ≡ none)
    ↔ ((c : Bytes) × (cs : List Bytes) × All IsComponent (c ∷ cs) × (backups ≡ render (c ∷ cs)))
valid_abs_path_iff_example = valid_abs_path_iff backups

split_parent_leaf-render_example :
    split_parent_leaf (render ((bytes "srv" ∷ []) ++ bytes "commons-backups" ∷ []))
    ≡ ok (parent_of (bytes "srv" ∷ []), bytes "commons-backups")
split_parent_leaf-render_example =
    split_parent_leaf-render (bytes "srv" ∷ []) (bytes "commons-backups") (srv-IsComponent, tt)
      backups-IsComponent

abbrev digest : Bytes
digest = bytes "0123456789abcdef0123456789abcdef0123456789abcdef0123456789abcdef"

parse_sha256_sum_iff_example :
    (parse_sha256_sum (checksum_record digest backups) backups ≡ ok digest) ↔ (
      (checksum_record digest backups ≡ checksum_record digest backups)
      × IsDigest digest
      × IsField backups
      × (length (checksum_record digest backups) ≤ max_checksum_bytes))
parse_sha256_sum_iff_example = parse_sha256_sum_iff (checksum_record digest backups) backups digest

digest-IsDigest : IsDigest digest
unfolding all_bytes is_hex
digest-IsDigest = record { digits = refl; hex = refl }

format_sha256_sum_iff_example :
    (format_sha256_sum digest backups ≡ ok (checksum_record digest backups)) ↔ (
      (valid_abs_path backups ≡ none)
      × IsDigest digest
      × (length (checksum_record digest backups) ≤ max_checksum_bytes)
      × (checksum_record digest backups ≡ checksum_record digest backups))
format_sha256_sum_iff_example =
    format_sha256_sum_iff digest backups (checksum_record digest backups)

formats : format_sha256_sum digest backups ≡ ok (checksum_record digest backups)
formats = format_sha256_sum_iff_example.1 (accepts_backups, digest-IsDigest, omega arith, refl)
