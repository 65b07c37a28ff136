-- ===== src/Ops/Checksum/Format.antt =====
-- ParseSHA256Sum and FormatSHA256Sum describe the same records.
use codex_commons.Prelude.{
  ℕ, ◌≤◌, ◌≡◌, ◌↔◌, false, none, ◌∷◌, arith, refl, inl, inr, ◌∙◌, ap, sym, subst,
}
use codex_commons.Prelude.Tests.{◌==◌}
use codex_commons.Prelude.Lists.{length}
use codex_commons.Prelude.Bytes.{Bytes, has_byte}
use codex_commons.Prelude.Results.{ok_or_err, ok}
use codex_commons.Ops.Types.{max_checksum_bytes}
use codex_commons.Ops.Paths.{is_safe, valid_abs_path}
use codex_commons.Ops.Paths.Grammar.{render-free, valid_abs_path_iff}
use codex_commons.Ops.Checksum.{valid_digest, parse_sha256_sum, checksum_record, format_sha256_sum}
use codex_commons.Ops.Checksum.Records.{
  IsDigest, IsField, valid_digest_iff, parse_sound, parse_complete,
}

-- The parser accepts a body for a path just when the body is the record of the digest and the path,
-- the digest is 64 lowercase hex digits, the path holds no NUL, line break, space or tab, and the
-- body is not longer than the limit.
pub parse_sha256_sum_iff :
    (body path d : Bytes)
    → (parse_sha256_sum body path ≡ ok d) ↔ (
        (body ≡ checksum_record d path)
        × IsDigest d
        × IsField path
        × (length body ≤ max_checksum_bytes))
parse_sha256_sum_iff body path d = (
  parse_sound body path d,
  λ (shape, k, f, bound).
      rw shape (parse_complete path d k f (subst (λ b. length b ≤ max_checksum_bytes) shape bound)),
)

valid_abs_path-IsField : (path : Bytes) → valid_abs_path path ≡ none → IsField path
unfolding is_safe
valid_abs_path-IsField path h =
    let (c, cs, k, e) = (valid_abs_path_iff path).0 h in
    let free : (b : ℕ) → is_safe b ≡ false → (b'/' == b) ≡ false → has_byte b path ≡ false =
      λ b n m. ap (has_byte b) e ∙ render-free b (c ∷ cs) n m k in
    record {
      nul = free 0 refl refl;
      newline = free b'\n' refl refl;
      carriage = free b'\r' refl refl;
      space = free b' ' refl refl;
      tab = free b'\t' refl refl;
    }

record-parses :
    (d path parsed : Bytes)
    → valid_abs_path path ≡ none
    → IsDigest d
    → parse_sha256_sum (checksum_record d path) path ≡ ok parsed
    → (length (checksum_record d path) ≤ max_checksum_bytes)
      × (parse_sha256_sum (checksum_record d path) path ≡ ok d)
record-parses d path parsed v k e =
    let (shape, k', f, bound) = parse_sound (checksum_record d path) path parsed e in
    (bound, parse_complete path d k (valid_abs_path-IsField path v) bound)

format_sound :
    (d path rec : Bytes)
    → format_sha256_sum d path ≡ ok rec
    → (valid_abs_path path ≡ none)
      × IsDigest d
      × (length rec ≤ max_checksum_bytes)
      × (rec ≡ checksum_record d path)
      × (parse_sha256_sum rec path ≡ ok d)
unfolding format_sha256_sum
format_sound d path rec h =
    let (v, dig, parsed, e, same) = parts in
    let k = (valid_digest_iff d).0 dig in
    let (bound, again) = record-parses d path parsed v k e in rw (← same) (v, k, bound, refl, again)
  where
    parts :
        (valid_abs_path path ≡ none)
        × (valid_digest d ≡ none)
        × (parsed : Bytes) × (parse_sha256_sum (checksum_record d path) path ≡ ok parsed)
        × (checksum_record d path ≡ rec)
    parts =
        unfold format_sha256_sum in
        elim (ok_or_err (parse_sha256_sum (checksum_record d path) path)) [
          | inl (parsed, e) ↦
              (ground (arith, h), ground (arith, h), parsed, e, ground (arith, h, e))
          | inr (x, e) ↦ absurd (ground (arith, h, e))
        ]

-- The formatter writes a record just when the path is a valid operator path, the digest is 64
-- lowercase hex digits and the record fits the limit: its own check of the record refuses nothing
-- more. The bytes are then the canonical record.
pub format_sha256_sum_iff :
    (d path rec : Bytes)
    → (format_sha256_sum d path ≡ ok rec) ↔ (
        (valid_abs_path path ≡ none)
        × IsDigest d
        × (length rec ≤ max_checksum_bytes)
        × (rec ≡ checksum_record d path))
unfolding format_sha256_sum
format_sha256_sum_iff d path rec = (
  λ h. let (v, k, bound, shape, again) = format_sound d path rec h in (v, k, bound, shape),
  λ (v, k, bound, shape).
      let fits = subst (λ x. length x ≤ max_checksum_bytes) shape bound in
      let again : parse_sha256_sum (checksum_record d path) path ≡ ok d =
        parse_complete path d k (valid_abs_path-IsField path v) fits in
      rw (v, (valid_digest_iff d).1 k, again, format_sha256_sum) (ap ok (sym shape)),
)
