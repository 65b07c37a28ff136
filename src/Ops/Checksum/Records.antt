-- ===== src/Ops/Checksum/Records.antt =====
-- The checksum files that ParseSHA256Sum accepts are the canonical records, and nothing else.
use mathlib.Core.List.{append_assoc}
use codex_commons.Prelude.{
  ℕ, ◌+◌, ◌≤◌, ◌≡◌, ◌↔◌, true, false, Option, none, some, [], ◌∷◌, ◌++◌, refl, sym, ap, ◌∙◌, subst,
  inl, inr, arith,
}
use codex_commons.Prelude.Tests.{Bool-cases, Option-cases, ◌==◌}
use codex_commons.Prelude.Lists.{length, length-append}
use codex_commons.Prelude.Bytes.{
  Bytes, bytes_eq_iff, all_bytes, has_byte, count_byte, has_byte-append, count_byte-append,
  count_byte-zero, has_byte-all_bytes,
}
use codex_commons.Prelude.Results.{ok}
use codex_commons.Ops.Types.{max_checksum_bytes}
use codex_commons.Ops.Checksum.{
  is_hex, valid_digest, strip_newline, after_space, longer, cut_two_spaces, check_fields,
  check_line, parse_sha256_sum, checksum_record,
}

pub record IsDigest (d : Bytes) : Type 0 where
  pub digits : length d ≡ 64
  pub hex : all_bytes is_hex d ≡ true

-- A path without the bytes that end a field or a line.
pub record IsField (path : Bytes) : Type 0 where
  pub nul : has_byte 0 path ≡ false
  pub newline : has_byte b'\n' path ≡ false
  pub carriage : has_byte b'\r' path ≡ false
  pub space : has_byte b' ' path ≡ false
  pub tab : has_byte b'\t' path ≡ false

pub valid_digest_iff : (d : Bytes) → (valid_digest d ≡ none) ↔ IsDigest d
unfolding valid_digest
valid_digest_iff d = (λ h. ground arith, λ h. ground arith)

digest-free : (d : Bytes) (b : ℕ) → IsDigest d → is_hex b ≡ false → has_byte b d ≡ false
digest-free d b h n = has_byte-all_bytes b is_hex d n h.hex

strip_newline_sound : (s line : Bytes) → strip_newline s ≡ some line → s ≡ line ++ b'\n' ∷ []
unfolding strip_newline
strip_newline_sound [] line h = cc
strip_newline_sound (c ∷ []) line h = ground (arith, h)
strip_newline_sound (c ∷ d ∷ s) line h = elim (Option-cases (strip_newline (d ∷ s))) [
  | inl e ↦ absurd (cc (rw e at h))
  | inr (l, e) ↦
      let same : c ∷ l ≡ line = cc (rw e at h) in
      rw (← same) (ap (λ t. c ∷ t) (strip_newline_sound (d ∷ s) l e))
]

strip_newline-append : (line : Bytes) → strip_newline (line ++ b'\n' ∷ []) ≡ some line
unfolding strip_newline
strip_newline-append [] = refl
strip_newline-append (c ∷ []) = refl
strip_newline-append (c ∷ d ∷ s) = rw (strip_newline-append (d ∷ s))

after_space_sound : (s rest : Bytes) → after_space s ≡ some rest → s ≡ b' ' ∷ rest
after_space_sound [] rest h = cc
after_space_sound (c ∷ s) rest h = ground (arith, h)

longer_sound :
    (c : ℕ) (o : Option (Bytes × Bytes)) (before after : Bytes)
    → longer c o ≡ some (before, after)
    → (front : Bytes) × (o ≡ some (front, after)) × (before ≡ c ∷ front)
longer_sound c none before after h = absurd (cc h)
longer_sound c (some (front, rest)) before after h = (front, cc h, cc h)

cut-other :
    (c : ℕ) (s : Bytes) → (c == b' ') ≡ false → cut_two_spaces (c ∷ s) ≡ longer c (cut_two_spaces s)
unfolding cut_two_spaces
cut-other c s h = elim (Option-cases (after_space s)) [
  | inl e ↦ rw (e, cut_two_spaces)
  | inr (rest, e) ↦ rw (e, cut_two_spaces, h)
]

cut-hit :
    (c : ℕ) (s rest : Bytes)
    → (c == b' ') ≡ true
    → s ≡ b' ' ∷ rest
    → cut_two_spaces (c ∷ s) ≡ some ([], rest)
unfolding cut_two_spaces
cut-hit c s rest h e = rw e h'
  where
    h' : cut_two_spaces (c ∷ b' ' ∷ rest) ≡ some ([], rest)
    h' = unfold cut_two_spaces in rw h

cut-miss :
    (c : ℕ) (s : Bytes)
    → after_space s ≡ none
    → cut_two_spaces (c ∷ s) ≡ longer c (cut_two_spaces s)
unfolding cut_two_spaces
cut-miss c s e = rw (e, cut_two_spaces)

module _ (c : ℕ) (s before after : Bytes) where
  cut-further :
      ((front : Bytes) → cut_two_spaces s ≡ some (front, after) → s ≡ front ++ b' ' ∷ b' ' ∷ after)
      → longer c (cut_two_spaces s) ≡ some (before, after)
      → c ∷ s ≡ before ++ b' ' ∷ b' ' ∷ after
  cut-further ih k =
      let (front, e, b) = longer_sound c (cut_two_spaces s) before after k in
      rw b (ap (λ t. c ∷ t) (ih front e))

  cut-here :
      (rest : Bytes)
      → (c == b' ') ≡ true
      → s ≡ b' ' ∷ rest
      → cut_two_spaces (c ∷ s) ≡ some (before, after)
      → c ∷ s ≡ before ++ b' ' ∷ b' ' ∷ after
  cut-here rest space e k =
      let c_eq : c ≡ b' ' = ground (arith, space) in
      let hit = sym (cut-hit c s rest space e) ∙ k in
      let b : [] ≡ before = cc hit in let a : rest ≡ after = cc hit in rw (← b, ← a, c_eq, e)

cut_sound :
    (s before after : Bytes)
    → cut_two_spaces s ≡ some (before, after)
    → s ≡ before ++ b' ' ∷ b' ' ∷ after
cut_sound [] before after h = unfold cut_two_spaces in cc h
cut_sound (c ∷ s) before after h =
    let ih = λ (front : Bytes). cut_sound s front after in
    elim (Option-cases (after_space s)) [
      | inl e ↦ cut-further c s before after ih (sym (cut-miss c s e) ∙ h)
      | inr (rest, e) ↦ elim (Bool-cases (c == b' ')) [
        | inl space ↦ cut-here c s before after rest space (after_space_sound s rest e) h
        | inr other ↦ cut-further c s before after ih (sym (cut-other c s other) ∙ h)
      ]
    ]

cut_complete :
    (before after : Bytes)
    → has_byte b' ' before ≡ false
    → cut_two_spaces (before ++ b' ' ∷ b' ' ∷ after) ≡ some (before, after)
unfolding has_byte
cut_complete [] after h = unfold cut_two_spaces in refl
cut_complete (c ∷ s) after h =
    cut-other c (s ++ b' ' ∷ b' ' ∷ after) (ground (arith, h))
    ∙ ap (longer c) (cut_complete s after (ground (arith, h)))

fields_iff :
    (path digest rest d : Bytes)
    → (check_fields path (digest, rest) ≡ ok d) ↔ (
        (rest ≡ path)
        × (digest ≡ d)
        × IsDigest d
        × (has_byte b' ' rest ≡ false)
        × (has_byte b'\t' rest ≡ false))
unfolding check_fields
fields_iff path digest rest d = (
  λ h. ground (arith, h, bytes_eq_iff rest path, valid_digest_iff digest),
  λ (r, e, k, space, tab).
      ground (arith, bytes_eq_iff rest path, r, (valid_digest_iff d).1 k, e, space, tab),
)

-- What a digest and the two spaces leave to look at.
has_byte-fields :
    (b : ℕ) (d t : Bytes)
    → (b' ' == b) ≡ false
    → has_byte b d ≡ false
    → has_byte b (d ++ b' ' ∷ b' ' ∷ t) ≡ has_byte b t
unfolding has_byte
has_byte-fields b d t n h = has_byte-append b d (b' ' ∷ b' ' ∷ t) ∙ rw (h, n)

abbrev IsLine : Bytes → Bytes → Bytes → Type 0
IsLine path line d =
    (line ≡ d ++ b' ' ∷ b' ' ∷ path)
    × IsDigest d
    × (has_byte b'\n' path ≡ false)
    × (has_byte b'\r' path ≡ false)
    × (has_byte b' ' path ≡ false)
    × (has_byte b'\t' path ≡ false)

line-newline :
    (path d : Bytes) → IsDigest d → has_byte b'\n' (d ++ b' ' ∷ b' ' ∷ path) ≡ has_byte b'\n' path
unfolding is_hex
line-newline path d k = has_byte-fields b'\n' d path refl (digest-free d b'\n' k refl)

line-carriage :
    (path d : Bytes) → IsDigest d → has_byte b'\r' (d ++ b' ' ∷ b' ' ∷ path) ≡ has_byte b'\r' path
unfolding is_hex
line-carriage path d k = has_byte-fields b'\r' d path refl (digest-free d b'\r' k refl)

check_line_sound : (path line d : Bytes) → check_line path line ≡ ok d → IsLine path line d
unfolding check_line
check_line_sound path line d h = elim (Option-cases (cut_two_spaces line)) [
  | inl e ↦ absurd (ground (arith, rw (e, check_line) at h))
  | inr ((digest, rest), e) ↦
      let h' = rw (e, check_line) at h in
      let fields : check_fields path (digest, rest) ≡ ok d = ground (arith, h') in
      let (r, same, k, space, tab) = (fields_iff path digest rest d).0 fields in
      let shape : line ≡ d ++ b' ' ∷ b' ' ∷ path =
        subst (λ x. line ≡ x ++ b' ' ∷ b' ' ∷ path) same
          (subst (λ x. line ≡ digest ++ b' ' ∷ b' ' ∷ x) r (cut_sound line digest rest e)) in
      let newline : has_byte b'\n' line ≡ false = ground (arith, h') in
      let carriage : has_byte b'\r' line ≡ false = ground (arith, h') in
      (
        shape,
        k,
        sym (line-newline path d k) ∙ subst (λ l. has_byte b'\n' l ≡ false) shape newline,
        sym (line-carriage path d k) ∙ subst (λ l. has_byte b'\r' l ≡ false) shape carriage,
        subst (λ x. has_byte b' ' x ≡ false) r space,
        subst (λ x. has_byte b'\t' x ≡ false) r tab,
      )
]

check_line_complete : (path line d : Bytes) → IsLine path line d → check_line path line ≡ ok d
unfolding check_line is_hex
check_line_complete path line d (shape, k, newline, carriage, space, tab) =
    rw
      (
        shape,
        line-newline path d k,
        newline,
        line-carriage path d k,
        carriage,
        cut_complete d path (digest-free d b' ' k refl),
        check_line,
      )
      ((fields_iff path d path d).1 (refl, refl, k, space, tab))

has_byte-newline_end :
    (b : ℕ) (line : Bytes)
    → (b'\n' == b) ≡ false
    → has_byte b (line ++ b'\n' ∷ []) ≡ has_byte b line
unfolding has_byte
has_byte-newline_end b line n = has_byte-append b line (b'\n' ∷ []) ∙ ground (arith, n)

count_byte-newline_end :
    (line : Bytes) → has_byte b'\n' line ≡ false → count_byte b'\n' (line ++ b'\n' ∷ []) ≡ 1
unfolding count_byte
count_byte-newline_end line h =
    count_byte-append b'\n' line (b'\n' ∷ []) ∙ rw (count_byte-zero b'\n' line h)

record-shape : (d path : Bytes) → checksum_record d path ≡ (d ++ b' ' ∷ b' ' ∷ path) ++ b'\n' ∷ []
record-shape d path = sym (append_assoc d (b' ' ∷ b' ' ∷ path) (b'\n' ∷ []))

pub length-record : (d path : Bytes) → length (checksum_record d path) ≡ length d + length path + 3
length-record d path =
    length-append d (b' ' ∷ b' ' ∷ (path ++ b'\n' ∷ []))
    ∙ omega (arith, length-append path (b'\n' ∷ []))

pub parse_sound :
    (body path d : Bytes)
    → parse_sha256_sum body path ≡ ok d
    → (body ≡ checksum_record d path)
      × IsDigest d
      × IsField path
      × (length body ≤ max_checksum_bytes)
unfolding parse_sha256_sum is_hex
parse_sound body path d h = elim (Option-cases (strip_newline body)) [
  | inl e ↦ absurd (ground (arith, rw (e, parse_sha256_sum) at h))
  | inr (line, e) ↦
      let h' = rw (e, parse_sha256_sum) at h in
      let accepted : check_line path line ≡ ok d = ground (arith, h') in
      let nul : has_byte 0 body ≡ false = ground (arith, h') in
      let (shape, k, newline, carriage, space, tab) = check_line_sound path line d accepted in
      let whole : body ≡ (d ++ b' ' ∷ b' ' ∷ path) ++ b'\n' ∷ [] =
        subst (λ l. body ≡ l ++ b'\n' ∷ []) shape (strip_newline_sound body line e) in
      let no_nul : has_byte 0 path ≡ false =
        sym (has_byte-fields 0 d path refl (digest-free d 0 k refl))
        ∙ sym (has_byte-newline_end 0 (d ++ b' ' ∷ b' ' ∷ path) refl)
        ∙ subst (λ x. has_byte 0 x ≡ false) whole nul in
      (
        whole ∙ sym (record-shape d path),
        k,
        record { nul = no_nul; newline = newline; carriage = carriage; space = space; tab = tab },
        ground (arith, h'),
      )
]

pub parse_complete :
    (path d : Bytes)
    → IsDigest d
    → IsField path
    → length (checksum_record d path) ≤ max_checksum_bytes
    → parse_sha256_sum (checksum_record d path) path ≡ ok d
unfolding parse_sha256_sum is_hex
parse_complete path d k f bound =
    let line = d ++ b' ' ∷ b' ' ∷ path in
    let stripped = ap strip_newline (record-shape d path) ∙ strip_newline-append line in
    let nul =
      ap (has_byte 0) (record-shape d path)
      ∙ has_byte-newline_end 0 line refl
      ∙ has_byte-fields 0 d path refl (digest-free d 0 k refl)
      ∙ f.nul in
    let count =
      ap (count_byte b'\n') (record-shape d path)
      ∙ count_byte-newline_end line (line-newline path d k ∙ f.newline) in
    let accepted =
      check_line_complete path line d (refl, k, f.newline, f.carriage, f.space, f.tab) in
    rw (nul, count, stripped, parse_sha256_sum)
      (ground (arith, accepted, length-record d path, bound))
