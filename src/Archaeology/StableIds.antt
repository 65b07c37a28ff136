-- ===== src/Archaeology/StableIds.antt =====
-- Which texts and identifiers a native report may hold: boundedCoreText, the patterns, and the tests
-- on stable ids of internal/store/project_archaeology_policy.go.
use Prim.Native.String
use Prim.Native.Char.{Char, code}
use codex_commons.Prelude.{ℕ, String, len, Bool, true, false, List, [], ◌∷◌, ◌&&◌, ◌||◌, not}
use codex_commons.Prelude.Tests.{leb, ltb, ◌==◌, str_eq, if◌then◌else◌}
use codex_commons.Prelude.Text.{trim_space, to_lower, all_chars}
use codex_commons.Prelude.Int.{ℤ, pos, ◌+ℤ◌, ltb_ℤ, eqb_ℤ, zero_ℤ}
use codex_commons.Archaeology.Types.{Source, ExecutionPolicy, allows}
use codex_commons.Archaeology.Texts.{
  has_prefix, behind_prefix, has_suffix, contains_text, contains_any,
}

-- boundedCoreText. A String is valid UTF-8.
unfoldable pub bounded_text : String → ℕ → Bool → Bool
bounded_text value max required =
    if ltb max (len value) || not (all_chars (λ c. not (c == 0)) value)
    then false
    else not (required && str_eq (trim_space value) "")

abbrev is_digit : ℕ → Bool
is_digit c = leb 0x30 c && leb c 0x39

abbrev is_lower : ℕ → Bool
is_lower c = leb 0x61 c && leb c 0x7a

abbrev is_upper : ℕ → Bool
is_upper c = leb 0x41 c && leb c 0x5a

abbrev is_hex : ℕ → Bool
is_hex c = is_digit c || leb 0x61 c && leb c 0x66

-- [a-z0-9][a-z0-9._-]*
abbrev is_key_char : ℕ → Bool
is_key_char c = is_lower c || is_digit c || c == 0x2e || c == 0x5f || c == 0x2d

abbrev first_passes : (ℕ → Bool) → String → Bool
first_passes p String.[] = false
first_passes p (String.◌∷◌ c s) = p (code c)

-- historicalKeyPattern
unfoldable pub is_key : String → Bool
is_key s =
    first_passes (λ c. is_lower c || is_digit c) s && all_chars is_key_char s && leb (len s) 64

-- historicalDigestPattern
unfoldable pub is_digest : String → Bool
is_digest s =
    has_prefix s "sha256:"
    && all_chars is_hex (behind_prefix s "sha256:")
    && len (behind_prefix s "sha256:") == 64

abbrev is_object : String → String → Bool
is_object s kind =
    has_prefix s kind
    && all_chars is_hex (behind_prefix s kind)
    && (len (behind_prefix s kind) == 40 || len (behind_prefix s kind) == 64)

-- nativeGitObjectID
unfoldable pub is_git_object : String → Bool
is_git_object s =
    is_object s "commit:" || is_object s "tree:" || is_object s "blob:" || is_object s "tag:"

abbrev is_alphanumeric : ℕ → Bool
is_alphanumeric c = is_lower c || is_upper c || is_digit c

abbrev is_codex : String → String → Bool
is_codex s kind =
    let rest = behind_prefix s kind in
    has_prefix s kind
    && first_passes is_alphanumeric rest
    && all_chars (λ c. is_alphanumeric c || c == 0x5f || c == 0x2d) rest
    && leb 8 (len rest)
    && leb (len rest) 120

-- nativeCodexID
unfoldable pub is_codex_id : String → Bool
is_codex_id s = is_codex s "task:" || is_codex s "thread:"

-- unicode.IsControl
abbrev is_control : ℕ → Bool
is_control c = ltb c 0x20 || leb 0x7f c && leb c 0x9f

abbrev forbidden_texts : List String
forbidden_texts =
    "/home/" ∷ "\\\\" ∷ "prompt" ∷ "transcript" ∷ "secret" ∷ "private" ∷ "credential" ∷ "password"
    ∷ "token" ∷ ".env" ∷ "id_rsa" ∷ "id_ed25519" ∷ []

-- opaqueNativeStableID
unfoldable pub opaque_stable_id : String → Bool
unfolding bounded_text
opaque_stable_id value =
    if not (bounded_text value 300 true) || not (str_eq (trim_space value) value)
    then false
    else if not (all_chars (λ c. not (is_control c)) value)
    then false
    else not (contains_any (to_lower value) forbidden_texts)

-- strings.Split(s, "/").
abbrev lengthen : Char → List String → List String
lengthen c [] = String.◌∷◌ c String.[] ∷ []
lengthen c (p ∷ ps) = String.◌∷◌ c p ∷ ps

unfoldable pub segments : String → List String
segments String.[] = "" ∷ []
segments (String.◌∷◌ c s) =
    let rest = segments s in if code c == 0x2f then "" ∷ rest else lengthen c rest

abbrev hidden_or_empty : String → Bool
hidden_or_empty segment =
    str_eq segment "" || str_eq segment "." || str_eq segment ".." || has_prefix segment "."

abbrev is_ref_char : ℕ → Bool
is_ref_char c =
    is_lower c || is_upper c || is_digit c || c == 0x2d || c == 0x5f || c == 0x2e || c == 0x2b

abbrev valid_ref_segment : String → Bool
valid_ref_segment segment =
    if hidden_or_empty segment || has_suffix segment ".lock"
    then false
    else all_chars is_ref_char segment

unfoldable pub every : (String → Bool) → List String → Bool
every p [] = true
every p (x ∷ xs) = p x && every p xs

-- validNativeGitRef
unfoldable pub valid_git_ref : String → Bool
valid_git_ref value =
    let ref = behind_prefix value "ref:" in
    if not (has_prefix value "ref:refs/")
    then false
    else if contains_text ref ".."
        || contains_text ref "@{"
        || contains_text ref "//"
        || has_suffix ref "/"
        || has_suffix ref "."
        || has_suffix ref ".lock"
    then false
    else every valid_ref_segment (segments ref)

-- path.Clean of a path that does not begin with a slash: the elements that are kept, the last first.
clean_elements : List String → List String → List String
clean_elements kept [] = kept
clean_elements [] (p ∷ ps) =
    let skip = clean_elements [] ps in
    let push = clean_elements (p ∷ []) ps in if str_eq p "" || str_eq p "." then skip else push
clean_elements (k ∷ kept) (p ∷ ps) =
    let skip = clean_elements (k ∷ kept) ps in
    let push = clean_elements (p ∷ k ∷ kept) ps in
    let pop = clean_elements kept ps in
    if str_eq p "" || str_eq p "."
    then skip
    else if str_eq p ".." && not (str_eq k "..")
    then pop
    else push

join_reversed : String → List String → String
join_reversed behind [] = behind
join_reversed behind (p ∷ ps) = join_reversed (String.◌++◌ p (String.◌++◌ "/" behind)) ps

abbrev join_clean : List String → String
join_clean [] = "."
join_clean (p ∷ ps) = join_reversed p ps

unfoldable pub clean_relative : String → String
unfolding clean_elements join_reversed
clean_relative value = join_clean (clean_elements [] (segments value))

-- validNativeDocumentPath
unfoldable pub valid_document_path : String → Bool
valid_document_path value =
    if not (opaque_stable_id value)
      || has_prefix value "/"
      || has_prefix value "~"
      || contains_text value ":"
      || not (str_eq (clean_relative value) value)
      || str_eq value "."
    then false
    else every (λ segment. not (hidden_or_empty segment)) (segments value)

-- validNativeStableID
unfoldable pub valid_stable_id : String → String → Bool
valid_stable_id kind value =
    if not (opaque_stable_id value)
    then false
    else if str_eq kind "git"
    then is_git_object value || valid_git_ref value
    else if str_eq kind "docs"
    then valid_document_path value
    else if str_eq kind "codex_history"
    then is_codex_id value
    else false

-- validHistoricalSource: five minutes, in nanoseconds.
unfoldable pub valid_historical_source : Source → ℤ → Bool
valid_historical_source s now =
    bounded_text s.kind 40 true
    && bounded_text s.stable_id 300 true
    && is_digest s.digest
    && not (eqb_ℤ s.occurred_at zero_ℤ)
    && not (ltb_ℤ (now +ℤ pos 300000000000) s.occurred_at)

-- validNativeSource
unfoldable pub valid_source : ExecutionPolicy → ℤ → Source → Bool
valid_source policy now s =
    allows policy s.kind && valid_stable_id s.kind s.stable_id && valid_historical_source s now
