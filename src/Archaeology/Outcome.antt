-- ===== src/Archaeology/Outcome.antt =====
-- validArchaeologyOutcome of internal/store/project_archaeology_runner.go, and validNativeOutcome of
-- internal/store/project_archaeology_policy.go.
pub mod Admission
use codex_commons.Prelude.{
  ℕ, String, len, Bool, true, false, Option, none, some, List, [], ◌∷◌, ◌&&◌, ◌||◌, not, map,
}
use codex_commons.Prelude.Tests.{leb, ltb, ◌==◌, str_eq, if◌then◌else◌}
use codex_commons.Prelude.Lists.{length, contains}
use codex_commons.Prelude.Text.{trim_space, to_lower}
use codex_commons.Prelude.Int.{ℤ, pos, ltb_ℤ}
use codex_commons.Archaeology.Types.{
  ExecutionPolicy, ExecutionLimits, Source, Proposal, Contributor, Outcome, allows,
}
use codex_commons.Archaeology.Texts.{has_prefix, contains_any}
use codex_commons.Archaeology.StableIds.{bounded_text, valid_stable_id, valid_historical_source}
use codex_commons.Archaeology.Proposal.{
  historical_confidences, same_evidence, Census, check_proposal,
}

-- json.Valid, and json.Unmarshal into a proposal.
pub record Json : Type 0 where
  pub valid : String → Bool
  pub proposal : String → Option Proposal

abbrev private_fields : List String
private_fields =
    "\"prompt\"" ∷ "\"reasoning\"" ∷ "\"transcript\"" ∷ "\"secret\"" ∷ "\"private_data\"" ∷ []

unfoldable pub malformed_outcome : Json → Outcome → Bool
malformed_outcome json o =
    not (bounded_text o.id 120 false)
    || not (bounded_text o.project_id 120 true)
    || not (bounded_text o.title 300 true)
    || not (bounded_text o.summary 4000 true)
    || ltb_ℤ o.source_count (pos 1)
    || ltb_ℤ (pos 1000) o.source_count
    || ltb (length o.provenance) 1
    || ltb 100 (length o.provenance)
    || ltb_ℤ o.source_count (pos (length o.provenance))
    || ltb 100 (length o.contributors)
    || ltb 32768 (len o.proposal_json)
    || not (json.valid o.proposal_json)
    || not (has_prefix (trim_space o.proposal_json) "{")

-- `provenanceKey`, which leaves the time out.
abbrev same_provenance : Source → Source → Bool
same_provenance s t =
    str_eq s.kind t.kind && str_eq s.stable_id t.stable_id && str_eq s.digest t.digest

unfoldable pub has_provenance : List Source → Source → Bool
has_provenance [] s = false
has_provenance (t ∷ ts) s = same_provenance t s || has_provenance ts s

-- The two loops, with the sources and the members seen.
unfoldable pub check_provenance : ℤ → List Source → List Source → Bool
check_provenance now seen [] = true
check_provenance now seen (s ∷ ss) =
    let rest = check_provenance now (s ∷ seen) ss in
    if not (str_eq s.kind "git")
      && not (str_eq s.kind "docs")
      && not (str_eq s.kind "codex_history")
    then false
    else if not (valid_historical_source s now) || has_provenance seen s
    then false
    else rest

unfoldable pub check_contributors : List String → List Contributor → Bool
check_contributors seen [] = true
check_contributors seen (m ∷ ms) =
    let rest = check_contributors (m.session_id ∷ seen) ms in
    if not (bounded_text m.session_id 200 true)
      || not (bounded_text m.contribution 1000 true)
      || not (bounded_text m.demonstrated_strength 300 false)
      || not (bounded_text m.uncertainty 500 false)
      || not (contains historical_confidences m.confidence)
      || contains seen m.session_id
    then false
    else rest

unfoldable pub valid_archaeology_outcome : Json → ℤ → Outcome → Bool
valid_archaeology_outcome json now o =
    if malformed_outcome json o
    then false
    else if contains_any (to_lower o.proposal_json) private_fields
    then false
    else check_provenance now [] o.provenance && check_contributors [] o.contributors

-- `delete(proposalEvidence, key)`.
unfoldable pub delete_evidence : Source → List Source → List Source
delete_evidence s [] = []
delete_evidence s (t ∷ ts) =
    let rest = delete_evidence s ts in if same_evidence t s then rest else t ∷ rest

-- The loop over the provenance: what is left of the evidence, unless a source is not allowed.
unfoldable pub cite_sources : ExecutionPolicy → List Source → List Source → Option (List Source)
unfolding delete_evidence
cite_sources policy [] evidence = some evidence
cite_sources policy (s ∷ ss) evidence =
    let rest = cite_sources policy ss (delete_evidence s evidence) in
    if not (allows policy s.kind) || not (valid_stable_id s.kind s.stable_id) then none else rest

abbrev pub is_empty : List Source → Bool
is_empty [] = true
is_empty (s ∷ ss) = false

unfoldable pub all_known : List String → List Contributor → Bool
all_known sessions [] = true
all_known sessions (m ∷ ms) = contains sessions m.session_id && all_known sessions ms

-- The tests of validNativeOutcome behind the proposal.
unfoldable pub check_citations : ExecutionPolicy → Outcome → Census → Bool
unfolding cite_sources all_known
check_citations policy o c = elim (cite_sources policy o.provenance c.evidence) [
  | none ↦ false
  | some left ↦ is_empty left && all_known c.sessions o.contributors
]

unfoldable pub valid_native_outcome : Json → ExecutionPolicy → ExecutionLimits → ℤ → Outcome → Bool
unfolding check_citations
valid_native_outcome json policy limits now o =
    if not (valid_archaeology_outcome json now o)
      || ltb_ℤ (pos limits.max_sources_examined) o.source_count
      || ltb limits.max_provenance_per_outcome (length o.provenance)
      || ltb limits.max_contributors_per_outcome (length o.contributors)
    then false
    else elim (json.proposal o.proposal_json) [
      | none ↦ false
      | some p ↦ elim (check_proposal policy now limits p) [
        | none ↦ false
        | some c ↦ check_citations policy o c
      ]
    ]
