-- ===== src/Archaeology/Examples.antt =====
-- A test of the admission of native outcomes, and its theorem at that input.
use codex_commons.Prelude.{◌≡◌, true, false, some, [], ◌∷◌, refl}
use codex_commons.Prelude.Tests.{str_eq}
use codex_commons.Prelude.Text.{trim_space, to_lower, all_chars}
use codex_commons.Prelude.Int.{pos, ◌+ℤ◌}
use codex_commons.Archaeology.Types.{
  ExecutionPolicy, ExecutionLimits, Source, Proposal, Outcome, allows,
}
use codex_commons.Archaeology.Texts.{
  has_prefix, behind_prefix, has_suffix, contains_text, contains_any,
}
use codex_commons.Archaeology.StableIds.{
  bounded_text, is_key, is_digest, opaque_stable_id, valid_stable_id, valid_historical_source,
  valid_source, is_git_object,
}
use codex_commons.Archaeology.Proposal.{
  same_evidence, check_each, check_alias, check_task, check_attribution, check_event,
  malformed_proposal, check_proposal,
}
use codex_commons.Archaeology.Outcome.{
  Json, malformed_outcome, check_provenance, has_provenance, check_contributors,
  valid_archaeology_outcome, delete_evidence, cite_sources, check_citations, all_known,
  valid_native_outcome,
}
use codex_commons.Archaeology.Outcome.Admission.{IsAdmitted, valid_native_outcome-IsAdmitted}

abbrev policy : ExecutionPolicy
policy = record {
  depth = "quick";
  sources = record { git = true; docs = false; codex_history = false };
}

abbrev limits : ExecutionLimits
limits = record {
  max_outcomes = 2;
  max_provenance_per_outcome = 4;
  max_contributors_per_outcome = 1;
  max_historical_aliases = 2;
  max_historical_tasks = 2;
  max_sources_examined = 50;
}

abbrev commit : Source
commit = record {
  kind = "git";
  stable_id = "commit:0123456789abcdef0123456789abcdef01234567";
  digest = "sha256:0123456789abcdef0123456789abcdef0123456789abcdef0123456789abcdef";
  occurred_at = pos 7;
}

abbrev proposal : Proposal
proposal = record {
  schema_version = pos 1;
  batch_id = "batch-1";
  source_digest = "sha256:0123456789abcdef0123456789abcdef0123456789abcdef0123456789abcdef";
  collision_policy = "current_wins";
  project_thread_aliases = [];
  tasks =
      record {
        key = "task-1";
        source = commit;
        attributions =
            record {
              session = "S-1";
              role = "implementer";
              confidence = "verified";
              source = commit;
            }
            ∷ [];
        events = [];
      }
      ∷ [];
}

abbrev json : Json
json = record { valid = λ s. true; proposal = λ s. some proposal }

abbrev outcome : Outcome
outcome = record {
  id = "";
  title = "Leases";
  summary = "One run holds a job.";
  project_id = "commons";
  source_count = pos 1;
  provenance = commit ∷ [];
  contributors =
      record {
        session_id = "S-1";
        contribution = "Wrote it.";
        demonstrated_strength = "";
        uncertainty = "";
        confidence = "verified";
      }
      ∷ [];
  proposal_json = "{}";
}

admits : valid_native_outcome json policy limits (pos 9) outcome ≡ true
unfolding valid_native_outcome check_citations all_known cite_sources delete_evidence
    valid_archaeology_outcome check_contributors check_provenance has_provenance malformed_outcome
    check_proposal malformed_proposal check_task check_attribution check_event check_alias
    check_each same_evidence valid_source valid_historical_source valid_stable_id opaque_stable_id
    is_git_object is_digest is_key bounded_text has_prefix behind_prefix has_suffix contains_text
    contains_any allows trim_space to_lower all_chars str_eq ◌+ℤ◌
admits = refl

valid_native_outcome-IsAdmitted_example :
    (p : Proposal) × (json.proposal outcome.proposal_json ≡ some p)
    × IsAdmitted policy limits outcome p
valid_native_outcome-IsAdmitted_example =
    valid_native_outcome-IsAdmitted json policy limits (pos 9) outcome admits
