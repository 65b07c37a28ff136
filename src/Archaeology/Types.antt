-- ===== src/Archaeology/Types.antt =====
-- Policies, limits, proposals and outcomes of internal/domain/project_archaeology.go and
-- internal/store/project_archaeology_policy.go. A time is its distance in nanoseconds from Go's zero.
use codex_commons.Prelude.{ℕ, String, Bool, false, Option, none, some, List, not, ◌&&◌}
use codex_commons.Prelude.Tests.{str_eq, if◌then◌else◌}
use codex_commons.Prelude.Int.{ℤ}

pub record ArchaeologySources : Type 0 where
  pub git : Bool
  pub docs : Bool
  pub codex_history : Bool

pub record ExecutionPolicy : Type 0 where
  pub depth : String
  pub sources : ArchaeologySources

pub record ExecutionLimits : Type 0 where
  pub max_outcomes : ℕ
  pub max_provenance_per_outcome : ℕ
  pub max_contributors_per_outcome : ℕ
  pub max_historical_aliases : ℕ
  pub max_historical_tasks : ℕ
  pub max_sources_examined : ℕ

-- Limits of an ArchaeologyExecutionPolicy.
unfoldable pub limits_of : ExecutionPolicy → Option ExecutionLimits
limits_of p =
    if not p.sources.git && not p.sources.docs && not p.sources.codex_history
    then none
    else if str_eq p.depth "quick"
    then some (record {
      max_outcomes = 2;
      max_provenance_per_outcome = 4;
      max_contributors_per_outcome = 1;
      max_historical_aliases = 2;
      max_historical_tasks = 2;
      max_sources_examined = 50;
    })
    else if str_eq p.depth "standard"
    then some (record {
      max_outcomes = 2;
      max_provenance_per_outcome = 4;
      max_contributors_per_outcome = 1;
      max_historical_aliases = 3;
      max_historical_tasks = 3;
      max_sources_examined = 250;
    })
    else if str_eq p.depth "deep"
    then some (record {
      max_outcomes = 2;
      max_provenance_per_outcome = 4;
      max_contributors_per_outcome = 1;
      max_historical_aliases = 3;
      max_historical_tasks = 4;
      max_sources_examined = 1000;
    })
    else none

unfoldable pub allows : ExecutionPolicy → String → Bool
allows p kind =
    if str_eq kind "git"
    then p.sources.git
    else if str_eq kind "docs"
    then p.sources.docs
    else if str_eq kind "codex_history"
    then p.sources.codex_history
    else false

-- nativeProposalSource, ArchaeologyProvenance and HistoricalSource have the same four fields.
pub record Source : Type 0 where
  pub kind : String
  pub stable_id : String
  pub digest : String
  pub occurred_at : ℤ

pub record ProposalAlias : Type 0 where
  pub alias : String
  pub session : String
  pub source : Source

pub record ProposalAttribution : Type 0 where
  pub session : String
  pub role : String
  pub confidence : String
  pub source : Source

pub record ProposalEvent : Type 0 where
  pub key : String
  pub kind : String
  pub session : String
  pub confidence : String
  pub source : Source

pub record ProposalTask : Type 0 where
  pub key : String
  pub source : Source
  pub attributions : List ProposalAttribution
  pub events : List ProposalEvent

pub record Proposal : Type 0 where
  pub schema_version : ℤ
  pub batch_id : String
  pub source_digest : String
  pub collision_policy : String
  pub project_thread_aliases : List ProposalAlias
  pub tasks : List ProposalTask

pub record Contributor : Type 0 where
  pub session_id : String
  pub contribution : String
  pub demonstrated_strength : String
  pub uncertainty : String
  pub confidence : String

pub record Outcome : Type 0 where
  pub id : String
  pub title : String
  pub summary : String
  pub project_id : String
  pub source_count : ℤ
  pub provenance : List Source
  pub contributors : List Contributor
  pub proposal_json : String
