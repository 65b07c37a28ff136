-- ===== src/Archaeology/Proposal.antt =====
-- validNativeProposal of internal/store/project_archaeology_policy.go: the sessions and the evidence of
-- a proposal, if it passes every test.
pub mod Evidence
use codex_commons.Prelude.{
  ℕ, suc, ◌+◌, String, Bool, true, false, Option, none, some, List, [], ◌∷◌, ◌&&◌, ◌||◌, not,
}
use codex_commons.Prelude.Tests.{leb, ltb, ◌==◌, str_eq, if◌then◌else◌}
use codex_commons.Prelude.Lists.{length, contains}
use codex_commons.Prelude.Int.{ℤ, pos, eqb_ℤ}
use codex_commons.Archaeology.Types.{
  ExecutionPolicy, ExecutionLimits, Source, ProposalAlias, ProposalAttribution, ProposalEvent,
  ProposalTask, Proposal,
}
use codex_commons.Archaeology.StableIds.{bounded_text, is_key, is_digest, valid_source}

abbrev pub historical_roles : List String
historical_roles = "originator" ∷ "implementer" ∷ "reviewer" ∷ "evaluator" ∷ []

abbrev pub historical_confidences : List String
historical_confidences = "verified" ∷ "supported" ∷ "uncertain" ∷ []

abbrev pub historical_event_kinds : List String
historical_event_kinds =
    "completed" ∷ "reviewed" ∷ "failed" ∷ "retried" ∷ "remediated" ∷ "evaluated" ∷ []

-- Equality of two evidence keys, whose last part is the time of the source.
unfoldable pub same_evidence : Source → Source → Bool
same_evidence s t =
    str_eq s.kind t.kind
    && str_eq s.stable_id t.stable_id
    && str_eq s.digest t.digest
    && eqb_ℤ s.occurred_at t.occurred_at

-- The maps and counts of the loops; the last two are made anew for each task.
pub record Census : Type 0 where
  pub sessions : List String
  pub evidence : List Source
  pub alias_sessions : List String
  pub aliases : List String
  pub task_keys : List String
  pub total_attributions : ℕ
  pub total_events : ℕ
  pub attributed : List String
  pub event_keys : List String

abbrev pub empty_census : Census
empty_census = record {
  sessions = [];
  evidence = [];
  alias_sessions = [];
  aliases = [];
  task_keys = [];
  total_attributions = 0;
  total_events = 0;
  attributed = [];
  event_keys = [];
}

-- A loop that returns at the first element that fails.
unfoldable pub check_each :
    {A : Type 0} → (A → Census → Option Census) → List A → Census → Option Census
check_each step [] c = some c
check_each step (x ∷ xs) c = elim (step x c) [ none ↦ none | some c' ↦ check_each step xs c' ]

module _ (policy : ExecutionPolicy) (now : ℤ) where
  unfoldable pub check_alias : ProposalAlias → Census → Option Census
  check_alias a c =
      if not (is_key a.alias)
        || contains c.aliases a.alias
        || not (bounded_text a.session 200 true)
        || contains c.alias_sessions a.session
        || not (valid_source policy now a.source)
      then none
      else some (record c {
        evidence = a.source ∷ c.evidence;
        aliases = a.alias ∷ c.aliases;
        alias_sessions = a.session ∷ c.alias_sessions;
        sessions = a.session ∷ c.sessions;
      })

  unfoldable pub check_attribution : ProposalAttribution → Census → Option Census
  check_attribution a c =
      if not (bounded_text a.session 200 true)
        || contains c.alias_sessions a.session
        || not (contains historical_roles a.role)
        || not (contains historical_confidences a.confidence)
        || not (valid_source policy now a.source)
      then none
      else some (record c {
        evidence = a.source ∷ c.evidence;
        attributed = a.session ∷ c.attributed;
        sessions = a.session ∷ c.sessions;
      })

  unfoldable pub check_event : ProposalEvent → Census → Option Census
  check_event e c =
      if not (is_key e.key)
        || contains c.event_keys e.key
        || not (contains historical_event_kinds e.kind)
        || not (bounded_text e.session 200 false)
        || contains c.alias_sessions e.session
        || not (str_eq e.session "") && not (contains c.attributed e.session)
        || not (contains historical_confidences e.confidence)
        || not (valid_source policy now e.source)
      then none
      else some (record c {
        evidence = e.source ∷ c.evidence;
        event_keys = e.key ∷ c.event_keys;
        sessions = if str_eq e.session "" then c.sessions else e.session ∷ c.sessions;
      })

  -- The census of a task before its attributions.
  abbrev pub enter_task : ProposalTask → Census → Census
  enter_task t c = record c {
    evidence = t.source ∷ c.evidence;
    task_keys = t.key ∷ c.task_keys;
    total_attributions = c.total_attributions + length t.attributions;
    total_events = c.total_events + length t.events;
    attributed = [];
    event_keys = [];
  }

  unfoldable pub check_task : ProposalTask → Census → Option Census
  unfolding check_attribution check_event
  check_task t c =
      if not (is_key t.key)
        || contains c.task_keys t.key
        || ltb (length t.attributions) 1
        || ltb 2 (length t.attributions)
        || ltb 1 (length t.events)
        || not (valid_source policy now t.source)
      then none
      else if ltb 200 (c.total_attributions + length t.attributions)
          || ltb 500 (c.total_events + length t.events)
      then none
      else elim (check_each check_attribution t.attributions (enter_task t c)) [
        | none ↦ none
        | some c' ↦ check_each check_event t.events c'
      ]

  unfoldable pub malformed_proposal : ExecutionLimits → Proposal → Bool
  malformed_proposal limits p =
      not (eqb_ℤ p.schema_version (pos 1))
      || not (is_key p.batch_id)
      || not (is_digest p.source_digest)
      || not (str_eq p.collision_policy "current_wins")
      || ltb (length p.tasks) 1
      || ltb limits.max_historical_tasks (length p.tasks)
      || ltb limits.max_historical_aliases (length p.project_thread_aliases)

  -- validNativeProposal behind the decoder: the census holds the sessions and the evidence.
  unfoldable pub check_proposal : ExecutionLimits → Proposal → Option Census
  unfolding check_alias check_task malformed_proposal
  check_proposal limits p =
      if malformed_proposal limits p
      then none
      else elim (check_each check_alias p.project_thread_aliases empty_census) [
        | none ↦ none
        | some c ↦ check_each check_task p.tasks c
      ]
