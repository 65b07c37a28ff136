-- ===== src/Core/Invariant/Empty.antt =====
-- The tables of the project core before any write.
use codex_commons.Prelude.{String, [], arith}
use codex_commons.Prelude.Table.{lookup}
use codex_commons.Core.Types.{Core}
use codex_commons.Core.Rows.{has_dependency}
use codex_commons.Core.Relations.Reachable.{DependsOn, directly_on, through}
use codex_commons.Core.Relations.Acyclic.{Acyclic}
use codex_commons.Core.Effects.{revision_of}
use codex_commons.Core.Invariant.{
  IsSound, TasksBehind, MilestonesBehind, TasksFit, DependenciesWithin, Logged, OneActive,
}

abbrev pub no_core : Core
no_core = record {
  projects = [];
  topics = [];
  milestones = [];
  tasks = [];
  dependencies = [];
  current_claims = [];
  task_events = [];
  changes = [];
  activities = [];
  pages = [];
  wiki_revisions = [];
  search_documents = [];
}

no_dependency : (u v : String) → DependsOn [] u v → ⊥
unfolding has_dependency
no_dependency u v (directly_on e) = cc e
no_dependency u v (through p e) = cc e

pub no_core-IsSound : IsSound no_core
unfolding TasksBehind MilestonesBehind TasksFit DependenciesWithin Acyclic Logged OneActive lookup
    has_dependency revision_of
no_core-IsSound = record {
  tasks_behind = λ id row at. absurd (cc at);
  milestones_behind = λ id row at. absurd (cc at);
  tasks_fit = λ id row at. absurd (cc at);
  within = λ u v e. absurd (cc e);
  acyclic = λ id p. no_dependency id id p;
  logged = λ id k low high. absurd (omega (arith, low, high));
  one_active = λ i j a b ati atj sa sb same. absurd (cc ati);
}
