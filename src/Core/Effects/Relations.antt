-- ===== src/Core/Effects/Relations.antt =====
-- What validateTaskRelations has established when it answers without an error.
use codex_commons.Prelude.{◌≡◌, ◌⊎◌, String, Bool, true, none, some, List, inl, inr, arith}
use codex_commons.Prelude.Tests.{str_eq, str_eq_iff, Bool-cases, Option-cases}
use codex_commons.Prelude.Table.{lookup}
use codex_commons.Prelude.Lists.{contains}
use codex_commons.Prelude.Results.{ok}
use codex_commons.Core.Types.{Core, MilestoneRow, TaskRow}
use codex_commons.Core.Relations.{valid_milestone, check_dependencies, validate_task_relations}
use codex_commons.Core.Relations.Acyclic.{check_dependencies-IsAllowed}
use codex_commons.Core.Effects.{MilestoneFits, IsNewDependency}

module _ (core : Core) (project task milestone : String) (ids : List String) (check_cycle : Bool)
    (valid : validate_task_relations core project task milestone ids check_cycle ≡ ok tt) where
  milestone_passes : valid_milestone core project milestone ≡ ok tt
  unfolding validate_task_relations
  milestone_passes = ground arith

  dependencies_pass : check_dependencies core project task check_cycle ids ≡ ok tt
  unfolding validate_task_relations
  dependencies_pass = ground arith

  pub validated-MilestoneFits : MilestoneFits core project milestone
  unfolding MilestoneFits valid_milestone
  validated-MilestoneFits = elim (Bool-cases (str_eq milestone "")) [
    | inl e ↦ inl ((str_eq_iff milestone "").0 e)
    | inr n ↦ elim (Option-cases (lookup milestone core.milestones)) [
      | inl missing ↦ absurd (ground (arith, milestone_passes))
      | inr (row, e) ↦ inr (
        row,
        e,
        (str_eq_iff (MilestoneRow.project_id row) project).0 (ground (arith, milestone_passes)),
      )
    ]
  ]

  pub validated-IsNewDependency :
      (core2 : Core) (id : String) (holder : TaskRow)
      → lookup task core2.tasks ≡ some holder
      → holder.project_id ≡ project
      → (lookup task core.tasks ≡ none) ⊎ (check_cycle ≡ true)
      → contains ids id ≡ true
      → IsNewDependency core core2 project task id
  validated-IsNewDependency core2 id holder holds same fresh k =
      let allowed =
        check_dependencies-IsAllowed core project task check_cycle ids id dependencies_pass k in
      record {
        holder = holder;
        holds = holds;
        holder_project = same;
        row = allowed.row;
        stands = allowed.stands;
        same_project = allowed.same_project;
        distinct = allowed.other;
        no_cycle = elim fresh [ inl new ↦ inl new | inr c ↦ inr (allowed.no_cycle c) ];
      }
