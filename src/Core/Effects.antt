-- ===== src/Core/Effects.antt =====
-- What a write of the project core does to the tables, whichever it is: the shape that the invariant
-- and the histories are proved from.
pub mod Revisions
pub mod Relations
pub mod Projects
pub mod Milestones
pub mod Tasks
pub mod Wiki
pub mod Execute
use codex_commons.Prelude.{◌≡◌, ◌≢◌, ◌⊎◌, ℕ, suc, String, Bool, true, none, some, Option, List, ◌∷◌}
use codex_commons.Prelude.Tests.{str_eq, if◌then◌else◌}
use codex_commons.Prelude.Table.{Table, lookup, put}
use codex_commons.Tasks.{task_transition_allowed}
use codex_commons.Core.Types.{Core, ProjectRow, MilestoneRow, TaskRow, ChangeRow}
use codex_commons.Core.Rows.{keeps_one_active, has_dependency}
use codex_commons.Core.Relations.Reachable.{DependsOn}

-- The revision of a project, and 0 where there is none.
unfoldable pub revision_of : String → Core → ℕ
revision_of id core = elim (lookup id core.projects) [
  | none ↦ 0
  | some row ↦ ProjectRow.revision row
]

-- A task names no milestone, or one of its project.
unfoldable pub MilestoneFits : Core → String → String → Type 0
MilestoneFits core project id =
    (id ≡ "")
    ⊎ ((row : MilestoneRow) × (lookup id core.milestones ≡ some row) × (row.project_id ≡ project))

-- What a write may make of a task that was there.
pub record IsSuccessor (core : Core) (project : String) (id : String) (row : TaskRow) : Type 0 where
  pub old : TaskRow
  pub stood : lookup id core.tasks ≡ some old
  pub same_project : old.project_id ≡ project
  pub moved : (row.state ≡ old.state) ⊎ (task_transition_allowed old.state row.state ≡ true)
  pub fits : (row.milestone_id ≡ old.milestone_id) ⊎ MilestoneFits core project row.milestone_id

pub record PutsTask (core core2 : Core) (project : String) (n : ℕ) : Type 0 where
  pub id : String
  pub row : TaskRow
  pub table : core2.tasks ≡ put id row core.tasks
  pub in_project : row.project_id ≡ project
  pub at_revision : row.project_revision ≡ suc n
  pub source :
      ((lookup id core.tasks ≡ none) × MilestoneFits core project row.milestone_id)
      ⊎ IsSuccessor core project id row

pub record PutsMilestone (core core2 : Core) (project : String) (n : ℕ) : Type 0 where
  pub id : String
  pub row : MilestoneRow
  pub table : core2.milestones ≡ put id row core.milestones
  pub in_project : row.project_id ≡ project
  pub at_revision : row.project_revision ≡ suc n
  pub one_active : keeps_one_active id row core.milestones ≡ true
  pub source :
      (lookup id core.milestones ≡ none)
      ⊎ ((old : MilestoneRow) × (lookup id core.milestones ≡ some old) × (old.project_id ≡ project))

-- A dependency that one write adds to a task.
pub record IsNewDependency (core core2 : Core) (project task other : String) : Type 0 where
  pub holder : TaskRow
  pub holds : lookup task core2.tasks ≡ some holder
  pub holder_project : holder.project_id ≡ project
  pub row : TaskRow
  pub stands : lookup other core.tasks ≡ some row
  pub same_project : row.project_id ≡ project
  pub distinct : other ≢ task
  pub no_cycle : (lookup task core.tasks ≡ none) ⊎ (¬ DependsOn core.dependencies other task)

pub record Effect (core core2 : Core) (project : String) (n : ℕ) : Type 0 where
  pub before : revision_of project core ≡ n
  pub revisions :
      (id : String)
      → revision_of id core2 ≡ (if str_eq project id then suc n else revision_of id core)
  pub change : ChangeRow
  pub logged : core2.changes ≡ change ∷ core.changes
  pub of_project : change.project_id ≡ project
  pub of_revision : change.revision ≡ suc n
  pub tasks : (core2.tasks ≡ core.tasks) ⊎ PutsTask core core2 project n
  pub milestones : (core2.milestones ≡ core.milestones) ⊎ PutsMilestone core core2 project n
  pub task : String
  pub dependencies :
      (u v : String)
      → has_dependency u v core2.dependencies ≡ true
      → (has_dependency u v core.dependencies ≡ true)
        ⊎ ((u ≡ task) × IsNewDependency core core2 project task v)
