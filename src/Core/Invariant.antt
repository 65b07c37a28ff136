-- ===== src/Core/Invariant.antt =====
-- What holds of the tables of the project core after any of its writes.
pub mod Growth
pub mod Preserved
pub mod Milestones
pub mod Empty
use codex_commons.Prelude.{◌≡◌, ◌≤◌, ℕ, suc, String, Bool, true, none, some, Option}
use codex_commons.Prelude.Table.{lookup}
use codex_commons.Core.Types.{Core, MilestoneRow, TaskRow}
use codex_commons.Core.Rows.{has_change, has_dependency}
use codex_commons.Core.Relations.Acyclic.{Acyclic}
use codex_commons.Core.Effects.{revision_of, MilestoneFits}

-- At most one milestone of a project is active.
pub OneActive : Core → Type 0
OneActive core =
    (i j : String) (a b : MilestoneRow)
    → lookup i core.milestones ≡ some a
    → lookup j core.milestones ≡ some b
    → a.status ≡ "active"
    → b.status ≡ "active"
    → a.project_id ≡ b.project_id
    → i ≡ j

-- No task and no milestone is ahead of its project.
unfoldable pub TasksBehind : Core → Type 0
TasksBehind core =
    (id : String) (row : TaskRow)
    → lookup id core.tasks ≡ some row
    → row.project_revision ≤ revision_of row.project_id core

unfoldable pub MilestonesBehind : Core → Type 0
MilestonesBehind core =
    (id : String) (row : MilestoneRow)
    → lookup id core.milestones ≡ some row
    → row.project_revision ≤ revision_of row.project_id core

-- The milestone of a task is one of its project.
pub TasksFit : Core → Type 0
TasksFit core =
    (id : String) (row : TaskRow)
    → lookup id core.tasks ≡ some row
    → MilestoneFits core row.project_id row.milestone_id

-- A dependency is between two tasks of one project.
pub DependenciesWithin : Core → Type 0
DependenciesWithin core =
    (u v : String)
    → has_dependency u v core.dependencies ≡ true
    → (a : TaskRow) × (b : TaskRow) × (lookup u core.tasks ≡ some a)
      × (lookup v core.tasks ≡ some b)
      × (a.project_id ≡ b.project_id)

-- Every revision of a project has its row among the changes.
pub Logged : Core → Type 0
Logged core =
    (id : String) (k : ℕ) → 1 ≤ k → k ≤ revision_of id core → has_change id k core.changes ≡ true

pub record IsSound (core : Core) : Type 0 where
  pub tasks_behind : TasksBehind core
  pub milestones_behind : MilestonesBehind core
  pub tasks_fit : TasksFit core
  pub within : DependenciesWithin core
  pub acyclic : Acyclic core.dependencies
  pub logged : Logged core
  pub one_active : OneActive core
