-- ===== src/Core/Writes/Edits.antt =====
-- The writes that name the revision they start from: what they edit, and that the revision rises.
use codex_commons.Prelude.{
  ◌≡◌, ◌≢◌, ◌<◌, refl, ap, ◌∙◌, ℕ, suc, String, true, none, some, Option, arith, inl, inr,
}
use codex_commons.Prelude.Int.{ℤ, pos, eqb_ℤ}
use codex_commons.Prelude.Table.{lookup, lookup-put}
use codex_commons.Prelude.Tests.{Option-cases, str_eq_refl}
use codex_commons.Prelude.Results.{ok, err}
use codex_commons.Core.Types.{
  Core, Draw, Written, ProjectRow, MilestoneRow, TaskRow, UpdateProject, UpdateMilestone,
  UpdateTask, ChangeTaskState, returned, conflict,
}
use codex_commons.Core.Rows.{bump_project_revision, map_err}
use codex_commons.Core.Projects.{update_project, update_milestone}
use codex_commons.Core.Tasks.{update_task, change_task_state}
use codex_commons.Core.Commands.{
  Command, project_create, project_update, milestone_create, milestone_update, task_create,
  task_update, task_state, wiki_append, execute,
}
use codex_commons.Core.Effects.Revisions.{revision_at}
use codex_commons.Core.Effects.Projects.{described, projects-update}
use codex_commons.Core.Effects.Milestones as M
use codex_commons.Core.Effects.Tasks.{updated, moved, put_here, update_puts, move_puts}
use codex_commons.Core.Invariant.{IsSound, TasksBehind, MilestonesBehind}

pub data Target : Type 0 where
  project milestone task : String → Target

-- What a command edits, and the revision that it starts from.
unfoldable pub edits : Command → Option (Target × ℤ)
edits (project_update c) = some (project c.id, c.base_revision)
edits (milestone_update c) = some (milestone c.id, c.base_revision)
edits (task_update c) = some (task c.id, c.base_revision)
edits (task_state c) = some (task c.id, c.base_revision)
edits (project_create c) = none
edits (milestone_create c) = none
edits (task_create c) = none
edits (wiki_append c) = none

unfoldable pub revision_in : Target → Core → Option ℕ
revision_in (project id) core = elim (lookup id core.projects) [
  | none ↦ none
  | some row ↦ some (ProjectRow.revision row)
]
revision_in (milestone id) core = elim (lookup id core.milestones) [
  | none ↦ none
  | some row ↦ some (MilestoneRow.project_revision row)
]
revision_in (task id) core = elim (lookup id core.tasks) [
  | none ↦ none
  | some row ↦ some (TaskRow.project_revision row)
]

-- An edit that goes through started from the revision of its target, and leaves a later one.
pub record IsRaised (core core2 : Core) (t : Target) (base : ℤ) : Type 0 where
  pub old : ℕ
  pub new : ℕ
  pub from : revision_in t core ≡ some old
  pub to : revision_in t core2 ≡ some new
  pub named : base ≡ pos old
  pub rises : old < new

named_revision : (n : ℕ) (base : ℤ) → eqb_ℤ (pos n) base ≡ true → base ≡ pos n
named_revision n base h = ground arith

project-IsRaised :
    (d : Draw) (c : UpdateProject) (core core2 : Core) (w : Written)
    → update_project d c core ≡ ok (core2, w)
    → IsRaised core core2 (project c.id) c.base_revision
unfolding update_project map_err revision_in described
project-IsRaised d c core core2 w h = elim (Option-cases (lookup c.id core.projects)) [
  | inl missing ↦ absurd (ground arith)
  | inr (row, at) ↦
      let now : lookup c.id core2.projects ≡ some (described d c row) =
        ap (lookup c.id) (projects-update d c core core2 w row h at)
        ∙ lookup-put c.id c.id (described d c row) core.projects
        ∙ rw (str_eq_refl c.id) refl in
      record {
        old = row.revision;
        new = suc row.revision;
        from = rw (at, revision_in) refl;
        to = rw (now, revision_in) refl;
        named = named_revision row.revision c.base_revision (ground arith);
        rises = omega arith;
      }
]

milestone-IsRaised :
    (d : Draw) (c : UpdateMilestone) (core core2 : Core) (w : Written)
    → update_milestone d c core ≡ ok (core2, w)
    → MilestonesBehind core
    → IsRaised core core2 (milestone c.id) c.base_revision
unfolding update_milestone bump_project_revision map_err revision_in MilestonesBehind M.updated
milestone-IsRaised d c core core2 w h behind = elim (Option-cases (lookup c.id core.milestones)) [
  | inl missing ↦ absurd (ground arith)
  | inr (old, stood) ↦ elim (Option-cases (lookup old.project_id core.projects)) [
    | inl missing ↦ absurd (ground arith)
    | inr (row, at) ↦
        let now : lookup c.id core2.milestones ≡ some (M.updated d c row.revision old) =
          ap (lookup c.id) (M.update_puts_milestone d c core core2 w old row h stood at)
          ∙ lookup-put c.id c.id (M.updated d c row.revision old) core.milestones
          ∙ rw (str_eq_refl c.id) refl in
        record {
          old = old.project_revision;
          new = suc row.revision;
          from = rw (stood, revision_in) refl;
          to = rw (now, revision_in) refl;
          named = named_revision old.project_revision c.base_revision (ground arith);
          rises = omega (arith, behind c.id old stood, revision_at core old.project_id row at);
        }
  ]
]

task-IsRaised :
    (d : Draw) (c : UpdateTask) (core core2 : Core) (w : Written)
    → update_task d c core ≡ ok (core2, w)
    → TasksBehind core
    → IsRaised core core2 (task c.id) c.base_revision
unfolding update_task bump_project_revision map_err revision_in TasksBehind updated
task-IsRaised d c core core2 w h behind = elim (Option-cases (lookup c.id core.tasks)) [
  | inl missing ↦ absurd (ground arith)
  | inr (old, stood) ↦ elim (Option-cases (lookup old.project_id core.projects)) [
    | inl missing ↦ absurd (ground arith)
    | inr (row, at) ↦
        let now =
          put_here core2 c.id (updated d c row.revision old) core.tasks
            (update_puts d c core core2 w old row h stood at) in
        record {
          old = old.project_revision;
          new = suc row.revision;
          from = rw (stood, revision_in) refl;
          to = rw (now, revision_in) refl;
          named = named_revision old.project_revision c.base_revision (ground arith);
          rises = omega (arith, behind c.id old stood, revision_at core old.project_id row at);
        }
  ]
]

state-IsRaised :
    (d : Draw) (c : ChangeTaskState) (core core2 : Core) (w : Written)
    → change_task_state d c core ≡ ok (core2, w)
    → TasksBehind core
    → IsRaised core core2 (task c.id) c.base_revision
unfolding change_task_state bump_project_revision map_err revision_in TasksBehind moved
state-IsRaised d c core core2 w h behind = elim (Option-cases (lookup c.id core.tasks)) [
  | inl missing ↦ absurd (ground arith)
  | inr (old, stood) ↦ elim (Option-cases (lookup old.project_id core.projects)) [
    | inl missing ↦ absurd (ground arith)
    | inr (row, at) ↦
        let now =
          put_here core2 c.id (moved d c row.revision old) core.tasks
            (move_puts d c core core2 w old row h stood at) in
        record {
          old = old.project_revision;
          new = suc row.revision;
          from = rw (stood, revision_in) refl;
          to = rw (now, revision_in) refl;
          named = named_revision old.project_revision c.base_revision (ground arith);
          rises = omega (arith, behind c.id old stood, revision_at core old.project_id row at);
        }
  ]
]

pub edit-IsRaised :
    (d : Draw) (c : Command) (core core2 : Core) (w : Written) (t : Target) (base : ℤ)
    → edits c ≡ some (t, base)
    → execute d c core ≡ ok (core2, w)
    → IsSound core
    → IsRaised core core2 t base
unfolding edits execute
edit-IsRaised d (project_create c) core core2 w t base e h s = absurd (cc e)
edit-IsRaised d (project_update c) core core2 w t base e h s =
    ground (arith, project-IsRaised d c core core2 w h)
edit-IsRaised d (milestone_create c) core core2 w t base e h s = absurd (cc e)
edit-IsRaised d (milestone_update c) core core2 w t base e h s =
    ground (arith, milestone-IsRaised d c core core2 w h s.milestones_behind)
edit-IsRaised d (task_create c) core core2 w t base e h s = absurd (cc e)
edit-IsRaised d (task_update c) core core2 w t base e h s =
    ground (arith, task-IsRaised d c core core2 w h s.tasks_behind)
edit-IsRaised d (task_state c) core core2 w t base e h s =
    ground (arith, state-IsRaised d c core core2 w h s.tasks_behind)
edit-IsRaised d (wiki_append c) core core2 w t base e h s = absurd (cc e)

-- An edit that starts from another revision than its target has is a conflict.
pub stale_edit :
    (d : Draw) (c : Command) (core : Core) (t : Target) (base : ℤ) (n : ℕ)
    → edits c ≡ some (t, base)
    → revision_in t core ≡ some n
    → base ≢ pos n
    → execute d c core ≡ err (returned conflict)
unfolding edits execute revision_in update_project update_milestone update_task change_task_state
stale_edit d (project_create c) core t base n e at stale = absurd (cc e)
stale_edit d (project_update c) core t base n e at stale = ground (arith, named_revision n base)
stale_edit d (milestone_create c) core t base n e at stale = absurd (cc e)
stale_edit d (milestone_update c) core t base n e at stale = ground (arith, named_revision n base)
stale_edit d (task_create c) core t base n e at stale = absurd (cc e)
stale_edit d (task_update c) core t base n e at stale = ground (arith, named_revision n base)
stale_edit d (task_state c) core t base n e at stale = ground (arith, named_revision n base)
stale_edit d (wiki_append c) core t base n e at stale = absurd (cc e)
