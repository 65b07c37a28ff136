-- ===== src/Core/Effects/Execute.antt =====
-- Every write of the project core has an effect of the shape of Effect.
use codex_commons.Prelude.{◌≡◌, ℕ, String, arith, inl, inr}
use codex_commons.Prelude.Table.{lookup}
use codex_commons.Prelude.Tests.{Option-cases}
use codex_commons.Prelude.Results.{ok, ok_or_err}
use codex_commons.Core.Types.{
  Core, Draw, Written, UpdateProject, CreateMilestone, UpdateMilestone, CreateTask, UpdateTask,
  ChangeTaskState, AppendWikiRevision,
}
use codex_commons.Core.Rows.{bump_project_revision, map_err}
use codex_commons.Core.Projects.{update_project, create_milestone, update_milestone}
use codex_commons.Core.Tasks.{create_task, update_task, change_task_state}
use codex_commons.Core.Wiki.{append_wiki_revision, find_page}
use codex_commons.Core.Commands.{
  Command, project_create, project_update, milestone_create, milestone_update, task_create,
  task_update, task_state, wiki_append, execute,
}
use codex_commons.Core.Effects.{Effect}
use codex_commons.Core.Effects.Projects.{create_project-Effect, update_project-Effect}
use codex_commons.Core.Effects.Milestones.{create_milestone-Effect, update_milestone-Effect}
use codex_commons.Core.Effects.Tasks.{
  create_task-Effect, update_task-Effect, change_task_state-Effect,
}
use codex_commons.Core.Effects.Wiki.{append_wiki_revision-Effect}

abbrev pub SomeEffect : Core → Core → Type 0
SomeEffect core core2 = (project : String) × (n : ℕ) × Effect core core2 project n

update_project-SomeEffect :
    (d : Draw) (c : UpdateProject) (core core2 : Core) (w : Written)
    → update_project d c core ≡ ok (core2, w)
    → SomeEffect core core2
unfolding update_project map_err
update_project-SomeEffect d c core core2 w h = elim (Option-cases (lookup c.id core.projects)) [
  | inl missing ↦ absurd (ground arith)
  | inr (row, e) ↦ (c.id, row.revision, update_project-Effect d c core core2 w row h e)
]

create_milestone-SomeEffect :
    (d : Draw) (c : CreateMilestone) (core core2 : Core) (w : Written)
    → create_milestone d c core ≡ ok (core2, w)
    → SomeEffect core core2
unfolding create_milestone bump_project_revision
create_milestone-SomeEffect d c core core2 w h =
    elim (Option-cases (lookup c.project_id core.projects)) [
      | inl missing ↦ absurd (ground arith)
      | inr (row, e) ↦
          (c.project_id, row.revision, create_milestone-Effect d c core core2 w row h e)
    ]

update_milestone-SomeEffect :
    (d : Draw) (c : UpdateMilestone) (core core2 : Core) (w : Written)
    → update_milestone d c core ≡ ok (core2, w)
    → SomeEffect core core2
unfolding update_milestone bump_project_revision map_err
update_milestone-SomeEffect d c core core2 w h = elim (Option-cases (lookup c.id core.milestones)) [
  | inl missing ↦ absurd (ground arith)
  | inr (old, stood) ↦ elim (Option-cases (lookup old.project_id core.projects)) [
    | inl missing ↦ absurd (ground arith)
    | inr (row, e) ↦
        (old.project_id, row.revision, update_milestone-Effect d c core core2 w old row h stood e)
  ]
]

create_task-SomeEffect :
    (d : Draw) (c : CreateTask) (core core2 : Core) (w : Written)
    → create_task d c core ≡ ok (core2, w)
    → SomeEffect core core2
unfolding create_task bump_project_revision
create_task-SomeEffect d c core core2 w h =
    elim (Option-cases (lookup c.project_id core.projects)) [
      | inl missing ↦ absurd (ground arith)
      | inr (row, e) ↦ (c.project_id, row.revision, create_task-Effect d c core core2 w row h e)
    ]

update_task-SomeEffect :
    (d : Draw) (c : UpdateTask) (core core2 : Core) (w : Written)
    → update_task d c core ≡ ok (core2, w)
    → SomeEffect core core2
unfolding update_task bump_project_revision map_err
update_task-SomeEffect d c core core2 w h = elim (Option-cases (lookup c.id core.tasks)) [
  | inl missing ↦ absurd (ground arith)
  | inr (old, stood) ↦ elim (Option-cases (lookup old.project_id core.projects)) [
    | inl missing ↦ absurd (ground arith)
    | inr (row, e) ↦
        (old.project_id, row.revision, update_task-Effect d c core core2 w old row h stood e)
  ]
]

change_task_state-SomeEffect :
    (d : Draw) (c : ChangeTaskState) (core core2 : Core) (w : Written)
    → change_task_state d c core ≡ ok (core2, w)
    → SomeEffect core core2
unfolding change_task_state bump_project_revision map_err
change_task_state-SomeEffect d c core core2 w h = elim (Option-cases (lookup c.id core.tasks)) [
  | inl missing ↦ absurd (ground arith)
  | inr (old, stood) ↦ elim (Option-cases (lookup old.project_id core.projects)) [
    | inl missing ↦ absurd (ground arith)
    | inr (row, e) ↦
        (old.project_id, row.revision, change_task_state-Effect d c core core2 w old row h stood e)
  ]
]

append_wiki_revision-SomeEffect :
    (d : Draw) (c : AppendWikiRevision) (core core2 : Core) (w : Written)
    → append_wiki_revision d c core ≡ ok (core2, w)
    → SomeEffect core core2
unfolding append_wiki_revision bump_project_revision
append_wiki_revision-SomeEffect d c core core2 w h = elim (ok_or_err (find_page d c core)) [
  | inr (problem, e) ↦ absurd (ground arith)
  | inl ((id, current), found) ↦ elim (Option-cases (lookup c.project_id core.projects)) [
    | inl missing ↦ absurd (ground arith)
    | inr (row, e) ↦ (
      c.project_id,
      row.revision,
      append_wiki_revision-Effect d c core core2 w row id current h found e,
    )
  ]
]

pub execute-SomeEffect :
    (d : Draw) (c : Command) (core core2 : Core) (w : Written)
    → execute d c core ≡ ok (core2, w)
    → SomeEffect core core2
unfolding execute
execute-SomeEffect d (project_create c) core core2 w h =
    (c.id, 0, create_project-Effect d c core core2 w h)
execute-SomeEffect d (project_update c) core core2 w h =
    update_project-SomeEffect d c core core2 w h
execute-SomeEffect d (milestone_create c) core core2 w h =
    create_milestone-SomeEffect d c core core2 w h
execute-SomeEffect d (milestone_update c) core core2 w h =
    update_milestone-SomeEffect d c core core2 w h
execute-SomeEffect d (task_create c) core core2 w h = create_task-SomeEffect d c core core2 w h
execute-SomeEffect d (task_update c) core core2 w h = update_task-SomeEffect d c core core2 w h
execute-SomeEffect d (task_state c) core core2 w h = change_task_state-SomeEffect d c core core2 w h
execute-SomeEffect d (wiki_append c) core core2 w h =
    append_wiki_revision-SomeEffect d c core core2 w h
