-- ===== src/Core/Commands.antt =====
-- How each write of internal/store/project_core_write.go tests its command before it opens a
-- transaction, what it takes the fingerprint of, and which transaction it runs.
use codex_commons.Prelude.{String, Bool, true, false, Option, none, some, ◌&&◌, ◌||◌, not}
use codex_commons.Prelude.Tests.{str_eq, if◌then◌else◌}
use codex_commons.Prelude.Lists.{contains}
use codex_commons.Prelude.Int.{ℤ, pos, negsuc, ltb_ℤ, zero_ℤ}
use codex_commons.Archaeology.StableIds.{bounded_text}
use codex_commons.Tasks.{CoreWriteMeta, valid_core_meta, task_states}
use codex_commons.Core.Types.{
  Stops, Core, Draw, Written, CreateProject, UpdateProject, CreateMilestone, UpdateMilestone,
  CreateTask, UpdateTask, ChangeTaskState, AppendWikiRevision,
}
use codex_commons.Core.Values.{
  is_project_id, is_wiki_slug, project_write_statuses, milestone_statuses, valid_target_date,
  within,
}
use codex_commons.Core.Relations.{normalize_dependency_ids}
use codex_commons.Core.Projects.{create_project, update_project, create_milestone, update_milestone}
use codex_commons.Core.Tasks.{create_task, update_task, change_task_state}
use codex_commons.Core.Wiki.{append_wiki_revision}

pub data Command : Type 0 where
  project_create : CreateProject → Command
  project_update : UpdateProject → Command
  milestone_create : CreateMilestone → Command
  milestone_update : UpdateMilestone → Command
  task_create : CreateTask → Command
  task_update : UpdateTask → Command
  task_state : ChangeTaskState → Command
  wiki_append : AppendWikiRevision → Command

abbrev not_negative : ℤ → Bool
not_negative n = not (ltb_ℤ n zero_ℤ)

or_default : String → String → String
or_default default value = if str_eq value "" then default else value

unfoldable pub valid_project_create : CreateProject → Bool
valid_project_create c =
    is_project_id c.id
    && not (str_eq c.id "general")
    && bounded_text c.name 200 true
    && contains project_write_statuses c.status
    && bounded_text c.purpose 4000 true
    && bounded_text c.now_text 4000 false
    && valid_core_meta c.meta

unfoldable pub valid_project_update : UpdateProject → Bool
valid_project_update c =
    bounded_text c.id 200 true
    && bounded_text c.name 200 true
    && contains project_write_statuses c.status
    && bounded_text c.purpose 4000 true
    && bounded_text c.now_text 4000 false
    && not_negative c.base_revision
    && valid_core_meta c.meta

unfoldable pub valid_milestone_create : CreateMilestone → Bool
valid_milestone_create c =
    bounded_text c.project_id 200 true
    && bounded_text c.title 300 true
    && contains milestone_statuses c.status
    && within zero_ℤ (pos 100000) c.position
    && valid_target_date c.target_date
    && valid_core_meta c.meta

unfoldable pub valid_milestone_update : UpdateMilestone → Bool
valid_milestone_update c =
    bounded_text c.id 200 true
    && bounded_text c.title 300 true
    && contains milestone_statuses c.status
    && within zero_ℤ (pos 100000) c.position
    && valid_target_date c.target_date
    && not_negative c.base_revision
    && valid_core_meta c.meta

unfoldable pub valid_task_create : CreateTask → Bool
valid_task_create c =
    bounded_text c.project_id 200 true
    && bounded_text c.title 300 true
    && bounded_text c.description 12000 false
    && bounded_text c.acceptance 4000 false
    && (str_eq c.state "ready" || str_eq c.state "blocked")
    && within (negsuc 999) (pos 1000) c.priority
    && bounded_text c.milestone_id 200 false
    && valid_core_meta c.meta

unfoldable pub valid_task_update : UpdateTask → Bool
valid_task_update c =
    bounded_text c.id 200 true
    && bounded_text c.title 300 true
    && bounded_text c.description 12000 false
    && bounded_text c.acceptance 4000 false
    && within (negsuc 999) (pos 1000) c.priority
    && bounded_text c.milestone_id 200 false
    && not_negative c.base_revision
    && valid_core_meta c.meta

unfoldable pub valid_task_state : ChangeTaskState → Bool
valid_task_state c =
    bounded_text c.id 200 true
    && contains task_states c.state
    && bounded_text c.basis 2000 true
    && not_negative c.base_revision
    && valid_core_meta c.meta

unfoldable pub valid_wiki_append : AppendWikiRevision → Bool
valid_wiki_append c =
    bounded_text c.project_id 200 true
    && is_wiki_slug c.slug
    && bounded_text c.title 300 true
    && bounded_text c.summary 1000 true
    && bounded_text c.body 24000 true
    && not_negative c.base_revision
    && valid_core_meta c.meta

abbrev when_valid : Bool → Command → Option Command
when_valid valid c = if valid then some c else none

-- The tests in front of each write, with the default status or state and the sorted dependencies.
unfoldable pub prepare : Command → Option Command
unfolding or_default
prepare (project_create c) =
    let c2 : CreateProject = record c { status = or_default "active" c.status } in
    when_valid (valid_project_create c2) (project_create c2)
prepare (project_update c) = when_valid (valid_project_update c) (project_update c)
prepare (milestone_create c) = when_valid (valid_milestone_create c) (milestone_create c)
prepare (milestone_update c) = when_valid (valid_milestone_update c) (milestone_update c)
prepare (task_create c) = elim (normalize_dependency_ids c.dependency_ids) [
  | none ↦ none
  | some ids ↦
      let c2 : CreateTask = record c { state = or_default "ready" c.state; dependency_ids = ids } in
      when_valid (valid_task_create c2) (task_create c2)
]
prepare (task_update c) = elim (normalize_dependency_ids c.dependency_ids) [
  | none ↦ none
  | some ids ↦
      let c2 : UpdateTask = record c { dependency_ids = ids } in
      when_valid (valid_task_update c2) (task_update c2)
]
prepare (task_state c) = when_valid (valid_task_state c) (task_state c)
prepare (wiki_append c) = when_valid (valid_wiki_append c) (wiki_append c)

unfoldable pub operation : Command → String
operation (project_create c) = "project.create"
operation (project_update c) = "project.update"
operation (milestone_create c) = "milestone.create"
operation (milestone_update c) = "milestone.update"
operation (task_create c) = "task.create"
operation (task_update c) = "task.update"
operation (task_state c) = "task.state"
operation (wiki_append c) = "wiki.append"

abbrev pub meta_of : Command → CoreWriteMeta
meta_of (project_create c) = c.meta
meta_of (project_update c) = c.meta
meta_of (milestone_create c) = c.meta
meta_of (milestone_update c) = c.meta
meta_of (task_create c) = c.meta
meta_of (task_update c) = c.meta
meta_of (task_state c) = c.meta
meta_of (wiki_append c) = c.meta

abbrev no_meta : CoreWriteMeta
no_meta = record { actor_id = ""; session_id = ""; request_id = "" }

-- The fields that the fingerprint is taken of: all but the actor, the session and the request.
unfoldable pub payload : Command → Command
payload (project_create c) = project_create (record c { meta = no_meta })
payload (project_update c) = project_update (record c { meta = no_meta })
payload (milestone_create c) = milestone_create (record c { meta = no_meta })
payload (milestone_update c) = milestone_update (record c { meta = no_meta })
payload (task_create c) = task_create (record c { meta = no_meta })
payload (task_update c) = task_update (record c { meta = no_meta })
payload (task_state c) = task_state (record c { meta = no_meta })
payload (wiki_append c) = wiki_append (record c { meta = no_meta })

-- The transaction of a write, between the replay tests and the record.
unfoldable pub execute : Draw → Command → Core → Stops (Core × Written)
execute d (project_create c) core = create_project d c core
execute d (project_update c) core = update_project d c core
execute d (milestone_create c) core = create_milestone d c core
execute d (milestone_update c) core = update_milestone d c core
execute d (task_create c) core = create_task d c core
execute d (task_update c) core = update_task d c core
execute d (task_state c) core = change_task_state d c core
execute d (wiki_append c) core = append_wiki_revision d c core
