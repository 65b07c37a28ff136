-- ===== src/Core/Tasks.antt =====
-- The transactions of CreateCanonicalTask, UpdateCanonicalTask and ChangeCanonicalTaskState in
-- internal/store/project_core_write.go, between the replay tests and the record.
use codex_commons.Prelude.{ℕ, String, Bool, true, false, ◌&&◌, ◌||◌}
use codex_commons.Prelude.Tests.{str_eq, if◌then◌else◌}
use codex_commons.Prelude.Table.{lookup, remove}
use codex_commons.Prelude.Int.{ℤ, pos, eqb_ℤ}
use codex_commons.Prelude.Results.{ok, ◌>>=◌, ◌>>◌, require, found}
use codex_commons.Tasks.{task_transition_allowed}
use codex_commons.Core.Types.{
  Stops, conflict, not_found, Core, Draw, Written, TaskRow, CreateTask, UpdateTask, ChangeTaskState,
}
use codex_commons.Core.Relations.{validate_task_relations}
use codex_commons.Core.Rows.{
  directly, mapped, with_recheck, insert_row, update_row, bump_project_revision, insert_core_change,
  insert_core_activity, insert_task_event, insert_dependencies, delete_dependencies,
}

-- `command` has its state and its sorted dependencies already.
unfoldable pub create_task : Draw → CreateTask → Core → Stops (Core × Written)
create_task d command core = do
  directly (
      validate_task_relations core command.project_id d.object_id command.milestone_id
        command.dependency_ids false)
  (bumped, revision) ← directly (bump_project_revision core command.project_id d.now)
  tasks ← with_recheck (
      insert_row d.object_id
        (record {
          project_id = command.project_id;
          state = command.state;
          title = command.title;
          priority = command.priority;
          owner_session_id = "";
          accept_text = command.acceptance;
          description = command.description;
          milestone_id = command.milestone_id;
          project_revision = revision;
          updated_at = d.now;
        })
        bumped.tasks)
  dependencies ← mapped (insert_dependencies d.object_id command.dependency_ids bumped.dependencies)
  noted ← directly (
      insert_task_event d.event_id d.object_id command.project_id revision "created" "Task created"
        "" command.state command.meta d.now
        (record bumped { tasks = tasks; dependencies = dependencies }))
  changed ← directly (
      insert_core_change command.project_id revision "task_created" d.object_id command.title d.now
        noted)
  told ← directly (
      insert_core_activity d.activity_id "task_status_changed" command.project_id
        command.meta.actor_id d.object_id command.title "created" d.now changed)
  ok (told, record { id = d.object_id; revision = revision; project_revision = revision })

describe_task : UpdateTask → ℕ → ℤ → TaskRow → TaskRow
describe_task command revision now row = record row {
  title = command.title;
  description = command.description;
  accept_text = command.acceptance;
  priority = command.priority;
  milestone_id = command.milestone_id;
  project_revision = revision;
  updated_at = now;
}

unfoldable pub update_task : Draw → UpdateTask → Core → Stops (Core × Written)
unfolding describe_task
update_task d command core = do
  row ← mapped (found (lookup command.id core.tasks) not_found)
  directly (require (eqb_ℤ (pos (TaskRow.project_revision row)) command.base_revision) conflict)
  directly (
      validate_task_relations core row.project_id command.id command.milestone_id
        command.dependency_ids true)
  (bumped, revision) ← directly (bump_project_revision core row.project_id d.now)
  dependencies ← mapped (
      insert_dependencies command.id command.dependency_ids
        (delete_dependencies command.id bumped.dependencies))
  noted ← directly (
      insert_task_event d.event_id command.id row.project_id revision "updated"
        "Task details updated" row.state row.state command.meta d.now
        (record bumped {
          tasks = update_row command.id (describe_task command revision d.now) bumped.tasks;
          dependencies = dependencies;
        }))
  changed ← directly (
      insert_core_change row.project_id revision "task_updated" command.id command.title d.now
        noted)
  told ← directly (
      insert_core_activity d.activity_id "task_status_changed" row.project_id command.meta.actor_id
        command.id command.title "updated" d.now changed)
  ok (told, record { id = command.id; revision = revision; project_revision = revision })

move_task : ChangeTaskState → ℕ → ℤ → TaskRow → TaskRow
move_task command revision now row = record row {
  state = command.state;
  project_revision = revision;
  updated_at = now;
  owner_session_id = if str_eq command.state "ready" then "" else row.owner_session_id;
}

abbrev ends_claim : String → Bool
ends_claim state = str_eq state "ready" || str_eq state "done" || str_eq state "cancelled"

unfoldable pub change_task_state : Draw → ChangeTaskState → Core → Stops (Core × Written)
unfolding move_task
change_task_state d command core = do
  row ← mapped (found (lookup command.id core.tasks) not_found)
  directly (
      require
        (eqb_ℤ (pos (TaskRow.project_revision row)) command.base_revision
          && task_transition_allowed row.state command.state)
        conflict)
  (bumped, revision) ← directly (bump_project_revision core row.project_id d.now)
  noted ← directly (
      insert_task_event d.event_id command.id row.project_id revision "state_changed" command.basis
        row.state command.state command.meta d.now
        (record bumped {
          tasks = update_row command.id (move_task command revision d.now) bumped.tasks;
          current_claims =
              if ends_claim command.state
              then remove command.id bumped.current_claims
              else bumped.current_claims;
        }))
  changed ← directly (
      insert_core_change row.project_id revision "task_state_changed" command.id command.state d.now
        noted)
  told ← directly (
      insert_core_activity d.activity_id "task_status_changed" row.project_id command.meta.actor_id
        command.id row.title command.state d.now changed)
  ok (told, record { id = command.id; revision = revision; project_revision = revision })
