-- ===== src/Core/Projects.antt =====
-- The transactions of CreateCanonicalProject, UpdateCanonicalProject, CreateMilestone and
-- UpdateMilestone in internal/store/project_core_write.go, between the replay tests and the record.
use codex_commons.Prelude.{ℕ, String}
use codex_commons.Prelude.Tests.{str_eq, if◌then◌else◌}
use codex_commons.Prelude.Table.{lookup}
use codex_commons.Prelude.Int.{ℤ, pos, eqb_ℤ}
use codex_commons.Prelude.Results.{ok, ◌>>=◌, ◌>>◌, require, found}
use codex_commons.Core.Types.{
  Stops, conflict, not_found, Core, Draw, Written, ProjectRow, TopicRow, MilestoneRow,
  CreateProject, UpdateProject, CreateMilestone, UpdateMilestone,
}
use codex_commons.Core.Rows.{
  directly, mapped, with_recheck, insert_row, update_row, bump_project_revision, insert_core_change,
  insert_core_activity, insert_milestone, rewrite_milestone,
}

-- `command` has its status already.
unfoldable pub create_project : Draw → CreateProject → Core → Stops (Core × Written)
create_project d command core = do
  projects ← with_recheck (
      insert_row command.id
        (record {
          name = command.name;
          status = command.status;
          purpose = command.purpose;
          now_text = command.now_text;
          revision = 1;
          updated_at = d.now;
        })
        core.projects)
  topics ←
      mapped (
        insert_row command.id (record { project_id = command.id; name = command.name }) core.topics)
  changed ← directly (
      insert_core_change command.id 1 "project_created" command.id command.name d.now
        (record core { projects = projects; topics = topics }))
  told ← directly (
      insert_core_activity d.activity_id "project_updated" command.id command.meta.actor_id
        command.id command.name "created" d.now changed)
  ok (told, record { id = command.id; revision = 1; project_revision = 1 })

rename_topic : String → String → TopicRow → TopicRow
rename_topic id name topic =
    if str_eq topic.project_id id then record topic { name = name } else topic

describe_project : UpdateProject → ProjectRow → ProjectRow
describe_project command row = record row {
  name = command.name;
  status = command.status;
  purpose = command.purpose;
  now_text = command.now_text;
}

unfoldable pub update_project : Draw → UpdateProject → Core → Stops (Core × Written)
unfolding rename_topic describe_project
update_project d command core = do
  row ← mapped (found (lookup command.id core.projects) not_found)
  directly (require (eqb_ℤ (pos (ProjectRow.revision row)) command.base_revision) conflict)
  (bumped, revision) ← directly (bump_project_revision core command.id d.now)
  changed ← directly (
      insert_core_change command.id revision "project_updated" command.id command.name d.now
        (record bumped {
          projects = update_row command.id (describe_project command) bumped.projects;
          topics = update_row command.id (rename_topic command.id command.name) bumped.topics;
        }))
  told ← directly (
      insert_core_activity d.activity_id "project_updated" command.id command.meta.actor_id
        command.id command.name "updated" d.now changed)
  ok (told, record { id = command.id; revision = revision; project_revision = revision })

unfoldable pub create_milestone : Draw → CreateMilestone → Core → Stops (Core × Written)
create_milestone d command core = do
  (bumped, revision) ← directly (bump_project_revision core command.project_id d.now)
  added ← with_recheck (
      insert_milestone d.object_id
        (record {
          project_id = command.project_id;
          title = command.title;
          status = command.status;
          position = command.position;
          target_date = command.target_date;
          project_revision = revision;
          updated_at = d.now;
        })
        bumped)
  changed ← directly (
      insert_core_change command.project_id revision "milestone_created" d.object_id command.title
        d.now added)
  told ← directly (
      insert_core_activity d.activity_id "project_updated" command.project_id command.meta.actor_id
        d.object_id command.title "milestone created" d.now changed)
  ok (told, record { id = d.object_id; revision = revision; project_revision = revision })

describe_milestone : UpdateMilestone → ℕ → ℤ → MilestoneRow → MilestoneRow
describe_milestone command revision now row = record row {
  title = command.title;
  status = command.status;
  position = command.position;
  target_date = command.target_date;
  project_revision = revision;
  updated_at = now;
}

unfoldable pub update_milestone : Draw → UpdateMilestone → Core → Stops (Core × Written)
unfolding describe_milestone
update_milestone d command core = do
  row ← mapped (found (lookup command.id core.milestones) not_found)
  directly
      (require (eqb_ℤ (pos (MilestoneRow.project_revision row)) command.base_revision) conflict)
  (bumped, revision) ← directly (bump_project_revision core row.project_id d.now)
  rewritten ←
      with_recheck (rewrite_milestone command.id (describe_milestone command revision d.now) bumped)
  changed ← directly (
      insert_core_change row.project_id revision "milestone_updated" command.id command.title d.now
        rewritten)
  told ← directly (
      insert_core_activity d.activity_id "project_updated" row.project_id command.meta.actor_id
        command.id command.title "milestone updated" d.now changed)
  ok (told, record { id = command.id; revision = revision; project_revision = revision })
