-- ===== src/Core/Rows.antt =====
-- The statements that the core writes share, in internal/store/project_core_helpers.go and at the end
-- of project_core_write.go: each changes one table or stops at a constraint of it.
use codex_commons.Prelude.{ℕ, suc, String, Bool, false, none, some, List, [], ◌∷◌, ◌&&◌, ◌||◌, not}
use codex_commons.Prelude.Tests.{str_eq, is_none, ◌==◌, if◌then◌else◌}
use codex_commons.Prelude.Table.{Table, lookup, put}
use codex_commons.Prelude.Int.{ℤ}
use codex_commons.Prelude.Results.{ok, err, ◌>>=◌, ◌>>◌, require, found}
use codex_commons.Archaeology.Texts.{contains_text}
use codex_commons.Tasks.{CoreWriteMeta}
use codex_commons.Core.Types.{
  Err, unavailable, other, Fails, Stops, returned, rechecked, constraint, conflict, not_found, Core,
  ProjectRow, MilestoneRow, DependencyRow, TaskEventRow, ChangeRow, ActivityRow,
}

unfoldable pub busy_err : String → Bool
busy_err message =
    contains_text message "database is locked"
    || contains_text message "database is busy"
    || contains_text message "SQLITE_BUSY"

-- mapErr. The error of a query without rows is not_found here already.
unfoldable pub map_err : Err → Err
map_err (other message) =
    if busy_err message
    then unavailable
    else if contains_text message "constraint failed"
    then conflict
    else other message
map_err constraint = conflict
map_err e = e

-- `return domain.WriteResult{}, err`
abbrev pub directly {ℓ} : {A : Type ℓ} → Fails A → Stops A
directly (err e) = err (returned e)
directly (ok value) = ok value

-- `return domain.WriteResult{}, mapErr(err)`
abbrev pub mapped {ℓ} : {A : Type ℓ} → Fails A → Stops A
mapped (err e) = err (returned (map_err e))
mapped (ok value) = ok value

-- `return coreWriteFailure(...)`
abbrev pub with_recheck {ℓ} : {A : Type ℓ} → Fails A → Stops A
with_recheck (err e) = err (rechecked e)
with_recheck (ok value) = ok value

-- INSERT of a row whose key is the PRIMARY KEY.
abbrev pub insert_row {ℓ} : {V : Type ℓ} → String → V → Table V → Fails (Table V)
insert_row id row table =
    if is_none (lookup id table) then ok (put id row table) else err constraint

-- UPDATE ... WHERE id=?
abbrev pub update_row {ℓ} : {V : Type ℓ} → String → (V → V) → Table V → Table V
update_row id change table = elim (lookup id table) [
  | none ↦ table
  | some row ↦ put id (change row) table
]

unfoldable pub bump_project_revision : Core → String → ℤ → Fails (Core × ℕ)
bump_project_revision core id now = do
  row ← found (lookup id core.projects) not_found
  ok (
    record core {
      projects =
          put id (record row { revision = suc (ProjectRow.revision row); updated_at = now })
            core.projects;
    },
    suc (ProjectRow.revision row),
  )

-- A row with the primary key (project_id, revision).
unfoldable pub has_change : String → ℕ → List ChangeRow → Bool
has_change project_id revision [] = false
has_change project_id revision (row ∷ rows) =
    str_eq row.project_id project_id && row.revision == revision
    || has_change project_id revision rows

unfoldable pub insert_core_change : String → ℕ → String → String → String → ℤ → Core → Fails Core
insert_core_change project_id revision kind ref summary now core =
    if has_change project_id revision core.changes
    then err constraint
    else ok (record core {
      changes =
          record {
            project_id = project_id;
            revision = revision;
            kind = kind;
            ref = ref;
            summary = summary;
            created_at = now;
          }
          ∷ core.changes;
    })

has_activity : String → List ActivityRow → Bool
has_activity id [] = false
has_activity id (row ∷ rows) = str_eq row.id id || has_activity id rows

unfoldable pub insert_core_activity :
    String → String → String → String → String → String → String → ℤ → Core → Fails Core
unfolding has_activity
insert_core_activity id kind project_id actor_id ref title outcome now core =
    if has_activity id core.activities
    then err constraint
    else ok (record core {
      activities =
          record {
            id = id;
            kind = kind;
            project_id = project_id;
            actor_id = actor_id;
            ref = ref;
            title = title;
            outcome = outcome;
            occurred_at = now;
          }
          ∷ core.activities;
    })

has_event : String → List TaskEventRow → Bool
has_event id [] = false
has_event id (row ∷ rows) = str_eq row.id id || has_event id rows

unfoldable pub insert_task_event :
    String
    → String
    → String
    → ℕ
    → String
    → String
    → String
    → String
    → CoreWriteMeta
    → ℤ
    → Core
    → Fails Core
unfolding has_event
insert_task_event id task_id project_id revision kind summary from_state to_state meta now core =
    if has_event id core.task_events
    then err constraint
    else ok (record core {
      task_events =
          record {
            id = id;
            task_id = task_id;
            project_id = project_id;
            project_revision = revision;
            kind = kind;
            summary = summary;
            from_state = from_state;
            to_state = to_state;
            meta = meta;
            created_at = now;
          }
          ∷ core.task_events;
    })

-- The unique index milestones_one_active_per_project, for the row of `id`.
unfoldable pub other_active : String → String → Table MilestoneRow → Bool
other_active id project_id [] = false
other_active id project_id ((key, row) ∷ rows) =
    not (str_eq key id)
      && str_eq (MilestoneRow.project_id row) project_id
      && str_eq (MilestoneRow.status row) "active"
    || other_active id project_id rows

abbrev pub keeps_one_active : String → MilestoneRow → Table MilestoneRow → Bool
keeps_one_active id row table =
    not (str_eq row.status "active" && other_active id row.project_id table)

unfoldable pub insert_milestone : String → MilestoneRow → Core → Fails Core
insert_milestone id row core = do
  require (keeps_one_active id row core.milestones) constraint
  table ← insert_row id row core.milestones
  ok (record core { milestones = table })

unfoldable pub rewrite_milestone : String → (MilestoneRow → MilestoneRow) → Core → Fails Core
rewrite_milestone id change core = elim (lookup id core.milestones) [
  | none ↦ ok core
  | some row ↦ do
    require (keeps_one_active id (change row) core.milestones) constraint
    ok (record core { milestones = put id (change row) core.milestones })
]

unfoldable pub has_dependency : String → String → List DependencyRow → Bool
has_dependency task_id depends_on [] = false
has_dependency task_id depends_on (row ∷ rows) =
    str_eq row.task_id task_id && str_eq row.depends_on depends_on
    || has_dependency task_id depends_on rows

-- The loop that inserts the dependencies.
unfoldable pub insert_dependencies :
    String → List String → List DependencyRow → Fails (List DependencyRow)
unfolding has_dependency
insert_dependencies task_id [] rows = ok rows
insert_dependencies task_id (id ∷ ids) rows =
    let rest =
      insert_dependencies task_id ids (record { task_id = task_id; depends_on = id } ∷ rows) in
    do require (not (has_dependency task_id id rows || str_eq task_id id)) constraint; rest

-- DELETE FROM task_dependencies WHERE task_id=?
unfoldable pub delete_dependencies : String → List DependencyRow → List DependencyRow
delete_dependencies task_id [] = []
delete_dependencies task_id (row ∷ rows) =
    let rest = delete_dependencies task_id rows in
    if str_eq row.task_id task_id then rest else row ∷ rest
