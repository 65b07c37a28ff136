-- ===== src/Core/Types.antt =====
-- The commands of internal/domain/project_core.go and the tables that the core writes read and change.
-- A revision is a natural number: it counts the writes of a project, and starts at 0.
use codex_commons.Prelude.{ℕ, String, List}
use codex_commons.Prelude.Results.{Fallible}
use codex_commons.Prelude.Table.{Table}
use codex_commons.Prelude.Int.{ℤ}
use codex_commons.Tasks.{CoreWriteMeta}

-- `constraint` is an SQLite error whose text says "constraint failed", before mapErr makes it a conflict;
-- `other` is an error by its text.
pub data Err : Type 0 where
  invalid conflict not_found unavailable constraint : Err
  other : String → Err

-- How a write stops: with the error as it is, or through coreWriteFailure, which reads again.
pub data Abort : Type 0 where
  returned rechecked : Err → Abort

abbrev pub Fails {ℓ} : Type ℓ → Type ℓ
Fails A = Fallible Err A

abbrev pub Stops {ℓ} : Type ℓ → Type ℓ
Stops A = Fallible Abort A

pub record WriteResult : Type 0 where
  pub id : String
  pub revision : ℕ

pub record CreateProject : Type 0 where
  pub id : String
  pub name : String
  pub status : String
  pub purpose : String
  pub now_text : String
  pub meta : CoreWriteMeta

pub record UpdateProject : Type 0 where
  pub id : String
  pub name : String
  pub status : String
  pub purpose : String
  pub now_text : String
  pub base_revision : ℤ
  pub meta : CoreWriteMeta

pub record CreateMilestone : Type 0 where
  pub project_id : String
  pub title : String
  pub status : String
  pub target_date : String
  pub position : ℤ
  pub meta : CoreWriteMeta

pub record UpdateMilestone : Type 0 where
  pub id : String
  pub title : String
  pub status : String
  pub target_date : String
  pub position : ℤ
  pub base_revision : ℤ
  pub meta : CoreWriteMeta

pub record CreateTask : Type 0 where
  pub project_id : String
  pub title : String
  pub description : String
  pub acceptance : String
  pub state : String
  pub milestone_id : String
  pub priority : ℤ
  pub dependency_ids : List String
  pub meta : CoreWriteMeta

pub record UpdateTask : Type 0 where
  pub id : String
  pub title : String
  pub description : String
  pub acceptance : String
  pub milestone_id : String
  pub priority : ℤ
  pub dependency_ids : List String
  pub base_revision : ℤ
  pub meta : CoreWriteMeta

pub record ChangeTaskState : Type 0 where
  pub id : String
  pub state : String
  pub basis : String
  pub base_revision : ℤ
  pub meta : CoreWriteMeta

pub record AppendWikiRevision : Type 0 where
  pub project_id : String
  pub slug : String
  pub title : String
  pub summary : String
  pub body : String
  pub base_revision : ℤ
  pub meta : CoreWriteMeta

-- The rows of the tables of migrations/001_core.sql and 005_project_core.sql, without their keys.
-- NULL in milestone_id, owner_session_id, target_date, from_state and to_state is "".
pub record ProjectRow : Type 0 where
  pub name : String
  pub status : String
  pub purpose : String
  pub now_text : String
  pub revision : ℕ
  pub updated_at : ℤ

pub record TopicRow : Type 0 where
  pub project_id : String
  pub name : String

pub record MilestoneRow : Type 0 where
  pub project_id : String
  pub title : String
  pub status : String
  pub position : ℤ
  pub target_date : String
  pub project_revision : ℕ
  pub updated_at : ℤ

pub record TaskRow : Type 0 where
  pub project_id : String
  pub state : String
  pub title : String
  pub priority : ℤ
  pub owner_session_id : String
  pub accept_text : String
  pub description : String
  pub milestone_id : String
  pub project_revision : ℕ
  pub updated_at : ℤ

pub record DependencyRow : Type 0 where
  pub task_id : String
  pub depends_on : String

pub record TaskEventRow : Type 0 where
  pub id : String
  pub task_id : String
  pub project_id : String
  pub project_revision : ℕ
  pub kind : String
  pub summary : String
  pub from_state : String
  pub to_state : String
  pub meta : CoreWriteMeta
  pub created_at : ℤ

pub record ChangeRow : Type 0 where
  pub project_id : String
  pub revision : ℕ
  pub kind : String
  pub ref : String
  pub summary : String
  pub created_at : ℤ

pub record ActivityRow : Type 0 where
  pub id : String
  pub kind : String
  pub project_id : String
  pub actor_id : String
  pub ref : String
  pub title : String
  pub outcome : String
  pub occurred_at : ℤ

pub record PageRow : Type 0 where
  pub project_id : String
  pub slug : String
  pub title : String
  pub current_revision : ℕ

pub record WikiRevisionRow : Type 0 where
  pub page_id : String
  pub revision : ℕ
  pub summary : String
  pub body : String
  pub author_session_id : String
  pub created_at : ℤ

pub record SearchRow : Type 0 where
  pub project_id : String
  pub kind : String
  pub revision : ℕ
  pub title : String
  pub body : String

pub record RequestRow : Type 0 where
  pub operation : String
  pub payload_hash : String
  pub result_id : String
  pub result_revision : ℕ
  pub project_revision : ℕ

-- Everything but the replay records. The last of a list is the oldest row.
pub record Core : Type 0 where
  pub projects : Table ProjectRow
  pub topics : Table TopicRow
  pub milestones : Table MilestoneRow
  pub tasks : Table TaskRow
  pub dependencies : List DependencyRow
  pub current_claims : Table String
  pub task_events : List TaskEventRow
  pub changes : List ChangeRow
  pub activities : List ActivityRow
  pub pages : Table PageRow
  pub wiki_revisions : List WikiRevisionRow
  pub search_documents : Table SearchRow

pub record Database : Type 0 where
  pub core : Core
  pub requests : Table RequestRow

-- The reading of the clock and the identifiers that newID draws: for the object, for the activity
-- event and for the task event.
pub record Draw : Type 0 where
  pub now : ℤ
  pub object_id : String
  pub activity_id : String
  pub event_id : String

-- What a write did: the result's identifier and revision, and the revision of the project.
pub record Written : Type 0 where
  pub id : String
  pub revision : ℕ
  pub project_revision : ℕ
