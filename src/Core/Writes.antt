-- ===== src/Core/Writes.antt =====
-- What every write of internal/store/project_core_write.go does around its transaction: the replay
-- tests, the writer's lock, the record of the request and coreWriteFailure.
-- SHA-256 over the JSON of the payload is a parameter, `hash`. Other processes may write between the
-- moments at which a write reads the database, so each moment has its own view of it.
pub mod Stored
pub mod Replay
pub mod History
pub mod Keys
pub mod Edits
pub mod Conflicts
use Prim.Native.String
use codex_commons.Prelude.{ℕ, String, len, Bool, true, false, Option, none, some, ◌&&◌, not}
use codex_commons.Prelude.Tests.{str_eq, is_none, if◌then◌else◌}
use codex_commons.Prelude.Table.{Table, lookup, put}
use codex_commons.Prelude.Results.{ok, err, ◌>>=◌, require}
use codex_commons.GithubSync.Strings.{itoa}
use codex_commons.Tasks.{CoreWriteMeta}
use codex_commons.Core.Types.{
  Err, invalid, conflict, constraint, Fails, returned, rechecked, WriteResult, Core, Database,
  RequestRow, Draw, Written,
}
use codex_commons.Core.Rows.{map_err}
use codex_commons.Core.Commands.{Command, prepare, operation, meta_of, payload, execute}

abbrev append : String → String → String
append s t = String.◌++◌ s t

unfoldable pub request_storage_key : String → String → String → String
request_storage_key actor_id session_id request_id =
    let scope = if str_eq actor_id "" then session_id else actor_id in
    if str_eq request_id ""
    then ""
    else append (itoa (len scope)) (append ":" (append scope request_id))

abbrev pub core_request_key : CoreWriteMeta → String
core_request_key m = request_storage_key m.actor_id m.session_id m.request_id

-- A prepared request, as its record is found again.
pub record Request : Type 0 where
  pub key : String
  pub operation : String
  pub fingerprint : String

unfoldable pub request_of : (Command → String) → Command → Request
request_of hash c = record {
  key = core_request_key (meta_of c);
  operation = operation c;
  fingerprint = hash (payload c);
}

abbrev pub write_result : RequestRow → WriteResult
write_result row = record { id = row.result_id; revision = row.result_revision }

-- The first argument is the error of the query, if it fails.
unfoldable pub read_core_replay : Option Err → Database → Request → Fails (Option WriteResult)
read_core_replay (some e) db q = err e
read_core_replay none db q = elim (lookup q.key db.requests) [
  | none ↦ ok none
  | some row ↦
      if str_eq row.operation q.operation && str_eq row.payload_hash q.fingerprint
      then ok (some (write_result row))
      else err conflict
]

unfoldable pub record_core_replay : Database → Request → Core → Written → Fails Database
record_core_replay db q core w =
    if is_none (lookup q.key db.requests)
    then ok (record {
      core = core;
      requests =
          put q.key
            (record {
              operation = q.operation;
              payload_hash = q.fingerprint;
              result_id = w.id;
              result_revision = w.revision;
              project_revision = w.project_revision;
            })
            db.requests;
    })
    else err constraint

-- What a write meets outside its own statements: the database at its first read, under the writer's
-- lock and after a failure, the errors of these reads, and what BeginTx, the lock and Commit answer.
pub record World : Type 0 where
  pub before : Database
  pub locked : Database
  pub after : Database
  pub before_err : Option Err
  pub locked_err : Option Err
  pub after_err : Option Err
  pub begin_err : Option Err
  pub lock_err : Option Err
  pub commit_err : Option Err
  pub draw : Draw

-- The database that the write commits, when it commits, and its answer.
pub record Attempt : Type 0 where
  pub stored : Option Database
  pub answer : Fails WriteResult

abbrev pub answers : Fails WriteResult → Attempt
answers a = record { stored = none; answer = a }

unfoldable pub core_write_failure : World → Request → Err → Attempt
core_write_failure world q e = elim (read_core_replay world.after_err world.after q) [
  | err problem ↦ answers (err (map_err e))
  | ok none ↦ answers (err (map_err e))
  | ok (some replay) ↦ answers (ok replay)
]

-- The record of the request and the commit, behind a transaction that did all its statements.
unfoldable pub commit : World → Request → Core → Written → Attempt
commit world q core w = elim (record_core_replay world.locked q core w) [
  | err e ↦ core_write_failure world q e
  | ok db ↦ elim world.commit_err [
    | some e ↦ core_write_failure world q e
    | none ↦ record { stored = some db; answer = ok (record { id = w.id; revision = w.revision }) }
  ]
]

unfoldable pub transact : World → Request → Command → Attempt
transact world q c = elim (execute world.draw c (Database.core world.locked)) [
  | err (returned e) ↦ answers (err e)
  | err (rechecked e) ↦ core_write_failure world q e
  | ok (core, w) ↦ commit world q core w
]

-- The part of a write under the writer's lock.
unfoldable pub locked_write : World → Request → Command → Attempt
locked_write world q c = elim (read_core_replay world.locked_err world.locked q) [
  | err e ↦ answers (err e)
  | ok (some replay) ↦ answers (ok replay)
  | ok none ↦ transact world q c
]

unfoldable pub open_write : World → Request → Command → Attempt
open_write world q c = elim world.begin_err [
  | some e ↦ answers (err e)
  | none ↦ elim world.lock_err [
    | some e ↦ core_write_failure world q e
    | none ↦ locked_write world q c
  ]
]

unfoldable pub perform : World → Request → Command → Attempt
perform world q c = elim (read_core_replay world.before_err world.before q) [
  | err e ↦ answers (err e)
  | ok (some replay) ↦ answers (ok replay)
  | ok none ↦ open_write world q c
]

-- One of the eight writes.
unfoldable pub write : (Command → String) → World → Command → Attempt
write hash world c = elim (prepare c) [
  | none ↦ answers (err invalid)
  | some prepared ↦ perform world (request_of hash prepared) prepared
]
