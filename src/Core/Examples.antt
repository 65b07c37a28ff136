-- ===== src/Core/Examples.antt =====
-- The writes of the project core at concrete commands: a project, a task, a change of its state, and
-- what is sent again.
use codex_commons.Prelude.{
  ◌≡◌, ◌⊎◌, ◌≤◌, ◌≢◌, ◌↔◌, refl, String, true, none, some, Option, List, [], ◌∷◌, inl, inr,
}
use codex_commons.Prelude.Int.{pos}
use codex_commons.Prelude.Lists.{length, contains, All}
use codex_commons.Prelude.Table.{lookup, put}
use codex_commons.Prelude.Tests.{str_eq}
use codex_commons.Prelude.Text.{str_ltb, all_chars, trim_space}
use codex_commons.Prelude.Results.{err}
use codex_commons.GithubSync.Strings.{itoa}
use codex_commons.Archaeology.StableIds.{bounded_text}
use codex_commons.Tasks.{CoreWriteMeta, valid_core_meta, task_transition_allowed}
use codex_commons.Core.Types.{Core, Database, Draw, TaskRow, DependencyRow, returned, conflict}
use codex_commons.Core.Values.{is_project_id}
use codex_commons.Core.Rows.{
  bump_project_revision, insert_core_change, insert_core_activity, insert_task_event, has_change,
  insert_dependencies,
}
use codex_commons.Core.Relations.{
  reachable, scan, drain, normalize_dependency_ids, sort_strings, valid_dependencies, valid_behind,
  validate_task_relations, valid_milestone, check_dependencies,
}
use codex_commons.Core.Relations.Reachable.{DependsOn, reachable_exact}
use codex_commons.Core.Relations.Normal.{Ascends, normalize_dependency_ids_lem}
use codex_commons.Core.Projects.{create_project}
use codex_commons.Core.Tasks.{create_task, change_task_state}
use codex_commons.Core.Commands.{
  Command, project_create, task_create, task_state, prepare, operation, payload, execute,
  valid_project_create, valid_task_create, valid_task_state,
}
use codex_commons.Core.Writes.{
  World, Request, answers, request_of, request_storage_key, read_core_replay, record_core_replay,
  commit, transact, locked_write, open_write, perform, write,
}
use codex_commons.Core.Writes.Replay.{Meets, write_again, write_other}
use codex_commons.Core.Writes.History.{Later, now, after, Later-IsSound, Later-HasBecome, HasBecome}
use codex_commons.Core.Writes.Conflicts.{no_lost_update}
use codex_commons.Core.Writes.Edits.{task, edits}
use codex_commons.Core.Writes.Keys.{request_storage_key-injective}
use codex_commons.Core.Invariant.{IsSound}
use codex_commons.Core.Invariant.Empty.{no_core, no_core-IsSound}

abbrev empty : Database
empty = record { core = no_core; requests = [] }

-- A fingerprint that tells a few payloads apart.
toy_hash : Command → String
toy_hash (project_create c) = c.name
toy_hash (task_create c) = c.title
toy_hash (task_state c) = c.state
toy_hash c = ""

abbrev by : String → CoreWriteMeta
by request = record { actor_id = "ann"; session_id = "s-1"; request_id = request }

abbrev new_project : Command
new_project = project_create (record {
  id = "p1";
  name = "One";
  status = "";
  purpose = "a purpose";
  now_text = "";
  meta = by "r1";
})

abbrev new_task : Command
new_task = task_create (record {
  project_id = "p1";
  title = "Write";
  description = "";
  acceptance = "";
  state = "";
  milestone_id = "";
  priority = pos 1;
  dependency_ids = [];
  meta = by "r2";
})

abbrev finish_task : String → String → Command
finish_task state request = task_state (record {
  id = "T-1";
  state = state;
  basis = "it is written";
  base_revision = pos 2;
  meta = by request;
})

abbrev quiet : Database → String → World
quiet db n = record {
  before = db;
  locked = db;
  after = db;
  before_err = none;
  locked_err = none;
  after_err = none;
  begin_err = none;
  lock_err = none;
  commit_err = none;
  draw = record { now = pos 5; object_id = "T-1"; activity_id = n; event_id = n };
}

abbrev stored_or : Database → Option Database → Database
stored_or db none = db
stored_or db (some db2) = db2

abbrev then_write : Database → String → Command → Database
then_write db n c = stored_or db (write toy_hash (quiet db n) c).stored

abbrev db1 : Database
db1 = then_write empty "A-1" new_project

abbrev db2 : Database
db2 = then_write db1 "A-2" new_task

abbrev db3 : Database
db3 = then_write db2 "A-3" (finish_task "done" "r3")

stored1 : (write toy_hash (quiet empty "A-1") new_project).stored ≡ some db1
unfolding write perform open_write locked_write transact commit read_core_replay record_core_replay
    request_of request_storage_key execute prepare operation payload toy_hash itoa lookup put
    create_project insert_core_change insert_core_activity has_change valid_project_create
    is_project_id all_chars bounded_text trim_space valid_core_meta str_eq
stored1 = refl

stored2 : (write toy_hash (quiet db1 "A-2") new_task).stored ≡ some db2
unfolding write perform open_write locked_write transact commit read_core_replay record_core_replay
    request_of request_storage_key execute prepare operation payload toy_hash itoa lookup put
    create_project create_task change_task_state insert_core_change insert_core_activity
    insert_task_event insert_dependencies bump_project_revision has_change valid_project_create
    valid_task_create valid_task_state is_project_id all_chars bounded_text trim_space
    valid_core_meta normalize_dependency_ids sort_strings valid_dependencies validate_task_relations
    valid_milestone check_dependencies task_transition_allowed str_eq
stored2 = refl

stored3 : (write toy_hash (quiet db2 "A-3") (finish_task "done" "r3")).stored ≡ some db3
unfolding write perform open_write locked_write transact commit read_core_replay record_core_replay
    request_of request_storage_key execute prepare operation payload toy_hash itoa lookup put
    create_project create_task change_task_state insert_core_change insert_core_activity
    insert_task_event insert_dependencies bump_project_revision has_change valid_project_create
    valid_task_create valid_task_state is_project_id all_chars bounded_text trim_space
    valid_core_meta normalize_dependency_ids sort_strings valid_dependencies validate_task_relations
    valid_milestone check_dependencies task_transition_allowed str_eq
stored3 = refl

sound2 : Later toy_hash empty db2
sound2 =
    after (quiet db1 "A-2") new_task (after (quiet empty "A-1") new_project now refl stored1) refl
      stored2

Later-IsSound_example : IsSound db2.core
Later-IsSound_example = Later-IsSound toy_hash empty db2 no_core-IsSound sound2

sound3 : Later toy_hash db2 db3
sound3 = after (quiet db2 "A-3") (finish_task "done" "r3") now refl stored3

abbrev the_task : TaskRow
the_task = record {
  project_id = "p1";
  state = "ready";
  title = "Write";
  priority = pos 1;
  owner_session_id = "";
  accept_text = "";
  description = "";
  milestone_id = "";
  project_revision = 2;
  updated_at = pos 5;
}

task_there : lookup "T-1" (Core.tasks db2.core) ≡ some the_task
unfolding write perform open_write locked_write transact commit read_core_replay record_core_replay
    request_of request_storage_key execute prepare operation payload toy_hash itoa lookup put
    create_project create_task change_task_state insert_core_change insert_core_activity
    insert_task_event insert_dependencies bump_project_revision has_change valid_project_create
    valid_task_create valid_task_state is_project_id all_chars bounded_text trim_space
    valid_core_meta normalize_dependency_ids sort_strings valid_dependencies validate_task_relations
    valid_milestone check_dependencies task_transition_allowed str_eq
task_there = refl

Later-HasBecome_example : HasBecome db3.core "T-1" the_task
Later-HasBecome_example =
    Later-HasBecome toy_hash db2 db3 "T-1" the_task
      (Later-IsSound toy_hash empty db2 no_core-IsSound sound2) sound3 task_there

prepared : prepare (finish_task "done" "r3") ≡ some (finish_task "done" "r3")
unfolding write perform open_write locked_write transact commit read_core_replay record_core_replay
    request_of request_storage_key execute prepare operation payload toy_hash itoa lookup put
    create_project create_task change_task_state insert_core_change insert_core_activity
    insert_task_event insert_dependencies bump_project_revision has_change valid_project_create
    valid_task_create valid_task_state is_project_id all_chars bounded_text trim_space
    valid_core_meta normalize_dependency_ids sort_strings valid_dependencies validate_task_relations
    valid_milestone check_dependencies task_transition_allowed str_eq
prepared = refl

prepared_other : prepare (finish_task "blocked" "r3") ≡ some (finish_task "blocked" "r3")
unfolding write perform open_write locked_write transact commit read_core_replay record_core_replay
    request_of request_storage_key execute prepare operation payload toy_hash itoa lookup put
    create_project create_task change_task_state insert_core_change insert_core_activity
    insert_task_event insert_dependencies bump_project_revision has_change valid_project_create
    valid_task_create valid_task_state is_project_id all_chars bounded_text trim_space
    valid_core_meta normalize_dependency_ids sort_strings valid_dependencies validate_task_relations
    valid_milestone check_dependencies task_transition_allowed str_eq
prepared_other = refl

edits_task : edits (finish_task "done" "r3") ≡ some (task "T-1", pos 2)
unfolding edits
edits_task = refl

edits_again : edits (finish_task "blocked" "r4") ≡ some (task "T-1", pos 2)
unfolding edits
edits_again = refl

abbrev draw4 : Draw
draw4 = record { now = pos 6; object_id = "X"; activity_id = "A-4"; event_id = "A-4" }

no_lost_update_example :
    execute draw4 (finish_task "blocked" "r4") db3.core ≡ err (returned conflict)
no_lost_update_example =
    no_lost_update toy_hash (quiet db2 "A-3") (finish_task "done" "r3") (finish_task "done" "r3")
      (finish_task "blocked" "r4") db3 db3 (task "T-1") (pos 2) draw4
      (Later-IsSound toy_hash empty db2 no_core-IsSound sound2) stored3 prepared edits_task now
      edits_again

Meets-again : Meets (quiet db3 "A-5") (request_of toy_hash (finish_task "done" "r3")) db3
unfolding Meets
Meets-again = inl (refl, refl)

write_again_example :
    write toy_hash (quiet db3 "A-5") (finish_task "done" "r3")
    ≡ answers (write toy_hash (quiet db2 "A-3") (finish_task "done" "r3")).answer
write_again_example =
    write_again toy_hash (quiet db2 "A-3") (quiet db3 "A-5") (finish_task "done" "r3")
      (finish_task "done" "r3") (finish_task "done" "r3") (finish_task "done" "r3") db3 db3 stored3
      now prepared prepared refl Meets-again

Meets-other : Meets (quiet db3 "A-5") (request_of toy_hash (finish_task "blocked" "r3")) db3
unfolding Meets
Meets-other = inl (refl, refl)

same_key :
    Request.key (request_of toy_hash (finish_task "blocked" "r3"))
    ≡ Request.key (request_of toy_hash (finish_task "done" "r3"))
unfolding request_of
same_key = refl

other_print :
    (Request.operation (request_of toy_hash (finish_task "blocked" "r3"))
      ≢ Request.operation (request_of toy_hash (finish_task "done" "r3")))
    ⊎ (Request.fingerprint (request_of toy_hash (finish_task "blocked" "r3"))
        ≢ Request.fingerprint (request_of toy_hash (finish_task "done" "r3")))
unfolding request_of toy_hash payload
other_print = inr (λ e. cc e)

write_other_example :
    write toy_hash (quiet db3 "A-5") (finish_task "blocked" "r3") ≡ answers (err conflict)
write_other_example =
    write_other toy_hash (quiet db2 "A-3") (quiet db3 "A-5") (finish_task "done" "r3")
      (finish_task "done" "r3") (finish_task "blocked" "r3") (finish_task "blocked" "r3") db3 db3
      stored3 now prepared prepared_other same_key other_print Meets-other

abbrev chain : List DependencyRow
chain =
    record { task_id = "T-1"; depends_on = "T-2" }
    ∷ record { task_id = "T-2"; depends_on = "T-3" }
    ∷ []

reachable_exact_example :
    (contains (reachable chain "T-1") "T-3" ≡ true) ↔ DependsOn chain "T-1" "T-3"
reachable_exact_example = reachable_exact chain "T-1" "T-3"

finds_the_far_one : contains (reachable chain "T-1") "T-3" ≡ true
unfolding reachable scan drain str_eq
finds_the_far_one = refl

abbrev given : List String
given = "T-2" ∷ "T-1" ∷ []

abbrev in_order : List String
in_order = "T-1" ∷ "T-2" ∷ []

sorted : normalize_dependency_ids given ≡ some in_order
unfolding normalize_dependency_ids sort_strings valid_dependencies valid_behind bounded_text
    all_chars trim_space str_ltb str_eq
sorted = refl

normalize_dependency_ids_lem_example :
    Ascends in_order
    × (length in_order ≤ 20)
    × (length in_order ≡ length given)
    × ((v : String) → contains in_order v ≡ contains given v)
    × All (λ v. bounded_text v 200 true ≡ true) in_order
normalize_dependency_ids_lem_example = normalize_dependency_ids_lem given in_order sorted

differs : ◌≢◌ {A = String} "ann" ""
differs = λ e. cc e

has_id : ◌≢◌ {A = String} "r1" ""
has_id = λ e. cc e

key_of_both : request_storage_key "ann" "s-1" "r1" ≡ request_storage_key "ann" "s-2" "r1"
unfolding request_storage_key str_eq
key_of_both = refl

request_storage_key-injective_example : ◌≡◌ {A = String} "ann" "ann" × ◌≡◌ {A = String} "r1" "r1"
request_storage_key-injective_example =
    request_storage_key-injective "ann" "s-1" "r1" "ann" "s-2" "r1" differs differs has_id has_id
      key_of_both
