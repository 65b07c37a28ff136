-- ===== src/Core/Writes/History.antt =====
-- The eight writes of project_core_write.go one after another: each under the writer's lock, whatever it read before
-- and whichever process runs it.
use codex_commons.Prelude.{◌≡◌, ◌≤◌, refl, sym, ap, subst, ◌∙◌, String, some, arith, inl, inr}
use codex_commons.Prelude.Table.{lookup, lookup-put}
use codex_commons.Prelude.Tests.{str_eq, str_eq_iff, Bool-cases}
use codex_commons.Tasks.Transitions.{Reaches, here, next, Reaches_trans}
use codex_commons.Core.Types.{Core, Database, RequestRow, TaskRow}
use codex_commons.Core.Commands.{Command}
use codex_commons.Core.Writes.{World, write, request_of}
use codex_commons.Core.Writes.Stored.{write_stored}
use codex_commons.Core.Effects.Execute.{SomeEffect, execute-SomeEffect}
use codex_commons.Core.Invariant.{IsSound}
use codex_commons.Core.Invariant.Growth.{Effect-IsLaterTask, IsLaterTask}
use codex_commons.Core.Invariant.Preserved.{Effect-IsSound}

-- The databases that committed calls of the eight writes lead to. The other writes of the store, such as
-- the claims of tasks, which also change states, are not among the steps.
pub data Later (hash : Command → String) (db : Database) : Database → Type 0 where
  now : Later hash db db
  after :
      {db2 db3 : Database} (world : World) (c : Command)
      → Later hash db db2
      → world.locked ≡ db2
      → (write hash world c).stored ≡ some db3
      → Later hash db db3

pub stored-SomeEffect :
    (hash : Command → String) (world : World) (c : Command) (db : Database)
    → (write hash world c).stored ≡ some db
    → SomeEffect (Database.core world.locked) db.core
stored-SomeEffect hash world c db h =
    let (p, _, s) = write_stored hash world c db h in
    execute-SomeEffect world.draw p (Database.core world.locked) db.core s.written s.executes

-- Whatever of the eight writes of project_core_write.go commit, one after another, the tables stay
-- sound: tasks and milestones behind their projects, milestones and dependencies inside a project, no
-- cycle among the dependencies, each revision among the changes, and at most one active milestone per
-- project.
pub Later-IsSound :
    (hash : Command → String) (db db2 : Database)
    → IsSound db.core
    → Later hash db db2
    → IsSound db2.core
Later-IsSound hash db db2 s now = s
Later-IsSound hash db db2 s (after {db2 = mid} world c earlier locked stored) =
    let (project, n, e) = stored-SomeEffect hash world c db2 stored in
    Effect-IsSound (Database.core world.locked) db2.core project n e
      (subst (λ x. IsSound (Database.core x)) (sym locked) (Later-IsSound hash db mid s earlier))

-- Where a task has come: in the same project, at no earlier revision, by allowed changes of state.
pub record HasBecome (core : Core) (id : String) (row : TaskRow) : Type 0 where
  pub later : TaskRow
  pub stands : lookup id core.tasks ≡ some later
  pub same_project : later.project_id ≡ row.project_id
  pub no_earlier : row.project_revision ≤ later.project_revision
  pub moved : Reaches row.state later.state

one_move :
    (core : Core) (id : String) (row : TaskRow) → IsLaterTask core id row → HasBecome core id row
one_move core id row t = record {
  later = t.later;
  stands = t.stands;
  same_project = t.same_project;
  no_earlier = t.no_earlier;
  moved = elim t.moved [
    | inl same ↦ subst (Reaches row.state) (sym same) here
    | inr allowed ↦ next here allowed
  ];
}

-- Whatever of the eight writes of project_core_write.go commit on sound tables, a task that is there
-- stays there and in its project, its revision does not fall, and its state changes along the allowed
-- transitions only.
pub Later-HasBecome :
    (hash : Command → String) (db db2 : Database) (id : String) (row : TaskRow)
    → IsSound db.core
    → Later hash db db2
    → lookup id (Core.tasks db.core) ≡ some row
    → HasBecome db2.core id row
Later-HasBecome hash db db2 id row s now at = record {
  later = row;
  stands = at;
  same_project = refl;
  no_earlier = omega arith;
  moved = here;
}
Later-HasBecome hash db db2 id row s (after {db2 = mid} world c earlier locked stored) at =
    let t = Later-HasBecome hash db mid id row s earlier at in
    let (project, n, e) = stored-SomeEffect hash world c db2 stored in
    let behind =
      subst (λ x. IsSound (Database.core x)) (sym locked) (Later-IsSound hash db mid s earlier) in
    let u = one_move db2.core id t.later (
      Effect-IsLaterTask (Database.core world.locked) db2.core project n id t.later e
        behind.tasks_behind
        (ap (λ x. lookup id (Core.tasks (Database.core x))) locked ∙ t.stands)) in
    record {
      later = u.later;
      stands = u.stands;
      same_project = u.same_project ∙ t.same_project;
      no_earlier = omega (arith, t.no_earlier, u.no_earlier);
      moved = Reaches_trans t.moved u.moved;
    }

-- A record of a request is never changed and never lost.
pub Later-keeps_request :
    (hash : Command → String) (db db2 : Database) (key : String) (row : RequestRow)
    → Later hash db db2
    → lookup key db.requests ≡ some row
    → lookup key db2.requests ≡ some row
Later-keeps_request hash db db2 key row now at = at
Later-keeps_request hash db db2 key row (after {db2 = mid} world c earlier locked stored) at =
    let before = Later-keeps_request hash db mid key row earlier at in
    let (p, _, s) = write_stored hash world c db2 stored in
    let q = request_of hash p in
    let there : lookup key (Database.requests world.locked) ≡ some row =
      ap (λ x. lookup key (Database.requests x)) locked ∙ before in
    elim (Bool-cases (str_eq q.key key)) [
      | inl same ↦ absurd (
          cc (
            s.fresh,
            ap (λ k. lookup k (Database.requests world.locked)) ((str_eq_iff q.key key).0 same),
            there,
          ))
      | inr other ↦
          ap (lookup key) s.recorded
          ∙ lookup-put q.key key _ (Database.requests world.locked)
          ∙ rw other there
    ]
