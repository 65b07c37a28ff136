-- ===== src/Core/Relations/Acyclic.antt =====
-- What the checks of validateTaskRelations give, and that new dependencies behind them close no cycle.
use codex_commons.Prelude.{
  ◌≡◌, ◌≢◌, String, Bool, true, not, some, List, [], ◌∷◌, ◌||◌, ◌&&◌, ◌⊎◌, inl, inr, refl, subst,
  arith,
}
use codex_commons.Prelude.Tests.{str_eq, str_eq_iff, Bool-cases}
use codex_commons.Prelude.Lists.{contains}
use codex_commons.Prelude.Table.{lookup}
use codex_commons.Prelude.Results.{ok, require, found, bind-ok, require-ok, found-ok}
use codex_commons.Core.Types.{
  Core, TaskRow, DependencyRow, invalid, not_found, conflict, constraint,
}
use codex_commons.Core.Rows.{has_dependency, insert_dependencies, delete_dependencies}
use codex_commons.Core.Relations.{reachable, valid_dependency, check_dependencies}
use codex_commons.Core.Relations.Reachable.{DependsOn, directly_on, through, reachable_exact}

-- No task depends on itself.
unfoldable pub Acyclic : List DependencyRow → Type 0
Acyclic rows = (id : String) → ¬ DependsOn rows id id

-- A task that may get `v` as a dependency closes no cycle by it.
unfoldable pub Safe : List DependencyRow → String → String → Type 0
Safe rows task v = (v ≢ task) × (¬ DependsOn rows v task)

behind :
    (rows : List DependencyRow) (u v w : String)
    → has_dependency u v rows ≡ true
    → DependsOn rows v w
    → DependsOn rows u w
behind rows u v w e (directly_on k) = through (directly_on e) k
behind rows u v w e (through p k) = through (behind rows u v _ e p) k

-- The dependencies behind a write: the old ones, and safe ones of one task.
module _ (rows rows2 : List DependencyRow) (task : String) (acyclic : Acyclic rows)
    (origin : (u v : String)
      → has_dependency u v rows2 ≡ true
      → (has_dependency u v rows ≡ true) ⊎ ((u ≡ task) × Safe rows task v)) where
  step-Safe : (u v : String) → Safe rows task u → has_dependency u v rows2 ≡ true → Safe rows task v
  unfolding Safe
  step-Safe u v h e = elim (origin u v e) [
    | inr (same, safe) ↦ absurd (h.0 same)
    | inl old ↦ (
      λ same. h.1 (subst (DependsOn rows u) same (directly_on old)),
      λ p. h.1 (behind rows u v task old p),
    )
  ]

  path-Safe : (u v : String) → Safe rows task u → DependsOn rows2 u v → Safe rows task v
  path-Safe u v h (directly_on e) = step-Safe u v h e
  path-Safe u v h (through {other = w} p e) = step-Safe w v (path-Safe u w h p) e

  first-Safe : (v : String) → has_dependency task v rows2 ≡ true → Safe rows task v
  unfolding Safe Acyclic
  first-Safe v e = elim (origin task v e) [
    | inr (same, safe) ↦ safe
    | inl old ↦ (
      λ same. acyclic task (subst (DependsOn rows task) same (directly_on old)),
      λ p. acyclic task (behind rows task v task old p),
    )
  ]

  from_task-Safe : (v : String) → DependsOn rows2 task v → Safe rows task v
  from_task-Safe v (directly_on e) = first-Safe v e
  from_task-Safe v (through {other = w} p e) = step-Safe w v (from_task-Safe w p) e

  by_task :
      (u v : String)
      → DependsOn rows2 u v
      → DependsOn rows u v ⊎ (((u ≡ task) ⊎ DependsOn rows2 u task) × DependsOn rows2 task v)
  by_task u v (directly_on e) = elim (origin u v e) [
    | inl old ↦ inl (directly_on old)
    | inr (same, safe) ↦
        inr (inl same, directly_on (subst (λ w. has_dependency w v rows2 ≡ true) same e))
  ]
  by_task u v (through {other = w} p e) = elim (origin w v e) [
    | inr (same, safe) ↦ inr (
      inr (subst (DependsOn rows2 u) same p),
      directly_on (subst (λ x. has_dependency x v rows2 ≡ true) same e),
    )
    | inl old ↦ elim (by_task u w p) [
      | inl q ↦ inl (through q old)
      | inr (arrives, q) ↦ inr (arrives, through q e)
    ]
  ]

  pub extended-Acyclic : Acyclic rows2
  unfolding Acyclic Safe
  extended-Acyclic id p = elim (by_task id id p) [
    | inl old ↦ acyclic id old
    | inr (arrives, q) ↦
        let safe = from_task-Safe id q in
        elim arrives [ inl same ↦ safe.0 same | inr back ↦ (path-Safe id task safe back).0 refl ]
  ]

pub delete_origin :
    (task u v : String) (rows : List DependencyRow)
    → has_dependency u v (delete_dependencies task rows) ≡ true
    → has_dependency u v rows ≡ true
unfolding has_dependency delete_dependencies
delete_origin task u v [] h = h
delete_origin task u v (row ∷ rows) h = ground (arith, delete_origin task u v rows)

pub insert_origin :
    (task : String) (ids : List String) (rows rows2 : List DependencyRow) (u v : String)
    → insert_dependencies task ids rows ≡ ok rows2
    → has_dependency u v rows2 ≡ true
    → (has_dependency u v rows ≡ true) ⊎ ((u ≡ task) × (contains ids v ≡ true))
unfolding insert_dependencies has_dependency
insert_origin task [] rows rows2 u v h e = inl (ground arith)
insert_origin task (id ∷ ids) rows rows2 u v h e =
    let (u1, passes, later) =
      bind-ok (require (not (has_dependency task id rows || str_eq task id)) constraint) h in
    elim (insert_origin task ids (record { task_id = task; depends_on = id } ∷ rows) rows2 u v later
      e) [
        | inr (same, rest) ↦ inr (same, rw rest (ground arith))
        | inl k ↦ elim (Bool-cases (has_dependency u v rows)) [
          | inl old ↦ inl old
          | inr new ↦ inr (ground (arith, str_eq_iff task u), ground (arith, str_eq_iff id v))
        ]
      ]

-- What the loop over the dependencies has found of each.
pub record IsAllowed (core : Core) (project task : String) (check_cycle : Bool) (id : String)
    : Type 0 where
  pub other : id ≢ task
  pub row : TaskRow
  pub stands : lookup id core.tasks ≡ some row
  pub same_project : row.project_id ≡ project
  pub no_cycle : check_cycle ≡ true → ¬ DependsOn core.dependencies id task

valid_dependency-IsAllowed :
    (core : Core) (project task : String) (check_cycle : Bool) (id : String) (u : Unit {0})
    → valid_dependency core project task check_cycle id ≡ ok u
    → IsAllowed core project task check_cycle id
unfolding valid_dependency
valid_dependency-IsAllowed core project task check_cycle id u h =
    let (u1, ne, r1) = bind-ok (require (not (str_eq id task)) invalid) h in
    let (row, at, r2) = bind-ok (found (lookup id core.tasks) not_found) r1 in
    let (u3, project_test, cycle_test) =
      bind-ok (require (str_eq (TaskRow.project_id row) project) invalid) r2 in
    let n = require-ok (not (str_eq id task)) invalid ne in
    let no =
      require-ok (not (check_cycle && contains (reachable core.dependencies id) task)) conflict
        cycle_test in
    record {
      other = λ q. absurd (cc ((str_eq_iff id task).1 q, n));
      row = row;
      stands = found-ok (lookup id core.tasks) not_found at;
      same_project =
          (str_eq_iff row.project_id project).0
            (require-ok (str_eq (TaskRow.project_id row) project) invalid project_test);
      no_cycle = λ c p. absurd (cc (c, (reachable_exact core.dependencies id task).1 p, no));
    }

pub check_dependencies-IsAllowed :
    (core : Core) (project task : String) (check_cycle : Bool) (ids : List String) (id : String)
    → check_dependencies core project task check_cycle ids ≡ ok tt
    → contains ids id ≡ true
    → IsAllowed core project task check_cycle id
unfolding check_dependencies valid_dependency
check_dependencies-IsAllowed core project task check_cycle [] id h k = absurd (cc k)
check_dependencies-IsAllowed core project task check_cycle (first ∷ ids) id h k =
    let (u, valid, rest) = bind-ok (valid_dependency core project task check_cycle first) h in
    elim (Bool-cases (str_eq first id)) [
      | inr n ↦ check_dependencies-IsAllowed core project task check_cycle ids id rest (rw n at k)
      | inl e ↦
          let same : first ≡ id = (str_eq_iff first id).0 e in
          subst (IsAllowed core project task check_cycle) same
            (valid_dependency-IsAllowed core project task check_cycle first u valid)
    ]
