-- ===== src/Core/Relations.antt =====
-- normalizeDependencyIDs and validateTaskRelations of internal/store/project_core_helpers.go, and the
-- recursive query of the latter.
pub mod Scan
pub mod Reachable
pub mod Acyclic
pub mod Normal
use codex_commons.Prelude.{
  ℕ, zero, suc, String, Bool, true, false, Option, none, some, List, [], ◌∷◌, ◌&&◌, not,
}
use codex_commons.Prelude.Tests.{leb, str_eq, if◌then◌else◌}
use codex_commons.Prelude.Lists.{length, contains}
use codex_commons.Prelude.Table.{lookup}
use codex_commons.Prelude.Text.{str_ltb}
use codex_commons.Prelude.Results.{ok, err, ◌>>=◌, ◌>>◌, require, found}
use codex_commons.Archaeology.StableIds.{bounded_text}
use codex_commons.Core.Types.{
  Fails, invalid, conflict, not_found, Core, MilestoneRow, TaskRow, DependencyRow,
}

-- sort.Strings
insert_sorted : String → List String → List String
insert_sorted value [] = value ∷ []
insert_sorted value (x ∷ xs) =
    let rest = insert_sorted value xs in if str_ltb x value then x ∷ rest else value ∷ x ∷ xs

unfoldable pub sort_strings : List String → List String
unfolding insert_sorted
sort_strings [] = []
sort_strings (x ∷ xs) = insert_sorted x (sort_strings xs)

-- The loop over the sorted identifiers, behind one of them.
unfoldable pub valid_behind : String → List String → Bool
valid_behind previous [] = true
valid_behind previous (value ∷ values) =
    bounded_text value 200 true && not (str_eq value previous) && valid_behind value values

unfoldable pub valid_dependencies : List String → Bool
unfolding valid_behind
valid_dependencies [] = true
valid_dependencies (value ∷ values) = bounded_text value 200 true && valid_behind value values

unfoldable pub normalize_dependency_ids : List String → Option (List String)
normalize_dependency_ids values =
    if leb (length values) 20 && valid_dependencies (sort_strings values)
    then some (sort_strings values)
    else none

-- The recursive query: a row that no earlier row repeats is queued, and each row of the queue adds
-- what it depends on.
pub record Search : Type 0 where
  pub queue : List String
  pub reached : List String

unfoldable pub scan : List DependencyRow → String → Search → Search
scan [] id s = s
scan (row ∷ rows) id s = scan rows id (
    if str_eq row.task_id id && not (contains s.reached row.depends_on)
    then record { queue = row.depends_on ∷ s.queue; reached = row.depends_on ∷ s.reached }
    else s)

unfoldable pub drain : ℕ → List DependencyRow → Search → Search
drain zero rows s = s
drain (suc fuel) rows s = elim s.queue [
  | [] ↦ s
  | id ∷ rest ↦ drain fuel rows (scan rows id (record s { queue = rest }))
]

abbrev nothing_reached : Search
nothing_reached = record { queue = []; reached = [] }

-- Each dependency enters the queue at most once, so their number is fuel enough.
unfoldable pub reachable : List DependencyRow → String → List String
unfolding scan drain
reachable rows id = (drain (length rows) rows (scan rows id nothing_reached)).reached

unfoldable pub valid_milestone : Core → String → String → Fails (Unit {0})
valid_milestone core project_id milestone_id = if str_eq milestone_id "" then ok tt else (do
  row ← found (lookup milestone_id core.milestones) not_found
  require (str_eq (MilestoneRow.project_id row) project_id) invalid)

-- One round of the loop over the dependencies.
unfoldable pub valid_dependency : Core → String → String → Bool → String → Fails (Unit {0})
valid_dependency core project_id task_id check_cycle id = do
  require (not (str_eq id task_id)) invalid
  row ← found (lookup id core.tasks) not_found
  require (str_eq (TaskRow.project_id row) project_id) invalid
  require (not (check_cycle && contains (reachable core.dependencies id) task_id)) conflict

unfoldable pub check_dependencies : Core → String → String → Bool → List String → Fails (Unit {0})
check_dependencies core project_id task_id check_cycle [] = ok tt
check_dependencies core project_id task_id check_cycle (id ∷ ids) =
    let rest = check_dependencies core project_id task_id check_cycle ids in
    do valid_dependency core project_id task_id check_cycle id; rest

unfoldable pub validate_task_relations :
    Core → String → String → String → List String → Bool → Fails (Unit {0})
validate_task_relations core project_id task_id milestone_id ids check_cycle = do
  valid_milestone core project_id milestone_id
  check_dependencies core project_id task_id check_cycle ids
