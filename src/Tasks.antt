-- ===== src/Tasks.antt =====
-- The rules of task writes in internal/store/project_core_helpers.go: who may write, and which change
-- of state is allowed. The tables behind them are not here.
pub mod Transitions
mod Examples
use codex_commons.Prelude.{String, Bool, false, List, [], ◌∷◌, ◌&&◌, ◌||◌, not}
use codex_commons.Prelude.Tests.{str_eq, if◌then◌else◌}
use codex_commons.Prelude.Lists.{contains}
use codex_commons.Archaeology.StableIds.{bounded_text}

pub record CoreWriteMeta : Type 0 where
  pub actor_id : String
  pub session_id : String
  pub request_id : String

unfoldable pub valid_core_meta : CoreWriteMeta → Bool
valid_core_meta m =
    bounded_text m.actor_id 200 Bool.true
    && bounded_text m.session_id 200 Bool.true
    && bounded_text m.request_id 200 Bool.true

abbrev pub task_states : List String
task_states = "ready" ∷ "in_progress" ∷ "blocked" ∷ "done" ∷ "cancelled" ∷ []

unfoldable pub task_transition_allowed : String → String → Bool
task_transition_allowed from to =
    if str_eq from to
      || not (contains task_states from)
      || not (contains task_states to)
      || str_eq to "in_progress"
    then false
    else if str_eq from "ready" || str_eq from "in_progress"
    then str_eq to "blocked" || str_eq to "done" || str_eq to "cancelled"
    else if str_eq from "blocked"
    then str_eq to "ready" || str_eq to "cancelled"
    else false
