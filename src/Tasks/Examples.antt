-- ===== src/Tasks/Examples.antt =====
-- The state machine of tasks at concrete states.
use codex_commons.Prelude.{◌≡◌, String, refl, inl}
use codex_commons.Tasks.Transitions.{here, final-Reaches}

final-Reaches_example : ◌≡◌ {A = String} "done" "done"
final-Reaches_example = final-Reaches {s = "done"} {t = "done"} here (inl refl)
