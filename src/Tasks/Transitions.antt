-- ===== src/Tasks/Transitions.antt =====
-- The state machine of tasks: done and cancelled are final.
use codex_commons.Prelude.{◌≡◌, String, true, false, arith, refl, inl, inr, ◌⊎◌, subst, ◌∙◌}
use codex_commons.Prelude.Tests.{str_eq}
use codex_commons.Tasks.{task_transition_allowed}

-- The changes that one write after another can make of a state.
pub data Reaches (s : String) : String → Type 0 where
  here : Reaches s s
  next : {t u : String} → Reaches s t → task_transition_allowed t u ≡ true → Reaches s u

pub Reaches_trans : {s t u : String} → Reaches s t → Reaches t u → Reaches s u
Reaches_trans r here = r
Reaches_trans r (next q h) = next (Reaches_trans r q) h

done_stops : (u : String) → task_transition_allowed "done" u ≡ false
unfolding task_transition_allowed str_eq
done_stops u = ground arith

cancelled_stops : (u : String) → task_transition_allowed "cancelled" u ≡ false
unfolding task_transition_allowed str_eq
cancelled_stops u = ground arith

-- A final state is left by no sequence of transitions: whatever a done or cancelled task reaches is the
-- state that it is in.
pub final-Reaches : {s t : String} → Reaches s t → (s ≡ "done") ⊎ (s ≡ "cancelled") → t ≡ s
final-Reaches here f = refl
final-Reaches (next {t = t} {u = u} r h) (inl e) =
    let there : t ≡ "done" = final-Reaches r (inl e) ∙ e in
    absurd (cc (done_stops u, subst (λ x. task_transition_allowed x u ≡ true) there h))
final-Reaches (next {t = t} {u = u} r h) (inr e) =
    let there : t ≡ "cancelled" = final-Reaches r (inr e) ∙ e in
    absurd (cc (cancelled_stops u, subst (λ x. task_transition_allowed x u ≡ true) there h))
