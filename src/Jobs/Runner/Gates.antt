-- ===== src/Jobs/Runner/Gates.antt =====
-- The gates in front of the store: what has to hold before a run reaches it.
use codex_commons.Prelude.{
  ◌≡◌, String, Bool, true, false, none, some, List, [], ◌∷◌, ◌⊎◌, inl, inr, arith, refl,
}
use codex_commons.Prelude.Tests.{Bool-cases, str_eq, str_eq_iff}
use codex_commons.Prelude.Lists.{contains}
use codex_commons.Prelude.Table.{lookup}
use codex_commons.Prelude.Results.{ok, err}
use codex_commons.Jobs.Types.{Definition, RunRequest, StateStore, empty_receipt, Result, Err}
use codex_commons.Jobs.Definitions.{Runner}
use codex_commons.Jobs.Input.{valid_id, validate_input}
use codex_commons.Jobs.Runner.{Env, check_granted, preflight, run}

-- The request passed every gate under definition `d`.
pub record IsAdmitted (r : Runner) (env : Env) (q : RunRequest) (d : Definition) : Type 0 where
  pub registered : lookup q.job r.definitions ≡ some d
  pub identified : valid_id q.run_id ≡ true
  pub live : env.ctx_err ≡ none
  pub enabled : env.is_disabled q.job ≡ false
  pub granted : (c : String) → contains d.capabilities c ≡ true → r.granted c ≡ true
  pub well_formed : validate_input q ≡ none

check_granted-none :
    (granted : String → Bool) (cs : List String) (c : String)
    → check_granted granted cs ≡ none
    → contains cs c ≡ true
    → granted c ≡ true
unfolding check_granted
check_granted-none granted [] c h m = cc
check_granted-none granted (x ∷ cs) c h m = elim (Bool-cases (str_eq x c)) [
  | inl same ↦ rw (← (str_eq_iff x c).0 same) (ground arith)
  | inr other ↦ check_granted-none granted cs c (ground arith) (ground arith)
]

pub preflight-IsAdmitted :
    (r : Runner) (env : Env) (q : RunRequest) (d : Definition)
    → preflight r env q ≡ ok d
    → IsAdmitted r env q d
unfolding preflight
preflight-IsAdmitted r env q d h = record {
  registered = ground arith;
  identified = ground arith;
  live = ground arith;
  enabled = ground arith;
  granted = λ c m. check_granted-none r.granted d.capabilities c (ground arith) m;
  well_formed = ground arith;
}

-- Whatever the store, and whatever other calls make of it meanwhile, a run either passed every gate under a registered definition, or left the
-- store as it was and answers an error with an empty receipt.
pub run_gated :
    {S : Type 0} (store : StateStore S) (r : Runner) (env : Env) (q : RunRequest)
    (meanwhile : S → S) (s : S)
    → ((d : Definition) × IsAdmitted r env q d)
      ⊎ ((e : Err) × (run store r env q meanwhile s ≡ (s, (empty_receipt, some e))))
unfolding run
run_gated store r env q meanwhile s = go (preflight r env q) refl
  where
    go :
        (p : Result Definition)
        → preflight r env q ≡ p
        → ((d : Definition) × IsAdmitted r env q d)
          ⊎ ((e : Err) × (run store r env q meanwhile s ≡ (s, (empty_receipt, some e))))
    go (ok d) h = inl (d, preflight-IsAdmitted r env q d h)
    go (err e) h = inr (e, rw (h, run))
