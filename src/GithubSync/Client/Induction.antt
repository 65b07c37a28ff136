-- ===== src/GithubSync/Client/Induction.antt =====
-- A property that every request keeps holds of a whole synchronisation, and another one where it fails.
use codex_commons.Prelude.{◌≡◌, String, true, List, [], ◌||◌, not, arith, inl, inr}
use codex_commons.Prelude.Tests.{Bool-cases}
use codex_commons.Prelude.Results.{ok, err, ok_or_err}
use codex_commons.GithubSync.Types.{Fails, Request}
use codex_commons.GithubSync.Config.{Client}
use codex_commons.GithubSync.References.{valid_name, bounded_shas}
use codex_commons.GithubSync.Wire.{Kind, Decoders}
use codex_commons.GithubSync.Action.{Progress}
use codex_commons.GithubSync.Get.{Server, get}
use codex_commons.GithubSync.Client.{sync, sync_all, start, conclude}
use codex_commons.GithubSync.Client.Invariants.{IsAsked, sync_all-Keeps}
use codex_commons.GithubSync.Get.Steps.{Property, Holds, HoldsRun}

conclude-Holds :
    (P E : Property) (r : Progress × Fails (Unit {0})) → HoldsRun P E r → HoldsRun P E (conclude r)
conclude-Holds P E (p, err e) h = h
conclude-Holds P E (p, ok u) h = h

pub sync-Holds :
    (P E : Property) (server : Server) (d : Decoders) (c : Client) (q : Request)
    → P [] 0 0 0
    → E [] 0 0 0
    → ((checks commits : List String)
        → valid_name q.owner ≡ true
        → valid_name q.repository ≡ true
        → bounded_shas q.check_shas c.max_references ≡ ok checks
        → bounded_shas q.referenced_commits c.max_references ≡ ok commits
        → (A : Type 0) (k : Kind A) (key path : String) → IsAsked c q checks commits path
        → (p : Progress) → Holds P p
        → HoldsRun P E (get c k key server path q.validators p))
    → HoldsRun P E (sync server d c q)
unfolding sync
sync-Holds P E server d c q h h' g =
    elim (Bool-cases (not (valid_name q.owner) || not (valid_name q.repository))) [
      | inl bad ↦ rw (bad, sync) h'
      | inr fine ↦ elim (ok_or_err (bounded_shas q.referenced_commits c.max_references)) [
        | inr (x, e) ↦ rw (fine, e, sync) h'
        | inl (commits, e) ↦ elim (ok_or_err (bounded_shas q.check_shas c.max_references)) [
          | inr (x, e') ↦ rw (fine, e, e', sync) h'
          | inl (checks, e') ↦
              let good_owner : valid_name q.owner ≡ true = ground (arith, fine) in
              let good_repository : valid_name q.repository ≡ true = ground (arith, fine) in
              rw (fine, e, e', sync)
                (conclude-Holds P E (sync_all server d c q checks commits start) (
                  sync_all-Keeps P E server d c q checks commits
                    (g checks commits good_owner good_repository e' e) start h))
        ]
      ]
    ]

-- One property for both ends holds at the end.
pub HoldsRun-Holds {ℓ} :
    {A : Type ℓ} (P : Property) (run : Progress × Fails A) → HoldsRun P P run → Holds P run.0
HoldsRun-Holds P (p, err e) h = h
HoldsRun-Holds P (p, ok a) h = h
