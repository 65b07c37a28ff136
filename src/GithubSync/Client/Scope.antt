-- ===== src/GithubSync/Client/Scope.antt =====
-- Sync sends nothing but the requests of its allow lists, and only for a valid repository.
use codex_commons.Prelude.{ℕ, ◌≡◌, String, true, Option, List, refl}
use codex_commons.Prelude.Lists.{All}
use codex_commons.Prelude.Results.{ok}
use codex_commons.GithubSync.Types.{Validator, Request}
use codex_commons.GithubSync.Config.{Client}
use codex_commons.GithubSync.References.{valid_name, bounded_shas}
use codex_commons.GithubSync.Wire.{Decoders}
use codex_commons.GithubSync.Action.{Exchange}
use codex_commons.GithubSync.Get.{Server, request_of}
use codex_commons.GithubSync.Get.Steps.{Property, get-Keeps}
use codex_commons.GithubSync.Client.{sync}
use codex_commons.GithubSync.Client.Invariants.{IsAsked}
use codex_commons.GithubSync.Client.Induction.{sync-Holds, HoldsRun-Holds}

-- The exchange is one that the request allows: the repository is named properly, and the path is
-- asked for by lists that the bounds let through.
pub record IsInScope (c : Client) (q : Request) (e : Exchange) : Type 0 where
  pub checks : List String
  pub commits : List String
  pub path : String
  pub prior : Validator
  pub owner_valid : valid_name q.owner ≡ true
  pub repository_valid : valid_name q.repository ≡ true
  pub checks_bounded : bounded_shas q.check_shas c.max_references ≡ ok checks
  pub commits_bounded : bounded_shas q.referenced_commits c.max_references ≡ ok commits
  pub asked : IsAsked c q checks commits path
  pub shape : e.request ≡ request_of c path prior

-- Whatever the server answers, every request that a synchronisation sends is for a valid owner and
-- repository, and for one of the paths of the allow lists: the repository itself, a page of its issues
-- or pull requests within the page limit, a page of the check runs of a listed SHA, or a listed commit.
pub sync-IsInScope :
    (server : Server) (d : Decoders) (c : Client) (q : Request)
    → All (IsInScope c q) (sync server d c q).0.log
sync-IsInScope server d c q =
    let in_scope : Property = λ log r n b. All (IsInScope c q) log in
    HoldsRun-Holds in_scope (sync server d c q) (
      sync-Holds in_scope in_scope server d c q tt tt (λ checks commits v w e e' A k key path asked.
        let scope : (prior : Validator) (status : Option ℕ) (size : ℕ)
            → IsInScope c q
                (record { request = request_of c path prior; status = status; size = size }) =
          λ prior status size. record {
            checks = checks;
            commits = commits;
            path = path;
            prior = prior;
            owner_valid = v;
            repository_valid = w;
            checks_bounded = e;
            commits_bounded = e';
            asked = asked;
            shape = refl;
          } in
        get-Keeps c k key in_scope in_scope server path q.validators (λ log r n b h. h)
          (λ log r n b prior h. (scope prior _ _, h))
          (λ log r n b size prior h. (scope prior _ _, h))
          (λ log r n b b' status size prior f bound h. (scope prior _ _, h))
          (λ log r n b i status size prior f small whole h. (scope prior _ _, h))))
