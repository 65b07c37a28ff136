-- ===== src/GithubSync/Client/Invariants.antt =====
-- What every request of a synchronisation keeps holds of the whole synchronisation.
use codex_commons.Prelude.{
  ℕ, zero, suc, ◌+◌, ◌≤◌, ◌<◌, ◌≡◌, String, Bool, true, false, Option, none, some, List, [], ◌∷◌,
  arith,
}
use codex_commons.Prelude.Tests.{str_eq_refl, if◌then◌else◌}
use codex_commons.Prelude.Lists.{contains}
use codex_commons.Prelude.Table.{Table}
use codex_commons.Prelude.Results.{ok, err}
use codex_commons.GithubSync.Types.{Fails, Validator, Request, Result}
use codex_commons.GithubSync.Strings.{itoa}
use codex_commons.GithubSync.Config.{Client}
use codex_commons.GithubSync.Wire.{
  Kind, Decoders, repository_kind, issues_kind, pulls_kind, checks_kind, commit_kind,
}
use codex_commons.GithubSync.Action.{Progress, Action, then_run, ◌>>=◌, ◌>>◌, done, modify}
use codex_commons.GithubSync.Get.{Server, get}
use codex_commons.GithubSync.Get.Steps.{Property, Holds, HoldsRun}
use codex_commons.GithubSync.Client.{
  append, add_repository, add_issues, add_pulls, add_checks, add_commit, collection_path, by_update,
  if_changed, sync_pages, sync_issues, sync_pulls, sync_checks, sync_repository, sync_commit,
  for_each, root_of, commit_path, sync_all,
}

-- The paths that a synchronisation asks for: the repository, the allowed pages of its issues, of its
-- pull requests and of the checks of the listed commits, and the commits of the other list.
pub data IsAsked (c : Client) (q : Request) (checks commits : List String) : String → Type 0 where
  the_repository : IsAsked c q checks commits (root_of q)
  issue_page :
      (page : ℕ)
      → 1 ≤ page
      → page ≤ c.max_pages
      → IsAsked c q checks commits (collection_path c (append (root_of q) "/issues") page by_update)
  pull_page :
      (page : ℕ)
      → 1 ≤ page
      → page ≤ c.max_pages
      → IsAsked c q checks commits (collection_path c (append (root_of q) "/pulls") page by_update)
  check_page :
      (sha : String) (page : ℕ)
      → contains checks sha ≡ true
      → 1 ≤ page
      → page ≤ c.max_pages
      → IsAsked c q checks commits (
          collection_path c
            (append (root_of q) (append "/commits/" (append sha "/check-runs")))
            page
            "filter=latest")
  the_commit :
      (sha : String)
      → contains commits sha ≡ true
      → IsAsked c q checks commits (commit_path (root_of q) sha)

-- Where `P` holds before an action, it holds behind its answer, and `E` where it fails.
module _ (P E : Property) where
  abbrev pub Keeps {ℓ} : {A : Type ℓ} → Action A → Type 0
  Keeps m = (p : Progress) → Holds P p → HoldsRun P E (m p)

  then_run-Keeps {α β} :
      {A : Type α} {B : Type β} (f : A → Action B) (r : Progress × Fails A)
      → HoldsRun P E r
      → ((a : A) → Keeps (f a))
      → HoldsRun P E (then_run f r)
  then_run-Keeps f (p, err e) i h = i
  then_run-Keeps f (p, ok a) i h = h a p i

  pub >>=-Keeps {α β} :
      {A : Type α} {B : Type β} (m : Action A) (f : A → Action B)
      → Keeps m
      → ((a : A) → Keeps (f a))
      → Keeps (m >>= f)
  >>=-Keeps m f h k p i = then_run-Keeps f (m p) (h p i) k

  followed-Keeps : (m n : Action (Unit {0})) → Keeps m → Keeps n → Keeps (m >> n)
  followed-Keeps m n h k = >>=-Keeps m (λ u. n) h (λ u. k)

  if-Keeps : (b : Bool) (m : Action (Unit {0})) → Keeps m → Keeps (if b then m else done)
  if-Keeps true m h = h
  if-Keeps false m h = λ p i. i

  if_changed-Keeps :
      {A : Type 0} (add : A → Result → Result) (found : Option A)
      → ((a : A) → Keeps (modify (add a)))
      → Keeps (if_changed add found)
  if_changed-Keeps add none h = λ p i. i
  if_changed-Keeps add (some a) h = h a

  for_each-Keeps :
      (run : String → Action (Unit {0})) (shas : List String)
      → ((sha : String) → contains shas sha ≡ true → Keeps (run sha))
      → Keeps (for_each run shas)
  unfolding for_each
  for_each-Keeps run [] h = λ p i. i
  for_each-Keeps run (sha ∷ shas) h =
      >>=-Keeps (run sha) (λ u. for_each run shas) (h sha (ground (arith, str_eq_refl sha)))
        (λ u. for_each-Keeps run shas (λ s m. h s (ground (arith, m))))

  module _ (server : Server) (c : Client) (validators : Table Validator) where
    sync_pages-Keeps :
        {A : Type 0} (k : Kind A) (add : String → A → Result → Result) (path extra name : String)
        (left page : ℕ)
        → ((key : String) (a : A) → Keeps (modify (add key a)))
        → ((key : String) (n : ℕ)
            → page ≤ n
            → n < page + left
            → Keeps (get c k key server (collection_path c path n extra) validators))
        → Keeps (sync_pages server c validators k add path extra name left page)
    unfolding sync_pages
    sync_pages-Keeps k add path extra name zero page a g = λ p i. i
    sync_pages-Keeps {A = A} k add path extra name (suc left) page a g =
        let key = append name (itoa page) in
        let rest = sync_pages server c validators k add path extra name left (suc page) in
        let rest_keeps =
          sync_pages-Keeps k add path extra name left (suc page) a
            (λ later n low high. g later n (omega arith) (omega arith)) in
        >>=-Keeps (get c k key server (collection_path c path page extra) validators)
          (λ (found : Option A × Bool).
            if_changed (add key) found.0 >>= λ u. if found.1 then rest else done)
          (g key page (omega arith) (omega arith))
          (λ (found : Option A × Bool).
            >>=-Keeps (if_changed (add key) found.0) (λ u. if found.1 then rest else done)
              (if_changed-Keeps (add key) found.0 (a key)) (λ u. if-Keeps found.1 rest rest_keeps))

    one_page-Keeps :
        {A : Type 0} (k : Kind A) (add : A → Result → Result) (key path : String)
        → ((a : A) → Keeps (modify (add a)))
        → Keeps (get c k key server path validators)
        → Keeps (get c k key server path validators >>= λ found. if_changed add found.0)
    one_page-Keeps {A = A} k add key path a g =
        >>=-Keeps (get c k key server path validators)
          (λ (found : Option A × Bool). if_changed add found.0) g
          (λ (found : Option A × Bool). if_changed-Keeps add found.0 a)

  -- Every request of the allow lists keeps the property, so all of them do.
  pub sync_all-Keeps :
      (server : Server) (d : Decoders) (c : Client) (q : Request) (checks commits : List String)
      → ((A : Type 0) (k : Kind A) (key path : String)
          → IsAsked c q checks commits path
          → Keeps (get c k key server path q.validators))
      → Keeps (sync_all server d c q checks commits)
  unfolding sync_all sync_repository sync_issues sync_pulls sync_checks sync_commit
  sync_all-Keeps server d c q checks commits g =
      let v = q.validators in
      let root = root_of q in
      let check_run_action : String → Action (Unit {0}) = λ sha.
        sync_checks server c v d (append root (append "/commits/" (append sha "/check-runs")))
          sha in
      let commit_action : String → Action (Unit {0}) =
        λ sha. sync_commit server c v d (commit_path root sha) sha in
      let repository =
        one_page-Keeps server c v (repository_kind d) add_repository "repository" root (λ a p i. i)
          (g _ (repository_kind d) "repository" root the_repository) in
      let issues =
        sync_pages-Keeps server c v (issues_kind d) add_issues (append root "/issues") by_update
          "issues:" c.max_pages 1 (λ key a p i. i)
          (λ key n low high. g _ (issues_kind d) key _ (issue_page n low (omega arith))) in
      let pulls =
        sync_pages-Keeps server c v (pulls_kind d) add_pulls (append root "/pulls") by_update
          "pulls:" c.max_pages 1 (λ key a p i. i)
          (λ key n low high. g _ (pulls_kind d) key _ (pull_page n low (omega arith))) in
      let check_runs = for_each-Keeps check_run_action checks (λ sha m.
        sync_pages-Keeps server c v (checks_kind d) add_checks
          (append root (append "/commits/" (append sha "/check-runs"))) "filter=latest"
          (append "checks:" (append sha ":")) c.max_pages 1 (λ key a p i. i)
          (λ key n low high. g _ (checks_kind d) key _ (check_page sha n m low (omega arith)))) in
      let commit_metadata = for_each-Keeps commit_action commits (λ sha m.
        one_page-Keeps server c v (commit_kind d) (add_commit (append "commit:" sha))
          (append "commit:" sha) (commit_path root sha) (λ a p i. i)
          (g _ (commit_kind d) _ _ (the_commit sha m))) in
      let first = sync_repository server c v d root in
      let second = sync_issues server c v d (append root "/issues") in
      let third = sync_pulls server c v d (append root "/pulls") in
      let fourth = for_each check_run_action checks in
      let fifth = for_each commit_action commits in
      followed-Keeps first (second >> (third >> (fourth >> fifth))) repository (
        followed-Keeps second (third >> (fourth >> fifth)) issues (
          followed-Keeps third (fourth >> fifth) pulls
            (followed-Keeps fourth fifth check_runs commit_metadata)))
