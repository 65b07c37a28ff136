-- ===== src/GithubSync/Client/Bounds.antt =====
-- How many requests one synchronisation sends at most.
use Prim.Native.Nat.{◌*◌}
use codex_commons.Prelude.{
  ℕ, zero, suc, ◌+◌, ◌≤◌, ◌≡◌, String, Bool, true, false, Option, none, some, List, [], ◌∷◌, arith,
  refl, inl, inr, ◌||◌, not,
}
use codex_commons.Prelude.Tests.{Bool-cases, if◌then◌else◌}
use codex_commons.Prelude.Lists.{length}
use codex_commons.Prelude.Table.{Table}
use codex_commons.Prelude.Results.{ok, err}
use codex_commons.GithubSync.Types.{Fails, Validator, Request, Result}
use codex_commons.GithubSync.Config.{Client}
use codex_commons.GithubSync.References.{valid_name}
use codex_commons.GithubSync.References.Sets.{bounded_shas_cases}
use codex_commons.GithubSync.Wire.{
  Kind, Decoders, repository_kind, issues_kind, pulls_kind, checks_kind, commit_kind,
}
use codex_commons.GithubSync.Action.{Progress, Action, then_run, ◌>>=◌, ◌>>◌, done}
use codex_commons.GithubSync.Get.{Server, get}
use codex_commons.GithubSync.Get.Steps.{length-get}
use codex_commons.GithubSync.Strings.{itoa}
use codex_commons.GithubSync.Client.{
  add_repository, add_issues, add_pulls, add_checks, add_commit, by_update, root_of, commit_path,
  start, conclude, append, collection_path, if_changed, sync_pages, sync_issues, sync_pulls,
  sync_checks, sync_repository, sync_commit, for_each, sync_all, sync,
}

-- An action that sends at most `n` requests.
abbrev Costs {ℓ} : {A : Type ℓ} → ℕ → Action A → Type 0
Costs n m = (p : Progress) → length (m p).0.log ≤ length p.log + n

then_run-Costs {α β} :
    {A : Type α} {B : Type β} (f : A → Action B) (r : Progress × Fails A) (before k : ℕ)
    → length r.0.log ≤ before
    → ((a : A) → Costs k (f a))
    → length (then_run f r).0.log ≤ before + k
then_run-Costs f (p, err e) before k h g = omega arith
then_run-Costs f (p, ok a) before k h g = omega (arith, g a p)

>>=-Costs {α β} :
    {A : Type α} {B : Type β} (n k : ℕ) (m : Action A) (f : A → Action B)
    → Costs n m
    → ((a : A) → Costs k (f a))
    → Costs (n + k) (m >>= f)
>>=-Costs n k m f h g p = omega (arith, then_run-Costs f (m p) (length p.log + n) k (h p) g)

if-Costs : (n : ℕ) (b : Bool) (m : Action (Unit {0})) → Costs n m → Costs n (if b then m else done)
if-Costs n true m h = h
if-Costs n false m h = λ p. omega arith

if_changed-Costs :
    {A : Type 0} (add : A → Result → Result) (found : Option A) → Costs 0 (if_changed add found)
if_changed-Costs add none = λ p. omega arith
if_changed-Costs add (some a) = λ p. omega arith

if_changed_then-Costs :
    {A : Type 0} (n : ℕ) (add : A → Result → Result) (found : Option A) (m : Action (Unit {0}))
    → Costs n m
    → Costs n (if_changed add found >> m)
if_changed_then-Costs n add found m h p =
    omega
      (arith, >>=-Costs 0 n (if_changed add found) (λ u. m) (if_changed-Costs add found) (λ u. h) p)

followed-Costs :
    (n k : ℕ) (a b : Action (Unit {0})) → Costs n a → Costs k b → Costs (n + k) (a >> b)
followed-Costs n k a b h g = >>=-Costs n k a (λ u. b) h (λ u. g)

for_each-Costs :
    (n r : ℕ) (run : String → Action (Unit {0})) (shas : List String)
    → length shas ≤ r
    → ((sha : String) → Costs n (run sha))
    → Costs (r * n) (for_each run shas)
unfolding for_each
for_each-Costs n r run [] l h p = omega arith
for_each-Costs n zero run (sha ∷ shas) l h p = absurd (omega (arith, l))
for_each-Costs n (suc r) run (sha ∷ shas) l h p = omega (
  arith,
  followed-Costs n (r * n) (run sha) (for_each run shas) (h sha)
      (for_each-Costs n r run shas (omega (arith, l)) h) p,
)

module _ (server : Server) (c : Client) (validators : Table Validator) where
  get-Costs :
      {A : Type 0} (k : Kind A) (key path : String) → Costs 1 (get c k key server path validators)
  get-Costs k key path p = omega (arith, length-get c k key server path validators p)

  one_page-Costs :
      {A : Type 0} (k : Kind A) (add : A → Result → Result) (key path : String)
      → Costs 1 (get c k key server path validators >>= λ found. if_changed add found.0)
  one_page-Costs {A = A} k add key path =
      >>=-Costs 1 0 (get c k key server path validators)
        (λ (found : Option A × Bool). if_changed add found.0) (get-Costs k key path)
        (λ (found : Option A × Bool). if_changed-Costs add found.0)

  sync_pages-Costs :
      {A : Type 0} (k : Kind A) (add : String → A → Result → Result) (path extra name : String)
      (left page : ℕ)
      → Costs left (sync_pages server c validators k add path extra name left page)
  unfolding sync_pages
  sync_pages-Costs k add path extra name zero page p = omega arith
  sync_pages-Costs {A = A} k add path extra name (suc left) page p =
      let key = append name (itoa page) in
      let rest = sync_pages server c validators k add path extra name left (suc page) in
      omega (
        arith,
        >>=-Costs 1 left (get c k key server (collection_path c path page extra) validators)
            (λ (found : Option A × Bool).
              if_changed (add key) found.0 >>= λ u. if found.1 then rest else done)
            (get-Costs k key (collection_path c path page extra))
            (λ (found : Option A × Bool).
              if_changed_then-Costs left (add key) found.0 (if found.1 then rest else done) (
                if-Costs left found.1 rest
                  (sync_pages-Costs k add path extra name left (suc page))))
            p,
      )

-- The requests of the repository, two collections, the checks and the commits, at most `r` of each.
abbrev budget : ℕ → ℕ → ℕ
budget pages r = 1 + (pages + (pages + (r * pages + r * 1)))

sync_all-Costs :
    (server : Server) (d : Decoders) (c : Client) (q : Request) (checks commits : List String)
    (r : ℕ)
    → length checks ≤ r
    → length commits ≤ r
    → Costs (budget c.max_pages r) (sync_all server d c q checks commits)
unfolding sync_all sync_repository sync_issues sync_pulls sync_checks sync_commit
sync_all-Costs server d c q checks commits r h k =
    let v = q.validators in
    let root = root_of q in
    let pages = c.max_pages in
    let checks_path =
      λ (sha : String). append root (append "/commits/" (append sha "/check-runs")) in
    let check_run_action : String → Action (Unit {0}) =
      λ sha. sync_checks server c v d (checks_path sha) sha in
    let commit_action : String → Action (Unit {0}) =
      λ sha. sync_commit server c v d (commit_path root sha) sha in
    let first = sync_repository server c v d root in
    let second = sync_issues server c v d (append root "/issues") in
    let third = sync_pulls server c v d (append root "/pulls") in
    let fourth = for_each check_run_action checks in
    let fifth = for_each commit_action commits in
    followed-Costs 1 (pages + (pages + (r * pages + r * 1))) first
      (second >> (third >> (fourth >> fifth)))
      (one_page-Costs server c v (repository_kind d) add_repository "repository" root)
      (followed-Costs pages (pages + (r * pages + r * 1)) second (third >> (fourth >> fifth))
        (sync_pages-Costs server c v (issues_kind d) add_issues (append root "/issues") by_update
          "issues:" pages 1)
        (followed-Costs pages (r * pages + r * 1) third (fourth >> fifth)
          (sync_pages-Costs server c v (pulls_kind d) add_pulls (append root "/pulls") by_update
            "pulls:" pages 1)
          (followed-Costs (r * pages) (r * 1) fourth fifth
            (for_each-Costs pages r check_run_action checks h (λ sha.
              sync_pages-Costs server c v (checks_kind d) add_checks (checks_path sha)
                "filter=latest" (append "checks:" (append sha ":")) pages 1))
            (for_each-Costs 1 r commit_action commits k (λ sha.
              one_page-Costs server c v (commit_kind d) (add_commit (append "commit:" sha))
                (append "commit:" sha) (commit_path root sha))))))

length-conclude : (r : Progress × Fails (Unit {0})) → length (conclude r).0.log ≡ length r.0.log
length-conclude (p, err e) = refl
length-conclude (p, ok u) = refl

-- Whatever the server answers, a synchronisation comes to an end after at most one request for the
-- repository, the page limit's for issues and for pull requests and, for the reference limit's number
-- of SHAs each, the page limit's for checks and one for a commit.
pub sync_bounded :
    (server : Server) (d : Decoders) (c : Client) (q : Request)
    → length (sync server d c q).0.log
      ≤ 1 + 2 * c.max_pages + c.max_references * c.max_pages + c.max_references
unfolding sync
sync_bounded server d c q =
    elim (Bool-cases (not (valid_name q.owner) || not (valid_name q.repository))) [
      | inl bad ↦ rw (bad, sync) (omega arith)
      | inr fine ↦ elim (bounded_shas_cases q.referenced_commits c.max_references) [
        | inr (e, why) ↦ rw (fine, e, sync) (omega arith)
        | inl (commits, e, k, l) ↦ elim (bounded_shas_cases q.check_shas c.max_references) [
          | inr (e', why) ↦ rw (fine, e, e', sync) (omega arith)
          | inl (checks, e', k', l') ↦
              rw (fine, e, e', sync)
                (omega (
                  arith,
                  length-conclude (sync_all server d c q checks commits start),
                  sync_all-Costs server d c q checks commits c.max_references l' l start,
                ))
        ]
      ]
    ]
