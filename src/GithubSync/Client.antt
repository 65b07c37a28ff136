-- ===== src/GithubSync/Client.antt =====
-- Sync of internal/githubsync/client.go: the requests of one synchronisation, in order.
pub mod Invariants
pub mod Induction
pub mod Scope
pub mod Counts
pub mod Bounds
use Prim.Native.String
use codex_commons.Prelude.{
  ℕ, zero, suc, ◌+◌, String, Bool, true, false, Option, none, some, List, [], ◌∷◌, ◌++◌, ◌&&◌, ◌||◌,
  not, map,
}
use codex_commons.Prelude.Tests.{ltb, ◌==◌, str_eq, if◌then◌else◌}
use codex_commons.Prelude.Table.{Table}
use codex_commons.Prelude.Results.{ok, err}
use codex_commons.GithubSync.Types.{
  Err, invalid, Fails, Validator, Request, Page, Repository, Issue, PullRequest, CheckRun, Commit,
  Receipt, Result, empty_receipt, only_receipt,
}
use codex_commons.GithubSync.Strings.{itoa}
use codex_commons.GithubSync.Config.{Client}
use codex_commons.GithubSync.References.{valid_name, bounded_shas}
use codex_commons.GithubSync.Wire.{
  IssueWire, PullWire, ChecksWire, CommitWire, issue_items, pull_model, check_model, commit_model,
  Kind, Decoders, repository_kind, issues_kind, pulls_kind, checks_kind, commit_kind,
}
use codex_commons.GithubSync.Action.{Progress, Action, ◌>>=◌, ◌>>◌, done, answer, fail, modify}
use codex_commons.GithubSync.Get.{Server, get}

abbrev pub append : String → String → String
append s t = String.◌++◌ s t

unfoldable pub collection_path : Client → String → ℕ → String → String
collection_path c path page extra =
    let paging = append "per_page=" (append (itoa c.per_page) (append "&page=" (itoa page))) in
    if str_eq extra ""
    then append path (append "?" paging)
    else append path (append "?" (append extra (append "&" paging)))

abbrev pub by_update : String
by_update = "state=open&sort=updated&direction=desc"

-- `if changed { ... }`.
abbrev pub if_changed : {A : Type 0} → (A → Result → Result) → Option A → Action (Unit {0})
if_changed add none = done
if_changed add (some value) = modify (add value)

abbrev pub add_repository : Repository → Result → Result
add_repository repo r = record r { repository = some repo }

abbrev pub add_issues : String → List IssueWire → Result → Result
add_issues key wire r = record r {
  issues = r.issues ++ record { key = key; items = issue_items wire } ∷ [];
}

abbrev pub add_pulls : String → List PullWire → Result → Result
add_pulls key wire r = record r {
  pull_requests = r.pull_requests ++ record { key = key; items = map pull_model wire } ∷ [];
}

abbrev pub add_checks : String → ChecksWire → Result → Result
add_checks key wire r = record r {
  checks = r.checks ++ record { key = key; items = map check_model (wire.check_runs) } ∷ [];
}

abbrev pub add_commit : String → CommitWire → Result → Result
add_commit key wire r = record r {
  commits = r.commits ++ record { key = key; items = commit_model wire ∷ [] } ∷ [];
}

abbrev pub truncate : Result → Result
truncate r = record r { receipt = record (r.receipt) { truncated = true } }

module _ (server : Server) (c : Client) (validators : Table Validator) where
  -- The loop that syncIssues, syncPulls and syncChecks share, with `left` pages still allowed.
  unfoldable pub sync_pages :
      {A : Type 0}
      → Kind A
      → (String → A → Result → Result)
      → String
      → String
      → String
      → ℕ
      → ℕ
      → Action (Unit {0})
  sync_pages k add path extra name zero page = modify truncate
  sync_pages k add path extra name (suc left) page =
      let key = append name (itoa page) in
      let rest = sync_pages k add path extra name left (suc page) in
      do
        found ← get c k key server (collection_path c path page extra) validators
        if_changed (add key) found.0
        if found.1 then rest else done

  unfoldable pub sync_issues : Decoders → String → Action (Unit {0})
  sync_issues d path = sync_pages (issues_kind d) add_issues path by_update "issues:" c.max_pages 1

  unfoldable pub sync_pulls : Decoders → String → Action (Unit {0})
  sync_pulls d path = sync_pages (pulls_kind d) add_pulls path by_update "pulls:" c.max_pages 1

  unfoldable pub sync_checks : Decoders → String → String → Action (Unit {0})
  sync_checks d path sha =
      sync_pages (checks_kind d) add_checks path "filter=latest" (append "checks:" (append sha ":"))
        c.max_pages 1

  unfoldable pub sync_repository : Decoders → String → Action (Unit {0})
  sync_repository d root = do
    found ← get c (repository_kind d) "repository" server root validators
    if_changed add_repository found.0

  unfoldable pub sync_commit : Decoders → String → String → Action (Unit {0})
  sync_commit d path sha = do
    found ← get c (commit_kind d) (append "commit:" sha) server path validators
    if_changed (add_commit (append "commit:" sha)) found.0

-- `for _, sha := range shas { if err := ...; err != nil { return err } }`
unfoldable pub for_each : (String → Action (Unit {0})) → List String → Action (Unit {0})
for_each run [] = done
for_each run (sha ∷ shas) = let rest = for_each run shas in do run sha; rest

abbrev pub root_of : Request → String
root_of q = append "/repos/" (append q.owner (append "/" q.repository))

abbrev pub commit_path : String → String → String
commit_path root sha = append root (append "/commits/" sha)

-- All the requests, for the allow lists of checks and commits.
unfoldable pub sync_all :
    Server → Decoders → Client → Request → List String → List String → Action (Unit {0})
sync_all server d c q checks commits = do
  sync_repository server c q.validators d (root_of q)
  sync_issues server c q.validators d (append (root_of q) "/issues")
  sync_pulls server c q.validators d (append (root_of q) "/pulls")
  for_each
      (λ sha.
        sync_checks server c q.validators d
          (append (root_of q) (append "/commits/" (append sha "/check-runs"))) sha)
      checks
  for_each (λ sha. sync_commit server c q.validators d (commit_path (root_of q) sha) sha) commits

abbrev pub start : Progress
start = record { log = []; out = record (only_receipt empty_receipt) { untrusted = true } }

-- `Receipt.Unchanged`, and the bare receipt of a result with nothing new.
unfoldable pub close_result : Result → Result
close_result r =
    let unchanged = ltb 0 (r.receipt.requests) && r.receipt.requests == r.receipt.not_modified in
    let receipt = record (r.receipt) { unchanged = unchanged } in
    if unchanged then only_receipt receipt else record r { receipt = receipt }

-- What Sync returns: the closed result, or the error, with the record of what was sent.
abbrev pub conclude : Progress × Fails (Unit {0}) → Progress × Fails Result
conclude (p, err e) = (p, err e)
conclude (p, ok finished) = (p, ok (close_result p.out))

-- Nothing is sent for a request that is not valid.
unfoldable pub sync : Server → Decoders → Client → Request → Progress × Fails Result
sync server d c q =
    if not (valid_name q.owner) || not (valid_name q.repository)
    then (start, err invalid)
    else elim (bounded_shas q.referenced_commits c.max_references) [
      | err e ↦ (start, err e)
      | ok commits ↦ elim (bounded_shas q.check_shas c.max_references) [
        | err e ↦ (start, err e)
        | ok checks ↦ conclude (sync_all server d c q checks commits start)
      ]
    ]
