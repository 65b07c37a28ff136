-- ===== src/GithubSync/Wire.antt =====
-- The wire types of internal/githubsync/client.go, their conversions, and what a response may decode to.
use codex_commons.Prelude.{ℕ, String, Bool, Option, List, [], ◌∷◌}
use codex_commons.Prelude.Tests.{is_none, if◌then◌else◌}
use codex_commons.Prelude.Lists.{length}
use codex_commons.Prelude.Int.{ℤ}
use codex_commons.Prelude.Bytes.{Bytes}
use codex_commons.GithubSync.Types.{Repository, Issue, PullRequest, CheckRun, Commit}

-- The field of a nested struct carries the name of that struct.
pub record IssueWire : Type 0 where
  pub id : ℤ
  pub number : ℤ
  pub title : String
  pub state : String
  pub updated_at : ℤ
  pub html_url : String
  pub user_login : String
  pub pull_request : Option String

pub record PullWire : Type 0 where
  pub id : ℤ
  pub number : ℤ
  pub title : String
  pub state : String
  pub draft : Bool
  pub updated_at : ℤ
  pub html_url : String
  pub head_sha : String
  pub base_ref : String

pub record CheckWire : Type 0 where
  pub id : ℤ
  pub name : String
  pub status : String
  pub conclusion : String
  pub started_at : ℤ
  pub completed_at : ℤ
  pub html_url : String

pub record ChecksWire : Type 0 where
  pub check_runs : List CheckWire

pub record CommitWire : Type 0 where
  pub sha : String
  pub html_url : String
  pub commit_message : String
  pub commit_author_name : String
  pub commit_author_email : String
  pub commit_author_date : ℤ

unfoldable pub issue_model : IssueWire → Issue
issue_model w = record {
  id = w.id;
  number = w.number;
  title = w.title;
  state = w.state;
  author = w.user_login;
  updated_at = w.updated_at;
  html_url = w.html_url;
}

unfoldable pub pull_model : PullWire → PullRequest
pull_model w = record {
  id = w.id;
  number = w.number;
  title = w.title;
  state = w.state;
  draft = w.draft;
  head_sha = w.head_sha;
  base_ref = w.base_ref;
  updated_at = w.updated_at;
  html_url = w.html_url;
}

unfoldable pub check_model : CheckWire → CheckRun
check_model w = record {
  id = w.id;
  name = w.name;
  status = w.status;
  conclusion = w.conclusion;
  started_at = w.started_at;
  completed_at = w.completed_at;
  html_url = w.html_url;
}

unfoldable pub commit_model : CommitWire → Commit
commit_model w = record {
  sha = w.sha;
  message = w.commit_message;
  author_name = w.commit_author_name;
  author_email = w.commit_author_email;
  authored_at = w.commit_author_date;
  html_url = w.html_url;
}

-- The loop of syncIssues over a page: GitHub lists pull requests among the issues.
unfoldable pub issue_items : List IssueWire → List Issue
issue_items [] = []
issue_items (w ∷ ws) =
    let rest = issue_items ws in if is_none w.pull_request then issue_model w ∷ rest else rest

-- What json.Decoder reads from a body into a value of one type: the value, and whether the input ends
-- behind it; or nothing, if that is no such value.
abbrev pub Decode {ℓ} : Type ℓ → Type ℓ
Decode A = Bytes → Option (A × Bool)

pub record Decoders : Type 0 where
  pub repository : Decode Repository
  pub issues : Decode (List IssueWire)
  pub pulls : Decode (List PullWire)
  pub checks : Decode ChecksWire
  pub commit : Decode CommitWire

-- A type that `get` decodes into, with its case of collectionLength.
pub record Kind (A : Type 0) : Type 0 where
  pub decode : Decode A
  pub collection_length : A → ℕ

module _ (d : Decoders) where
  abbrev pub repository_kind : Kind Repository
  repository_kind = record { decode = d.repository; collection_length = λ r. 0 }

  abbrev pub issues_kind : Kind (List IssueWire)
  issues_kind = record { decode = d.issues; collection_length = length }

  abbrev pub pulls_kind : Kind (List PullWire)
  pulls_kind = record { decode = d.pulls; collection_length = length }

  abbrev pub checks_kind : Kind ChecksWire
  checks_kind = record { decode = d.checks; collection_length = λ w. length w.check_runs }

  abbrev pub commit_kind : Kind CommitWire
  commit_kind = record { decode = d.commit; collection_length = λ w. 0 }
