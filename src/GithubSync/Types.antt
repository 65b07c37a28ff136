-- ===== src/GithubSync/Types.antt =====
-- internal/githubsync/types.go: requests, results, remote records and errors.
-- A time is its distance from Go's zero time, and a nil map is an empty table.
use codex_commons.Prelude.{ℕ, String, Bool, false, Option, none, List, []}
use codex_commons.Prelude.Results.{Fallible}
use codex_commons.Prelude.Table.{Table}
use codex_commons.Prelude.Int.{ℤ}

-- The fields of a RateLimitError, but for the message that they print.
pub record RateLimit : Type 0 where
  pub status : ℕ
  pub remaining : ℤ
  pub reset : ℤ
  pub retry_after : ℤ

-- An error that wraps a sentinel is the sentinel; `transport` is any error that net/http or io answers.
pub data Err : Type 0 where
  invalid too_large malformed unauthorized not_found : Err
  rate_limited : RateLimit → Err
  http_error : ℕ → String → Err
  transport : String → Err

abbrev pub Fails {ℓ} : Type ℓ → Type ℓ
Fails A = Fallible Err A

pub record Validator : Type 0 where
  pub etag : String
  pub last_modified : String
  pub has_next : Bool

pub record Request : Type 0 where
  pub owner : String
  pub repository : String
  pub validators : Table Validator
  pub referenced_commits : List String
  pub check_shas : List String

pub record Page {ℓ} (T : Type ℓ) : Type ℓ where
  pub key : String
  pub items : List T

pub record Repository : Type 0 where
  pub id : ℤ
  pub full_name : String
  pub description : String
  pub default_branch : String
  pub is_private : Bool
  pub archived : Bool
  pub updated_at : ℤ
  pub html_url : String

pub record Issue : Type 0 where
  pub id : ℤ
  pub number : ℤ
  pub title : String
  pub state : String
  pub author : String
  pub updated_at : ℤ
  pub html_url : String

pub record PullRequest : Type 0 where
  pub id : ℤ
  pub number : ℤ
  pub title : String
  pub state : String
  pub draft : Bool
  pub head_sha : String
  pub base_ref : String
  pub updated_at : ℤ
  pub html_url : String

pub record CheckRun : Type 0 where
  pub id : ℤ
  pub name : String
  pub status : String
  pub conclusion : String
  pub started_at : ℤ
  pub completed_at : ℤ
  pub html_url : String

pub record Commit : Type 0 where
  pub sha : String
  pub message : String
  pub author_name : String
  pub author_email : String
  pub authored_at : ℤ
  pub html_url : String

-- The counters are natural numbers: what a synchronisation sends and holds in memory is far below the
-- ends of int and int64.
pub record Receipt : Type 0 where
  pub unchanged : Bool
  pub requests : ℕ
  pub not_modified : ℕ
  pub body_bytes : ℕ
  pub truncated : Bool

pub record Result : Type 0 where
  pub untrusted : Bool
  pub repository : Option Repository
  pub issues : List (Page Issue)
  pub pull_requests : List (Page PullRequest)
  pub checks : List (Page CheckRun)
  pub commits : List (Page Commit)
  pub validators : Table Validator
  pub receipt : Receipt

abbrev pub empty_receipt : Receipt
empty_receipt = record {
  unchanged = false;
  requests = 0;
  not_modified = 0;
  body_bytes = 0;
  truncated = false;
}

abbrev pub only_receipt : Receipt → Result
only_receipt receipt = record {
  untrusted = false;
  repository = none;
  issues = [];
  pull_requests = [];
  checks = [];
  commits = [];
  validators = [];
  receipt = receipt;
}
