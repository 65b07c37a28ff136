-- ===== src/GithubSync/Examples.antt =====
-- Tests of the GitHub client, and its theorems at concrete inputs.
use Prim.Native.Nat.{◌*◌}
use codex_commons.Prelude.{
  ℕ, ◌+◌, ◌≤◌, ◌<◌, ◌≡◌, ◌⊎◌, String, true, false, Option, none, some, List, [], ◌∷◌, map, refl,
  arith,
}
use codex_commons.Prelude.Lists.{length, contains, All}
use codex_commons.Prelude.Table.{lookup}
use codex_commons.Prelude.Tests.{str_eq}
use codex_commons.Prelude.Text.{trim_space, str_ltb}
use codex_commons.Prelude.Results.{ok, err}
use codex_commons.Prelude.Int.{pos}
use codex_commons.Prelude.Text.{to_lower, all_chars}
use codex_commons.GithubSync.Types.{invalid, Result, Request}
use codex_commons.GithubSync.Strings.{itoa, split_query, trim_right_slash}
use codex_commons.GithubSync.Config.{
  Url, Config, Client, new_client, accept_base, with_defaults, invalid_bounds, is_relative,
  client_of,
}
use codex_commons.GithubSync.Config.Limits.{IsBounded, new_client-IsBounded}
use codex_commons.GithubSync.References.{
  bounded_shas, collect_shas, insert_sha, valid_sha, normal_sha, is_sha_char, valid_name,
  is_name_char,
}
use codex_commons.GithubSync.References.Sets.{IsSetOf, bounded_shas_cases}
use codex_commons.GithubSync.Wire.{Decoders}
use codex_commons.GithubSync.Action.{Exchange, Progress}
use codex_commons.GithubSync.Get.{
  Server, request_of, exchange, get, receive, read_body, read_all, read_limit, decode_body,
  response_error, is_rate_limited,
}
use codex_commons.GithubSync.Client.{
  sync, sync_all, sync_pages, sync_issues, sync_pulls, sync_checks, sync_repository, sync_commit,
  for_each, collection_path, close_result,
}
use codex_commons.GithubSync.Client.Scope.{IsInScope, sync-IsInScope}
use codex_commons.GithubSync.Client.Counts.{TellsOf, sync_receipt}
use codex_commons.GithubSync.Client.Bounds.{sync_bounded}

abbrev base : String → Option Url
base text = some (record {
  scheme = "https";
  host = "api.github.com";
  hostname = "api.github.com";
  path = text;
  raw_query = "";
  fragment = "";
})

abbrev config : Config
config = record {
  base_url = "";
  token = "";
  user_agent = "";
  per_page = pos 2;
  max_pages = pos 2;
  max_body_bytes = pos 8;
  max_references = pos 1;
}

abbrev url : Url
url = record {
  scheme = "https";
  host = "api.github.com";
  hostname = "api.github.com";
  path = "";
  raw_query = "";
  fragment = "";
}

abbrev client : Client
client = client_of url (record config { user_agent = "codex-commons-githubsync/1" })

makes_client : new_client base (λ host. false) config ≡ ok client
unfolding new_client accept_base base is_relative with_defaults invalid_bounds str_eq
    trim_right_slash
makes_client = refl

new_client-IsBounded_example : IsBounded (λ host. false) client
new_client-IsBounded_example = new_client-IsBounded base (λ host. false) config client makes_client

abbrev references : List String
references = "ABCDEF0" ∷ " abcdef0" ∷ []

bounded_shas_cases_example :
    ((set : List String) × (bounded_shas references 2 ≡ ok set)
      × IsSetOf references set
      × (length set ≤ 2))
    ⊎ ((bounded_shas references 2 ≡ err invalid)
        × ((2 < length references)
            ⊎ ((x : String) × (contains (map normal_sha references) x ≡ true)
                × (valid_sha x ≡ false))))
bounded_shas_cases_example = bounded_shas_cases references 2

folds_case : bounded_shas references 2 ≡ ok ("abcdef0" ∷ [])
unfolding bounded_shas collect_shas insert_sha valid_sha normal_sha is_sha_char all_chars to_lower
    trim_space str_eq str_ltb
folds_case = refl

-- A server that has nothing new.
abbrev quiet : Server
quiet = record {
  new_request_err = λ request. none;
  respond = λ log request. ok (record {
    status = 304;
    etag = "";
    last_modified = "";
    rate_limit_remaining = "";
    rate_limit_reset = "";
    retry_after = "";
    body = [];
    read_error = none;
  });
  escaped_path = λ path. path;
}

abbrev no_decoders : Decoders
no_decoders = record {
  repository = λ s. none;
  issues = λ s. none;
  pulls = λ s. none;
  checks = λ s. none;
  commit = λ s. none;
}

abbrev request : Request
request = record {
  owner = "ajhcs";
  repository = "codex-commons";
  validators = ("issues:1", record { etag = "e"; last_modified = ""; has_next = true }) ∷ [];
  referenced_commits = "abcdef0" ∷ [];
  check_shas = [];
}

sync_bounded_example :
    length (sync quiet no_decoders client request).0.log
    ≤ 1 + 2 * client.max_pages + client.max_references * client.max_pages + client.max_references
sync_bounded_example = sync_bounded quiet no_decoders client request

sync-IsInScope_example :
    All (IsInScope client request) (sync quiet no_decoders client request).0.log
sync-IsInScope_example = sync-IsInScope quiet no_decoders client request

asked_five_times : length (sync quiet no_decoders client request).0.log ≡ 5
unfolding sync sync_all sync_pages sync_issues sync_pulls sync_checks sync_repository sync_commit
    for_each collection_path close_result get exchange receive request_of valid_name is_name_char
    all_chars bounded_shas collect_shas insert_sha valid_sha normal_sha is_sha_char to_lower
    trim_space str_eq str_ltb itoa split_query lookup
asked_five_times = refl

-- A server with a new description of the repository, of two bytes, and nothing else.
abbrev status_after : List Exchange → ℕ
status_after [] = 200
status_after (e ∷ log) = 304

abbrev news : Server
news = record {
  new_request_err = λ request. none;
  respond = λ log request. ok (record {
    status = status_after log;
    etag = "n";
    last_modified = "";
    rate_limit_remaining = "";
    rate_limit_reset = "";
    retry_after = "";
    body = 123 ∷ 125 ∷ [];
    read_error = none;
  });
  escaped_path = λ path. path;
}

abbrev repository_decoder : Decoders
repository_decoder = record no_decoders {
  repository = λ s. some (
    record {
      id = pos 1;
      full_name = "ajhcs/codex-commons";
      description = "";
      default_branch = "main";
      is_private = false;
      archived = false;
      updated_at = pos 0;
      html_url = "";
    },
    true,
  );
}

abbrev last_progress : Progress
last_progress = (sync news repository_decoder client request).0

abbrev result_of : Progress → Result
result_of p = close_result p.out

news_result :
    sync news repository_decoder client request ≡ (last_progress, ok (result_of last_progress))
unfolding sync sync_all sync_pages sync_issues sync_pulls sync_checks sync_repository sync_commit
    for_each collection_path close_result get exchange receive request_of valid_name is_name_char
    all_chars bounded_shas collect_shas insert_sha valid_sha normal_sha is_sha_char to_lower
    trim_space str_eq str_ltb itoa split_query lookup read_body read_all read_limit decode_body
    response_error is_rate_limited
news_result = refl

two_bytes :
    ((result_of last_progress).receipt.body_bytes ≡ 2)
    × ((result_of last_progress).receipt.requests ≡ 5)
    × ((result_of last_progress).receipt.unchanged ≡ false)
unfolding sync sync_all sync_pages sync_issues sync_pulls sync_checks sync_repository sync_commit
    for_each collection_path close_result get exchange receive request_of valid_name is_name_char
    all_chars bounded_shas collect_shas insert_sha valid_sha normal_sha is_sha_char to_lower
    trim_space str_eq str_ltb itoa split_query lookup read_body read_all read_limit decode_body
    response_error is_rate_limited
two_bytes = (refl, refl, refl)

sync_receipt_example : TellsOf client last_progress.log (result_of last_progress)
sync_receipt_example =
    sync_receipt news repository_decoder client request last_progress (result_of last_progress)
      (omega arith) news_result
