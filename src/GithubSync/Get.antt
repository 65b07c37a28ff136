-- ===== src/GithubSync/Get.antt =====
-- get and responseError of internal/githubsync/client.go: one conditional request.
pub mod Bodies
pub mod Steps
use Prim.Native.Nat.{◌^◌}
use Prim.Native.String
use codex_commons.Prelude.{
  ℕ, suc, ◌+◌, ◌-◌, String, Bool, true, false, Option, none, some, List, ◌∷◌, ◌&&◌, ◌||◌, not,
}
use codex_commons.Prelude.Tests.{leb, ltb, ◌==◌, str_eq, if◌then◌else◌}
use codex_commons.Prelude.Lists.{length, take}
use codex_commons.Prelude.Table.{Table, lookup, put}
use codex_commons.Prelude.Results.{ok, err}
use codex_commons.Prelude.Bytes.{Bytes}
use codex_commons.GithubSync.Types.{
  Err, too_large, malformed, unauthorized, not_found, rate_limited, http_error, Fails, Validator,
  Receipt, Result,
}
use codex_commons.GithubSync.Strings.{split_query, atoi, seconds}
use codex_commons.GithubSync.Config.{Client}
use codex_commons.GithubSync.Wire.{Kind}
use codex_commons.GithubSync.Action.{
  HttpRequest, Exchange, Progress, Action, ◌>>=◌, ◌>>◌, answer, fail, modify,
}

-- A header that is missing is "". The body ends with an error if the connection breaks in it.
pub record Response : Type 0 where
  pub status : ℕ
  pub etag : String
  pub last_modified : String
  pub rate_limit_remaining : String
  pub rate_limit_reset : String
  pub retry_after : String
  pub body : Bytes
  pub read_error : Option Err

-- What net/http makes of a request: the error of NewRequestWithContext, if there is one, the response
-- or error of http.Client.Do, which may depend on everything that was sent before, and EscapedPath.
-- Do follows redirects itself: a call of it stands for the request, and answers the last response.
pub record Server : Type 0 where
  pub new_request_err : HttpRequest → Option Err
  pub respond : List Exchange → HttpRequest → Fails Response
  pub escaped_path : String → String

abbrev pub no_validator : Validator
no_validator = record { etag = ""; last_modified = ""; has_next = false }

abbrev pub or_no_validator : Option Validator → Validator
or_no_validator none = no_validator
or_no_validator (some v) = v

-- The bearer token, if there is one.
abbrev pub bearer : String → String
bearer token = if str_eq token "" then "" else String.◌++◌ "Bearer " token

unfoldable pub request_of : Client → String → Validator → HttpRequest
request_of c path prior = record {
  path = String.◌++◌ c.base.path (split_query path).0;
  query = (split_query path).1;
  if_none_match = prior.etag;
  if_modified_since = prior.last_modified;
  authorization = bearer c.token;
  user_agent = c.user_agent;
}

-- 429, or 403 with an exhausted budget or a Retry-After.
unfoldable pub is_rate_limited : Response → Bool
is_rate_limited resp =
    resp.status == 429
    || resp.status == 403
      && (str_eq resp.rate_limit_remaining "0" || not (str_eq resp.retry_after ""))

unfoldable pub response_error : Response → String → Option Err
response_error resp path =
    if is_rate_limited resp
    then some (
        rate_limited (record {
          status = resp.status;
          remaining = atoi resp.rate_limit_remaining;
          reset = atoi resp.rate_limit_reset;
          retry_after = seconds (atoi resp.retry_after);
        }))
    else if resp.status == 200
    then none
    else if resp.status == 401
    then some unauthorized
    else if resp.status == 404
    then some not_found
    else some (http_error resp.status path)

-- maxBodyBytes + 1 on int64; a limit that wraps around is negative and lets no byte through.
unfoldable pub read_limit : ℕ → ℕ
read_limit max_body_bytes = if leb (2 ^ 63 - 1) max_body_bytes then 0 else suc max_body_bytes

-- io.ReadAll(io.LimitReader(body, limit)): a reader that is stopped by the limit meets no error.
unfoldable pub read_all : ℕ → Response → Fails Bytes
read_all limit resp =
    if leb limit (length resp.body)
    then ok (take limit resp.body)
    else elim resp.read_error [ some e ↦ err e | none ↦ ok resp.body ]

abbrev pub count_request : Result → Result
count_request r = record r { receipt = record (r.receipt) { requests = suc (r.receipt.requests) } }

abbrev pub count_not_modified : Result → Result
count_not_modified r = record r {
  receipt = record (r.receipt) { not_modified = suc (r.receipt.not_modified) };
}

abbrev pub count_body : ℕ → Result → Result
count_body n r = record r { receipt = record (r.receipt) { body_bytes = r.receipt.body_bytes + n } }

abbrev pub keep_validator : String → Validator → Result → Result
keep_validator key v r = record r { validators = put key v r.validators }

abbrev pub sent : HttpRequest → Option ℕ → ℕ → Progress → Progress
sent request status size p = record p {
  log = record { request = request; status = status; size = size } ∷ p.log;
}

-- `resp, err := c.http.Do(req)`, and the count of the responses.
unfoldable pub exchange : Server → HttpRequest → Action Response
exchange server request p = elim (server.respond p.log request) [
  | err e ↦ (sent request none 0 p, err e)
  | ok resp ↦ (
    record (sent request (some resp.status) (length resp.body) p) { out = count_request p.out },
    ok resp,
  )
]

module _ {A : Type 0} (c : Client) (k : Kind A) (key : String) where
  -- The value is kept only if the input ends behind it.
  unfoldable pub decode_body : Response → Bytes → Action (Option A × Bool)
  decode_body resp payload = elim (k.decode payload) [
    | none ↦ fail malformed
    | some (value, ends) ↦
        let has_next = leb c.per_page (k.collection_length value) in
        if ends
        then (do
          modify (
              keep_validator key (record {
                etag = resp.etag;
                last_modified = resp.last_modified;
                has_next = has_next;
              }))
          answer (some value, has_next))
        else fail malformed
  ]

  unfoldable pub read_body : Response → Action (Option A × Bool)
  unfolding decode_body
  read_body resp = elim (read_all (read_limit c.max_body_bytes) resp) [
    | err e ↦ fail e
    | ok payload ↦ do
      modify (count_body (length payload))
      if ltb c.max_body_bytes (length payload) then fail too_large else decode_body resp payload
  ]

  -- The path is the escaped one of the request, for the error.
  unfoldable pub receive : String → Validator → Response → Action (Option A × Bool)
  unfolding read_body
  receive path prior resp =
      if resp.status == 304
      then (do modify count_not_modified; answer (none, prior.has_next))
      else elim (response_error resp path) [ some e ↦ fail e | none ↦ read_body resp ]

  -- The first part of the answer is the decoded value, if it changed.
  unfoldable pub get : Server → String → Table Validator → Action (Option A × Bool)
  unfolding receive
  get server path validators =
      let prior = or_no_validator (lookup key validators) in
      let request = request_of c path prior in
      elim (server.new_request_err request) [
        | some e ↦ fail e
        | none ↦ do
          resp ← exchange server request
          receive (server.escaped_path request.path) prior resp
      ]
