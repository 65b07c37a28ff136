-- ===== src/GithubSync/Config.antt =====
-- New of internal/githubsync/client.go: the limits and the address of a client.
pub mod Limits
use codex_commons.Prelude.{ℕ, String, Bool, Option, none, some, not, ◌&&◌, ◌||◌}
use codex_commons.Prelude.Tests.{str_eq, ◌==◌, if◌then◌else◌}
use codex_commons.Prelude.Results.{ok, err}
use codex_commons.Prelude.Int.{ℤ, pos, zero_ℤ, pos_part, ltb_ℤ, eqb_ℤ}
use codex_commons.Prelude.Text.{to_lower}
use codex_commons.GithubSync.Types.{Fails, invalid}
use codex_commons.GithubSync.Strings.{trim_right_slash}

abbrev pub default_per_page : ℤ
default_per_page = pos 50

abbrev pub default_max_pages : ℤ
default_max_pages = pos 5

abbrev pub default_max_body_bytes : ℤ
default_max_body_bytes = pos 1048576

abbrev pub default_max_references : ℤ
default_max_references = pos 100

-- The parts of a url.URL that the client looks at.
pub record Url : Type 0 where
  pub scheme : String
  pub host : String
  pub hostname : String
  pub path : String
  pub raw_query : String
  pub fragment : String

-- The HTTP client of a Config belongs to the transport.
pub record Config : Type 0 where
  pub base_url : String
  pub token : String
  pub user_agent : String
  pub per_page : ℤ
  pub max_pages : ℤ
  pub max_body_bytes : ℤ
  pub max_references : ℤ

-- New lets only positive limits through, so a client's limits are natural numbers.
pub record Client : Type 0 where
  pub base : Url
  pub token : String
  pub user_agent : String
  pub per_page : ℕ
  pub max_pages : ℕ
  pub max_body_bytes : ℕ
  pub max_references : ℕ

abbrev or_default : ℤ → ℤ → ℤ
or_default n default = if eqb_ℤ n zero_ℤ then default else n

unfoldable pub with_defaults : Config → Config
with_defaults config = record config {
  user_agent =
      if str_eq config.user_agent "" then "codex-commons-githubsync/1" else config.user_agent;
  per_page = or_default config.per_page default_per_page;
  max_pages = or_default config.max_pages default_max_pages;
  max_body_bytes = or_default config.max_body_bytes default_max_body_bytes;
  max_references = or_default config.max_references default_max_references;
}

unfoldable pub invalid_bounds : Config → Bool
invalid_bounds config =
    ltb_ℤ config.per_page (pos 1)
    || ltb_ℤ (pos 100) config.per_page
    || ltb_ℤ config.max_pages (pos 1)
    || ltb_ℤ (pos 20) config.max_pages
    || ltb_ℤ config.max_body_bytes (pos 1)
    || ltb_ℤ config.max_references (pos 1)
    || ltb_ℤ (pos 1000) config.max_references

unfoldable pub is_relative : Url → Bool
is_relative base =
    str_eq base.scheme ""
    || str_eq base.host ""
    || not (str_eq base.raw_query "")
    || not (str_eq base.fragment "")

-- isLoopback: `is_loopback_ip` is net.ParseIP followed by IsLoopback. EqualFold with "localhost" also
-- holds for the long s, U+017F, in place of the letter s.
unfoldable pub is_loopback : (String → Bool) → String → Bool
is_loopback is_loopback_ip host =
    if str_eq (to_lower host) "localhost" || str_eq (to_lower host) "localhoſt"
    then Bool.true
    else is_loopback_ip host

abbrev pub client_of : Url → Config → Client
client_of base config = record {
  base = record base { path = trim_right_slash base.path };
  token = config.token;
  user_agent = config.user_agent;
  per_page = pos_part config.per_page;
  max_pages = pos_part config.max_pages;
  max_body_bytes = pos_part config.max_body_bytes;
  max_references = pos_part config.max_references;
}

-- The tests on the parsed base URL and on the limits.
unfoldable pub accept_base : (String → Bool) → Config → Url → Fails Client
accept_base is_loopback_ip config base =
    if is_relative base
    then err invalid
    else if not (str_eq base.scheme "https")
        && not (str_eq base.scheme "http" && is_loopback is_loopback_ip base.hostname)
    then err invalid
    else if invalid_bounds (with_defaults config)
    then err invalid
    else ok (client_of base (with_defaults config))

unfoldable pub new_client : (String → Option Url) → (String → Bool) → Config → Fails Client
unfolding accept_base
new_client parse_url is_loopback_ip config = elim (parse_url config.base_url) [
  | none ↦ err invalid
  | some base ↦ accept_base is_loopback_ip config base
]
