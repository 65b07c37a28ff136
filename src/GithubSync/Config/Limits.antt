-- ===== src/GithubSync/Config/Limits.antt =====
-- The limits of every client that New makes, and where it may connect.
use codex_commons.Prelude.{◌≤◌, ◌≡◌, String, Bool, true, false, Option, ◌⊎◌, inl, inr, arith, subst}
use codex_commons.Prelude.Tests.{Bool-cases, Option-cases, str_eq, str_eq_iff}
use codex_commons.Prelude.Results.{ok}
use codex_commons.GithubSync.Config.{
  Url, Config, Client, with_defaults, invalid_bounds, is_relative, is_loopback, client_of,
  accept_base, new_client,
}

pub record IsBounded (is_loopback_ip : String → Bool) (c : Client) : Type 0 where
  pub per_page_least : 1 ≤ c.per_page
  pub per_page_most : c.per_page ≤ 100
  pub max_pages_least : 1 ≤ c.max_pages
  pub max_pages_most : c.max_pages ≤ 20
  pub max_body_bytes_least : 1 ≤ c.max_body_bytes
  pub max_references_least : 1 ≤ c.max_references
  pub max_references_most : c.max_references ≤ 1000
  pub absolute : is_relative c.base ≡ false
  pub safe :
      (c.base.scheme ≡ "https")
      ⊎ ((c.base.scheme ≡ "http") × (is_loopback is_loopback_ip c.base.hostname ≡ true))

client_of-IsBounded :
    (is_loopback_ip : String → Bool) (base : Url) (config : Config)
    → invalid_bounds config ≡ false
    → is_relative base ≡ false
    → (base.scheme ≡ "https")
      ⊎ ((base.scheme ≡ "http") × (is_loopback is_loopback_ip base.hostname ≡ true))
    → IsBounded is_loopback_ip (client_of base config)
unfolding invalid_bounds is_relative
client_of-IsBounded is_loopback_ip base config b r s = record {
  per_page_least = ground (arith, b);
  per_page_most = ground (arith, b);
  max_pages_least = ground (arith, b);
  max_pages_most = ground (arith, b);
  max_body_bytes_least = ground (arith, b);
  max_references_least = ground (arith, b);
  max_references_most = ground (arith, b);
  absolute = r;
  safe = s;
}

accept_base-IsBounded :
    (is_loopback_ip : String → Bool) (config : Config) (base : Url) (c : Client)
    → accept_base is_loopback_ip config base ≡ ok c
    → IsBounded is_loopback_ip c
unfolding accept_base
accept_base-IsBounded is_loopback_ip config base c h =
    let same : client_of base (with_defaults config) ≡ c = ground (arith, h) in
    let secure : (base.scheme ≡ "https")
        ⊎ ((base.scheme ≡ "http") × (is_loopback is_loopback_ip base.hostname ≡ true)) =
      elim (Bool-cases (str_eq base.scheme "https")) [
        | inl t ↦ inl ((str_eq_iff base.scheme "https").0 t)
        | inr f ↦ inr (ground (arith, h, f, str_eq_iff base.scheme "http"))
      ] in
    subst (IsBounded is_loopback_ip) same (
      client_of-IsBounded is_loopback_ip base (with_defaults config) (ground (arith, h))
        (ground (arith, h)) secure)

-- Whatever the configuration, a client has a page size from 1 to 100, a page limit from 1 to 20, a
-- positive body limit, a reference limit from 1 to 1000, and an absolute base URL that is HTTPS, or
-- HTTP to a loopback host; otherwise New refuses.
pub new_client-IsBounded :
    (parse_url : String → Option Url) (is_loopback_ip : String → Bool) (config : Config)
    (c : Client)
    → new_client parse_url is_loopback_ip config ≡ ok c
    → IsBounded is_loopback_ip c
unfolding new_client
new_client-IsBounded parse_url is_loopback_ip config c h =
    elim (Option-cases (parse_url config.base_url)) [
      | inl e ↦ absurd (cc (rw (e, new_client) at h))
      | inr (base, e) ↦ accept_base-IsBounded is_loopback_ip config base c (rw (e, new_client) at h)
    ]
