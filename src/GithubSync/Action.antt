-- ===== src/GithubSync/Action.antt =====
-- What runs inside Sync: a step on the result under construction and on the record of the requests
-- sent so far, which answers a value or an error.
use codex_commons.Prelude.{ℕ, String, Option, List}
use codex_commons.Prelude.Results.{ok, err}
use codex_commons.GithubSync.Types.{Err, Fails, Result}

-- The parts of a GET request that differ between requests; its other headers are those of the client.
pub record HttpRequest : Type 0 where
  pub path : String
  pub query : String
  pub if_none_match : String
  pub if_modified_since : String
  pub authorization : String
  pub user_agent : String

-- A call of Do: its request, the status of the response, if there was one, and the length of its body.
pub record Exchange : Type 0 where
  pub request : HttpRequest
  pub status : Option ℕ
  pub size : ℕ

-- The last exchange comes first.
pub record Progress : Type 0 where
  pub log : List Exchange
  pub out : Result

abbrev pub Action {ℓ} : Type ℓ → Type ℓ
Action A = Progress → Progress × Fails A

module _ {α β} {A : Type α} {B : Type β} where
  abbrev pub then_run : (A → Action B) → Progress × Fails A → Progress × Fails B
  then_run rest (p, err problem) = (p, err problem)
  then_run rest (p, ok answer) = rest answer p

  infixl 5 ◌>>=◌
  abbrev pub ◌>>=◌ : Action A → (A → Action B) → Action B
  (first >>= rest) p = then_run rest (first p)

module _ {β} {B : Type β} where
  infixl 5 ◌>>◌
  abbrev pub ◌>>◌ : Action (Unit {0}) → Action B → Action B
  first >> second = first >>= λ done. second

abbrev pub done : Action (Unit {0})
done p = (p, ok tt)

abbrev pub answer {α} : {A : Type α} → A → Action A
answer a p = (p, ok a)

abbrev pub fail {α} : {A : Type α} → Err → Action A
fail problem p = (p, err problem)

-- Write the result under construction.
abbrev pub modify : (Result → Result) → Action (Unit {0})
modify change p = (record p { out = change p.out }, ok tt)
