-- ===== src/Sessions.antt =====
-- internal/store/human_sessions.go: the browser sessions of humans, by the digest of their token. The
-- table is a list of rows, whose order says nothing. `stamp` (time.Format) is a parameter, because the
-- store compares and orders times by their texts. A statement fails only at a constraint.
pub mod Table
pub mod Revoked
pub mod Bound
mod Examples
use codex_commons.Prelude.Sql.{name_fits}
use codex_commons.Prelude.{
  ℕ, suc, String, Bool, true, false, Option, none, some, List, [], ◌∷◌, ◌++◌, ◌&&◌, ◌||◌, not,
}
use codex_commons.Prelude.Tests.{leb, ltb, ◌==◌, str_eq, is_none, if◌then◌else◌}
use codex_commons.Prelude.Lists.{length, take}
use codex_commons.Prelude.Bytes.{Bytes, bytes_eq}
use codex_commons.Prelude.Text.{str_ltb}
use codex_commons.Prelude.Int.{ℤ, ltb_ℤ, zero_ℤ}
use codex_commons.Prelude.Results.{ok, err}
use codex_commons.Core.Types.{Err, Fails, invalid, conflict, not_found, constraint}

pub record BrowserSession : Type 0 where
  pub token_digest : Bytes
  pub csrf_digest : Bytes
  pub principal : String
  pub auth_method : String
  pub binding_revision : ℤ
  pub created_at : ℤ
  pub expires_at : ℤ

-- A row of human_browser_sessions, with the texts of its times.
pub record SessionRow : Type 0 where
  pub token_digest : Bytes
  pub csrf_digest : Bytes
  pub principal : String
  pub auth_method : String
  pub binding_revision : ℤ
  pub created_at : String
  pub expires_at : String
  pub revoked_at : Option String

abbrev pub Rows : Type 0
Rows = List SessionRow

unfoldable pub valid_session : BrowserSession → Bool
valid_session v =
    length v.token_digest == 32
    && length v.csrf_digest == 32
    && not (str_eq v.principal "")
    && (str_eq v.auth_method "codex" || str_eq v.auth_method "recovery")
    && not (ltb_ℤ v.binding_revision zero_ℤ)
    && ltb_ℤ v.created_at v.expires_at

unfoldable pub keep {ℓ} : {A : Type ℓ} → (A → Bool) → List A → List A
keep p [] = []
keep p (x ∷ xs) = let rest = keep p xs in if p x then x ∷ rest else rest

bytes_ltb : Bytes → Bytes → Bool
bytes_ltb s [] = false
bytes_ltb [] (b ∷ t) = true
bytes_ltb (a ∷ s) (b ∷ t) =
    let rest = bytes_ltb s t in if ltb a b then true else if ltb b a then false else rest

-- ORDER BY created_at DESC,hex(token_digest) DESC
unfoldable pub newer : SessionRow → SessionRow → Bool
unfolding bytes_ltb
newer a b =
    str_ltb b.created_at a.created_at
    || not (str_ltb a.created_at b.created_at) && bytes_ltb b.token_digest a.token_digest

unfoldable pub insert_newest : SessionRow → Rows → Rows
insert_newest r [] = r ∷ []
insert_newest r (x ∷ xs) =
    let rest = insert_newest r xs in if newer x r then x ∷ rest else r ∷ x ∷ xs

unfoldable pub newest_first : Rows → Rows
newest_first [] = []
newest_first (r ∷ rows) = insert_newest r (newest_first rows)

abbrev pub is_of : String → SessionRow → Bool
is_of principal r = str_eq r.principal principal

-- The last statement of SaveHumanBrowserSession: of a principal's rows the eight newest are left.
unfoldable pub trim_sessions : String → Rows → Rows
trim_sessions principal rows =
    take 8 (newest_first (keep (is_of principal) rows)) ++ keep (λ r. not (is_of principal r)) rows

unfoldable pub has_token : Bytes → Rows → Bool
has_token token [] = false
has_token token (r ∷ rows) = bytes_eq r.token_digest token || has_token token rows

abbrev pub is_live : String → SessionRow → Bool
is_live now r = is_none r.revoked_at && str_ltb now r.expires_at

abbrev row_of : (ℤ → String) → BrowserSession → SessionRow
row_of stamp v = record {
  token_digest = v.token_digest;
  csrf_digest = v.csrf_digest;
  principal = v.principal;
  auth_method = v.auth_method;
  binding_revision = v.binding_revision;
  created_at = stamp v.created_at;
  expires_at = stamp v.expires_at;
  revoked_at = none;
}

-- The answers of BeginTx and Commit.
pub record Faults : Type 0 where
  pub begin_err : Option Err
  pub commit_err : Option Err

abbrev committed : Option Err → Rows → Rows → Rows × Fails (Unit {0})
committed none rows rows2 = (rows2, ok tt)
committed (some e) rows rows2 = (rows, err e)

-- INSERT, and the trim behind it.
unfoldable pub insert_session : Faults → SessionRow → Rows → Rows → Rows × Fails (Unit {0})
insert_session faults r rows swept =
    if has_token r.token_digest swept || not (name_fits r.principal)
    then (rows, err conflict)
    else committed faults.commit_err rows (trim_sessions r.principal (r ∷ swept))

unfoldable pub with_csrf : Bytes → Bytes → SessionRow → SessionRow
with_csrf token csrf r =
    if bytes_eq r.token_digest token && is_none r.revoked_at
    then record r { csrf_digest = csrf }
    else r

unfoldable pub with_revision : String → ℤ → SessionRow → SessionRow
with_revision principal revision r =
    if is_of principal r && is_none r.revoked_at
    then record r { binding_revision = revision }
    else r

unfoldable pub revoke_where : (SessionRow → Bool) → String → SessionRow → SessionRow
revoke_where test now r =
    if test r && is_none r.revoked_at then record r { revoked_at = some now } else r

unfoldable pub each : (SessionRow → SessionRow) → Rows → Rows
each change [] = []
each change (r ∷ rows) = change r ∷ each change rows

-- The row that a token opens.
unfoldable pub find_live : Bytes → String → Rows → Option SessionRow
find_live token now [] = none
find_live token now (r ∷ rows) =
    let rest = find_live token now rows in
    if bytes_eq r.token_digest token && is_live now r then some r else rest

has_unrevoked : Bytes → Rows → Bool
has_unrevoked token [] = false
has_unrevoked token (r ∷ rows) =
    bytes_eq r.token_digest token && is_none r.revoked_at || has_unrevoked token rows

module _ (stamp : ℤ → String) where
  unfoldable pub save_session : Faults → BrowserSession → Rows → Rows × Fails (Unit {0})
  save_session faults v rows =
      if not (valid_session v) then (rows, err invalid) else elim faults.begin_err [
        | some e ↦ (rows, err e)
        | none ↦
            insert_session faults (row_of stamp v) rows (keep (is_live (stamp v.created_at)) rows)
      ]

  unfoldable pub revoke_session : Bytes → ℤ → Rows → Rows
  revoke_session token now rows =
      each (revoke_where (λ r. bytes_eq (SessionRow.token_digest r) token) (stamp now)) rows

  unfoldable pub revoke_sessions_by_method : String → ℤ → Rows → Rows
  revoke_sessions_by_method method now rows =
      each (revoke_where (λ r. str_eq (SessionRow.auth_method r) method) (stamp now)) rows

  -- HumanBrowserSession, as far as the row; parseStamp of its times is left out.
  unfoldable pub browser_session : Bytes → ℤ → Rows → Fails SessionRow
  browser_session token now rows = elim (find_live token (stamp now) rows) [
    | none ↦ err not_found
    | some r ↦ ok r
  ]

-- With the CHECK on the length of csrf_digest.
unfoldable pub update_session_csrf : Bytes → Bytes → Rows → Rows × Fails (Unit {0})
unfolding has_unrevoked
update_session_csrf token csrf rows =
    if not (has_unrevoked token rows)
    then (rows, err not_found)
    else if length csrf == 32
    then (each (with_csrf token csrf) rows, ok tt)
    else (rows, err constraint)

unfoldable pub update_session_revisions : String → ℤ → Rows → Rows × Fails (Unit {0})
update_session_revisions principal revision rows =
    if str_eq principal "" || ltb_ℤ revision zero_ℤ
    then (rows, err invalid)
    else (each (with_revision principal revision) rows, ok tt)
