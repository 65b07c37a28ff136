-- ===== src/Sessions/Revoked.antt =====
-- A session that is revoked stays shut.
use codex_commons.Prelude.{
  ◌≡◌, ◌≢◌, refl, String, Bool, true, false, none, [], ◌∷◌, ◌&&◌, ◌||◌, subst, arith, inl, inr, sym,
}
use codex_commons.Prelude.Tests.{Bool-cases, str_eq, is_none, ◌==◌, if◌then◌else◌}
use codex_commons.Prelude.Lists.{All, length}
use codex_commons.Prelude.Bytes.{Bytes, bytes_eq, bytes_eq→≡}
use codex_commons.Prelude.Int.{ℤ, ltb_ℤ, zero_ℤ}
use codex_commons.Prelude.Results.{ok, err}
use codex_commons.Core.Types.{not_found, invalid, constraint}
use codex_commons.Sessions.{
  SessionRow, Rows, BrowserSession, Faults, keep, each, revoke_where, with_csrf, with_revision,
  save_session, revoke_session, revoke_sessions_by_method, update_session_csrf,
  update_session_revisions, browser_session, find_live, is_live,
}
use codex_commons.Sessions.Table.{saved_row, save_leaves, All-keep, All-trim, All-each}

-- No row of the token is open.
abbrev IsShut : Bytes → SessionRow → Type 0
IsShut token r =
    bytes_eq (SessionRow.token_digest r) token && is_none (SessionRow.revoked_at r) ≡ false

abbrev AllShut : Bytes → Rows → Type 0
AllShut token rows = All (IsShut token) rows

-- The calls that do not save a session under the token.
pub data Later (stamp : ℤ → String) (token : Bytes) (rows : Rows) : Rows → Type 0 where
  now : Later stamp token rows rows
  after_save :
      {mid : Rows} (faults : Faults) (v : BrowserSession)
      → v.token_digest ≢ token
      → Later stamp token rows mid
      → Later stamp token rows (save_session stamp faults v mid).0
  after_revoke :
      {mid : Rows} (other : Bytes) (at : ℤ)
      → Later stamp token rows mid
      → Later stamp token rows (revoke_session stamp other at mid)
  after_revoke_method :
      {mid : Rows} (method : String) (at : ℤ)
      → Later stamp token rows mid
      → Later stamp token rows (revoke_sessions_by_method stamp method at mid)
  after_csrf :
      {mid : Rows} (other csrf : Bytes)
      → Later stamp token rows mid
      → Later stamp token rows (update_session_csrf other csrf mid).0
  after_revision :
      {mid : Rows} (principal : String) (revision : ℤ)
      → Later stamp token rows mid
      → Later stamp token rows (update_session_revisions principal revision mid).0

module _ (stamp : ℤ → String) (token : Bytes) where
  revoke-IsShut :
      (test : SessionRow → Bool) (at : String) (r : SessionRow)
      → IsShut token r
      → IsShut token (revoke_where test at r)
  unfolding revoke_where
  revoke-IsShut test at r h = ground arith

  csrf-IsShut :
      (other csrf : Bytes) (r : SessionRow) → IsShut token r → IsShut token (with_csrf other csrf r)
  unfolding with_csrf
  csrf-IsShut other csrf r h = ground arith

  revision-IsShut :
      (principal : String) (n : ℤ) (r : SessionRow)
      → IsShut token r
      → IsShut token (with_revision principal n r)
  unfolding with_revision
  revision-IsShut principal n r h = ground arith

  if-AllShut {ℓ} :
      {A : Type ℓ} (test : Bool) (x y : Rows × A)
      → AllShut token x.0
      → AllShut token y.0
      → AllShut token (if test then x else y).0
  if-AllShut true x y h k = h
  if-AllShut false x y h k = k

  save-AllShut :
      (faults : Faults) (v : BrowserSession) (rows : Rows)
      → v.token_digest ≢ token
      → AllShut token rows
      → AllShut token (save_session stamp faults v rows).0
  save-AllShut faults v rows other h = elim (save_leaves stamp faults v rows) [
    | inl same ↦ subst (AllShut token) (sym same) h
    | inr new ↦ subst (AllShut token) (sym new) (
        All-trim (IsShut token) v.principal
          (saved_row stamp v ∷ keep (is_live (stamp v.created_at)) rows)
          (
            elim (Bool-cases (bytes_eq v.token_digest token)) [
              | inl e ↦ absurd (other (bytes_eq→≡ v.token_digest token e))
              | inr e ↦ rw e refl
            ],
            All-keep (IsShut token) (is_live (stamp v.created_at)) rows h,
          ))
  ]

  csrf-AllShut :
      (other csrf : Bytes) (rows : Rows)
      → AllShut token rows
      → AllShut token (update_session_csrf other csrf rows).0
  unfolding update_session_csrf
  csrf-AllShut other csrf rows h =
      if-AllShut _ (rows, err not_found) _ h
        (if-AllShut (length csrf == 32) (each (with_csrf other csrf) rows, ok tt)
          (rows, err constraint)
          (All-each (IsShut token) (with_csrf other csrf) rows (λ r k. csrf-IsShut other csrf r k)
            h)
          h)

  revision-AllShut :
      (principal : String) (n : ℤ) (rows : Rows)
      → AllShut token rows
      → AllShut token (update_session_revisions principal n rows).0
  unfolding update_session_revisions
  revision-AllShut principal n rows h =
      if-AllShut (str_eq principal "" || ltb_ℤ n zero_ℤ) (rows, err invalid) _ h
        (All-each (IsShut token) (with_revision principal n) rows
          (λ r k. revision-IsShut principal n r k) h)

  Later-AllShut :
      (rows rows2 : Rows) → AllShut token rows → Later stamp token rows rows2 → AllShut token rows2
  unfolding revoke_session revoke_sessions_by_method
  Later-AllShut rows rows2 h now = h
  Later-AllShut rows rows2 h (after_save {mid = mid} faults v other r) =
      save-AllShut faults v mid other (Later-AllShut rows mid h r)
  Later-AllShut rows rows2 h (after_revoke {mid = mid} other at r) =
      All-each (IsShut token)
        (revoke_where (λ x. bytes_eq (SessionRow.token_digest x) other) (stamp at)) mid
        (λ x k. revoke-IsShut (λ y. bytes_eq (SessionRow.token_digest y) other) (stamp at) x k)
        (Later-AllShut rows mid h r)
  Later-AllShut rows rows2 h (after_revoke_method {mid = mid} method at r) =
      All-each (IsShut token)
        (revoke_where (λ x. str_eq (SessionRow.auth_method x) method) (stamp at)) mid
        (λ x k. revoke-IsShut (λ y. str_eq (SessionRow.auth_method y) method) (stamp at) x k)
        (Later-AllShut rows mid h r)
  Later-AllShut rows rows2 h (after_csrf {mid = mid} other csrf r) =
      csrf-AllShut other csrf mid (Later-AllShut rows mid h r)
  Later-AllShut rows rows2 h (after_revision {mid = mid} principal n r) =
      revision-AllShut principal n mid (Later-AllShut rows mid h r)

  revoked-AllShut :
      (at : String) (rows : Rows)
      → AllShut token
          (each (revoke_where (λ r. bytes_eq (SessionRow.token_digest r) token) at) rows)
  unfolding each revoke_where
  revoked-AllShut at [] = tt
  revoked-AllShut at (r ∷ rows) = (ground arith, revoked-AllShut at rows)

  shut_finds_none :
      (at : String) (rows : Rows) → AllShut token rows → find_live token at rows ≡ none
  unfolding find_live
  shut_finds_none at [] h = refl
  shut_finds_none at (r ∷ rows) h = ground (arith, h.0, shut_finds_none at rows h.1)

  -- A session that is revoked by its token opens nothing any more: whatever sessions are saved under
  -- other tokens, revoked or changed afterwards, the token is not found, at any time.
  pub revoked_session_stays_shut :
      (revoked_at at : ℤ) (rows rows2 : Rows)
      → Later stamp token (revoke_session stamp token revoked_at rows) rows2
      → browser_session stamp token at rows2 ≡ err not_found
  unfolding browser_session revoke_session
  revoked_session_stays_shut revoked_at at rows rows2 later =
      rw
        (
          shut_finds_none (stamp at) rows2 (
              Later-AllShut (revoke_session stamp token revoked_at rows) rows2
                (revoked-AllShut (stamp revoked_at) rows) later),
          browser_session,
        )
        refl
