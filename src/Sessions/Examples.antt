-- ===== src/Sessions/Examples.antt =====
-- The browser sessions at concrete calls.
use codex_commons.Prelude.Sql.{name_fits, trimmed_length, before_nul, skip_spaces, width}
use codex_commons.Prelude.{◌≡◌, ◌≤◌, refl, String, none, [], ◌∷◌, not, ◌≢◌}
use codex_commons.Prelude.Tests.{if◌then◌else◌, str_eq}
use codex_commons.Prelude.Lists.{length}
use codex_commons.Prelude.Text.{str_ltb}
use codex_commons.Prelude.Int.{ℤ, pos, eqb_ℤ}
use codex_commons.Prelude.Bytes.{Bytes, bytes_eq}
use codex_commons.Prelude.Results.{ok, err}
use codex_commons.Core.Types.{not_found}
use codex_commons.Sessions.{
  Rows, BrowserSession, Faults, keep, is_of, is_live, save_session, revoke_session, browser_session,
  find_live, insert_session, valid_session, has_token, trim_sessions, newest_first, insert_newest,
  newer,
}
use codex_commons.Sessions.Table.{saved_row}
use codex_commons.Sessions.Revoked.{now, after_save, revoked_session_stays_shut}
use codex_commons.Sessions.Bound.{save_session_bounded}

abbrev eight : Bytes → Bytes
eight rest = 1 ∷ 2 ∷ 3 ∷ 4 ∷ 5 ∷ 6 ∷ 7 ∷ 8 ∷ rest

abbrev token1 : Bytes
token1 = eight (eight (eight (eight [])))

abbrev token2 : Bytes
token2 = 9 ∷ 2 ∷ 3 ∷ 4 ∷ 5 ∷ 6 ∷ 7 ∷ 8 ∷ eight (eight (eight []))

-- Texts of four times.
abbrev toy_stamp : ℤ → String
toy_stamp t =
    if eqb_ℤ t (pos 1)
    then "01"
    else if eqb_ℤ t (pos 2)
    then "02"
    else if eqb_ℤ t (pos 3)
    then "03"
    else "09"

abbrev session : Bytes → BrowserSession
session token = record {
  token_digest = token;
  csrf_digest = token1;
  principal = "human:local-admin";
  auth_method = "codex";
  binding_revision = pos 1;
  created_at = pos 1;
  expires_at = pos 9;
}

abbrev quiet : Faults
quiet = record { begin_err = none; commit_err = none }

abbrev with_one : Rows
with_one = (save_session toy_stamp quiet (session token1) []).0

abbrev with_two : Rows
with_two = (save_session toy_stamp quiet (session token2) with_one).0

saves_second : save_session toy_stamp quiet (session token2) with_one ≡ (with_two, ok tt)
unfolding save_session insert_session valid_session has_token name_fits trimmed_length before_nul
    skip_spaces width trim_sessions newest_first insert_newest newer keep str_eq str_ltb bytes_eq
saves_second = refl

save_session_bounded_example :
    (length (keep (is_of "human:local-admin") with_two) ≤ 8)
    × (keep (λ r. not (is_of "human:local-admin" r)) with_two
        ≡ keep
            (λ r. not (is_of "human:local-admin" r))
            (saved_row toy_stamp (session token2) ∷ keep (is_live "01") with_one))
save_session_bounded_example =
    save_session_bounded toy_stamp quiet (session token2) with_one with_two saves_second

other_token : token2 ≢ token1
other_token = λ e. cc e

revoked_session_stays_shut_example :
    browser_session toy_stamp token1
      (pos 3)
      (save_session toy_stamp quiet
        (session token2)
        (revoke_session toy_stamp token1 (pos 2) with_one)).0
    ≡ err not_found
revoked_session_stays_shut_example =
    revoked_session_stays_shut toy_stamp token1 (pos 2) (pos 3) with_one
      (save_session toy_stamp quiet (session token2)
        (revoke_session toy_stamp token1 (pos 2) with_one)).0
      (after_save quiet (session token2) other_token now)

opens_before :
    browser_session toy_stamp token1 (pos 3) with_one ≡ ok (saved_row toy_stamp (session token1))
unfolding save_session insert_session valid_session has_token name_fits trimmed_length before_nul
    skip_spaces width trim_sessions newest_first insert_newest newer keep str_eq str_ltb bytes_eq
    browser_session find_live
opens_before = refl
