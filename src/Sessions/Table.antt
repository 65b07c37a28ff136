-- ===== src/Sessions/Table.antt =====
-- What SaveHumanBrowserSession leaves of the table, and predicates that its statements keep.
use codex_commons.Prelude.Sql.{name_fits}
use codex_commons.Prelude.{
  ◌≡◌, ℕ, zero, suc, String, Bool, none, [], ◌∷◌, ◌++◌, ◌||◌, ◌⊎◌, not, arith, inl, inr,
}
use codex_commons.Prelude.Tests.{Option-cases, Bool-cases}
use codex_commons.Prelude.Lists.{All, take}
use codex_commons.Prelude.Int.{ℤ}
use codex_commons.Sessions.{
  SessionRow, Rows, BrowserSession, Faults, keep, insert_newest, newest_first, trim_sessions, each,
  save_session, insert_session, is_of, newer, is_live, valid_session, has_token,
}

module _ (P : SessionRow → Type 0) where
  pub All-keep : (p : SessionRow → Bool) (rows : Rows) → All P rows → All P (keep p rows)
  unfolding keep
  All-keep p [] h = tt
  All-keep p (r ∷ rows) h = elim (Bool-cases (p r)) [
    | inl e ↦ rw e (h.0, All-keep p rows h.1)
    | inr e ↦ rw e (All-keep p rows h.1)
  ]

  pub All-insert : (r : SessionRow) (rows : Rows) → P r → All P rows → All P (insert_newest r rows)
  unfolding insert_newest
  All-insert r [] k h = (k, tt)
  All-insert r (x ∷ rows) k h = elim (Bool-cases (newer x r)) [
    | inl e ↦ rw e (h.0, All-insert r rows k h.1)
    | inr e ↦ rw e (k, h)
  ]

  pub All-sort : (rows : Rows) → All P rows → All P (newest_first rows)
  unfolding newest_first
  All-sort [] h = tt
  All-sort (r ∷ rows) h = All-insert r (newest_first rows) h.0 (All-sort rows h.1)

  pub All-take : (n : ℕ) (rows : Rows) → All P rows → All P (take n rows)
  All-take zero rows h = tt
  All-take (suc n) [] h = tt
  All-take (suc n) (r ∷ rows) h = (h.0, All-take n rows h.1)

  pub All-append : (rows others : Rows) → All P rows → All P others → All P (rows ++ others)
  All-append [] others h k = k
  All-append (r ∷ rows) others h k = (h.0, All-append rows others h.1 k)

  pub All-trim :
      (principal : String) (rows : Rows) → All P rows → All P (trim_sessions principal rows)
  unfolding trim_sessions
  All-trim principal rows h =
      All-append (take 8 (newest_first (keep (is_of principal) rows)))
        (keep (λ r. not (is_of principal r)) rows)
        (All-take 8 (newest_first (keep (is_of principal) rows))
          (All-sort (keep (is_of principal) rows) (All-keep (is_of principal) rows h)))
        (All-keep (λ r. not (is_of principal r)) rows h)

  pub All-each :
      (change : SessionRow → SessionRow) (rows : Rows)
      → ((r : SessionRow) → P r → P (change r))
      → All P rows
      → All P (each change rows)
  unfolding each
  All-each change [] k h = tt
  All-each change (r ∷ rows) k h = (k r h.0, All-each change rows k h.1)

abbrev pub saved_row : (ℤ → String) → BrowserSession → SessionRow
saved_row stamp v = record {
  token_digest = v.token_digest;
  csrf_digest = v.csrf_digest;
  principal = v.principal;
  auth_method = v.auth_method;
  binding_revision = v.binding_revision;
  created_at = stamp v.created_at;
  expires_at = stamp v.expires_at;
  revoked_at = none;
}

-- SaveHumanBrowserSession leaves the table alone, or sweeps, inserts and trims.
pub save_leaves :
    (stamp : ℤ → String) (faults : Faults) (v : BrowserSession) (rows : Rows)
    → ((save_session stamp faults v rows).0 ≡ rows)
      ⊎ ((save_session stamp faults v rows).0
          ≡ trim_sessions v.principal
              (saved_row stamp v ∷ keep (is_live (stamp v.created_at)) rows))
unfolding save_session insert_session
save_leaves stamp faults v rows = elim (Bool-cases (valid_session v)) [
  | inr e ↦ inl (ground (arith, e))
  | inl e ↦ elim (Option-cases faults.begin_err) [
    | inr (problem, b) ↦ inl (ground (arith, e, b))
    | inl b ↦
        elim (Bool-cases (
          has_token v.token_digest (keep (is_live (stamp v.created_at)) rows)
          || not (name_fits v.principal))) [
            | inl t ↦ inl (ground (arith, e, b, t))
            | inr t ↦ elim (Option-cases faults.commit_err) [
              | inr (problem, c) ↦ inl (ground (arith, e, b, t, c))
              | inl c ↦ inr (ground (arith, e, b, t, c))
            ]
          ]
  ]
]
