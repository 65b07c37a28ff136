-- ===== src/Sessions/Bound.antt =====
-- A principal has at most eight sessions.
use codex_commons.Prelude.{
  ◌≡◌, ◌≤◌, refl, ap, ◌∙◌, ℕ, zero, suc, String, Bool, true, List, [], ◌∷◌, ◌++◌, not, arith, inl,
  inr,
}
use codex_commons.Prelude.Tests.{Bool-cases}
use codex_commons.Prelude.Lists.{All, take, length, length-append}
use codex_commons.Prelude.Int.{ℤ}
use codex_commons.Prelude.Results.{ok}
use codex_commons.Sessions.{
  SessionRow, Rows, BrowserSession, Faults, keep, newest_first, trim_sessions, save_session,
  insert_session, is_of, is_live,
}
use codex_commons.Sessions.Table.{saved_row, All-sort, All-take}

module _ {ℓ} {A : Type ℓ} (p : A → Bool) where
  keep-append : (xs ys : List A) → keep p (xs ++ ys) ≡ keep p xs ++ keep p ys
  unfolding keep
  keep-append [] ys = refl
  keep-append (x ∷ xs) ys = elim (Bool-cases (p x)) [
    | inl e ↦ rw e (ap (λ zs. x ∷ zs) (keep-append xs ys))
    | inr e ↦ rw e (keep-append xs ys)
  ]

  length-keep : (xs : List A) → length (keep p xs) ≤ length xs
  unfolding keep
  length-keep [] = omega arith
  length-keep (x ∷ xs) = ground (arith, length-keep xs)

  keep-not : (xs : List A) → keep p (keep (λ x. not (p x)) xs) ≡ []
  unfolding keep
  keep-not [] = refl
  keep-not (x ∷ xs) = elim (Bool-cases (p x)) [
    | inl e ↦ rw e (keep-not xs)
    | inr e ↦ rw (e, keep) (rw e (keep-not xs))
  ]

length-take : (n : ℕ) (xs : Rows) → length (take n xs) ≤ n
length-take zero xs = omega arith
length-take (suc n) [] = omega arith
length-take (suc n) (x ∷ xs) = omega (arith, length-take n xs)

trim_bounded :
    (principal : String) (rows : Rows)
    → length (keep (is_of principal) (trim_sessions principal rows)) ≤ 8
unfolding trim_sessions
trim_bounded principal rows =
    let mine : Rows = take 8 (newest_first (keep (is_of principal) rows)) in
    let others : Rows = keep (λ r. not (is_of principal r)) rows in
    omega (
      arith,
      ap length (keep-append (is_of principal) mine others),
      length-append (keep (is_of principal) mine) (keep (is_of principal) others),
      ap length (keep-not (is_of principal) rows),
      length-keep (is_of principal) mine,
      length-take 8 (newest_first (keep (is_of principal) rows)),
    )

keep-not_none :
    (principal : String) (rows : Rows)
    → All (λ r. is_of principal r ≡ true) rows
    → keep (λ r. not (is_of principal r)) rows ≡ []
unfolding keep
keep-not_none principal [] h = refl
keep-not_none principal (r ∷ rows) h = rw h.0 (keep-not_none principal rows h.1)

keep_passes : (p : SessionRow → Bool) (rows : Rows) → All (λ r. p r ≡ true) (keep p rows)
unfolding keep
keep_passes p [] = tt
keep_passes p (r ∷ rows) = elim (Bool-cases (p r)) [
  | inl e ↦ rw e (e, keep_passes p rows)
  | inr e ↦ rw e (keep_passes p rows)
]

keep_twice : (p : SessionRow → Bool) (rows : Rows) → keep p (keep p rows) ≡ keep p rows
unfolding keep
keep_twice p [] = refl
keep_twice p (r ∷ rows) = elim (Bool-cases (p r)) [
  | inl e ↦ rw e (rw (e, keep) (ap (λ zs. r ∷ zs) (keep_twice p rows)))
  | inr e ↦ rw e (keep_twice p rows)
]

trim_spares :
    (principal : String) (rows : Rows)
    → keep (λ r. not (is_of principal r)) (trim_sessions principal rows)
      ≡ keep (λ r. not (is_of principal r)) rows
unfolding trim_sessions
trim_spares principal rows =
    let mine : Rows = take 8 (newest_first (keep (is_of principal) rows)) in
    let other : SessionRow → Bool = λ r. not (is_of principal r) in
    let of : SessionRow → Type 0 = λ r. is_of principal r ≡ true in
    keep-append other mine (keep other rows)
    ∙ ap (λ xs. xs ++ keep other (keep other rows))
        (keep-not_none principal mine (
          All-take of 8 (newest_first (keep (is_of principal) rows))
            (All-sort of (keep (is_of principal) rows) (keep_passes (is_of principal) rows))))
    ∙ keep_twice other rows

-- A session that is saved leaves its principal with at most eight, and the rows of the other principals
-- are exactly those of them that were neither revoked nor expired when it was created.
pub save_session_bounded :
    (stamp : ℤ → String) (faults : Faults) (v : BrowserSession) (rows rows2 : Rows)
    → save_session stamp faults v rows ≡ (rows2, ok tt)
    → (length (keep (is_of v.principal) rows2) ≤ 8)
      × (keep (λ r. not (is_of v.principal r)) rows2
          ≡ keep
              (λ r. not (is_of v.principal r))
              (saved_row stamp v ∷ keep (is_live (stamp v.created_at)) rows))
unfolding save_session insert_session
save_session_bounded stamp faults v rows rows2 h =
    let table : Rows = saved_row stamp v ∷ keep (is_live (stamp v.created_at)) rows in
    let is : rows2 ≡ trim_sessions v.principal table = ground (arith, h) in
    rw is (trim_bounded v.principal table, trim_spares v.principal table)
