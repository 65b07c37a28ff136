-- ===== src/GithubSync/References/Sets.antt =====
-- The allow list that boundedSHAs makes: in order, without repetition, and nothing but the references.
use codex_commons.Prelude.{
  ℕ, suc, ◌≤◌, ◌<◌, ◌≡◌, String, true, false, List, [], ◌∷◌, ◌||◌, map, arith, refl, inl, inr, ◌⊎◌,
  ◌∙◌, ap,
}
use codex_commons.Prelude.Tests.{Bool-cases, str_eq, str_eq_iff, ltb}
use codex_commons.Prelude.Lists.{length, contains, All}
use codex_commons.Prelude.Text.{str_ltb, str_ltb_trans, str_ltb_total}
use codex_commons.Prelude.Results.{ok, err}
use codex_commons.GithubSync.Types.{invalid}
use codex_commons.GithubSync.References.{
  valid_sha, normal_sha, insert_sha, collect_shas, bounded_shas,
}

-- Each string stands before all that follow.
abbrev pub IsAscending : List String → Type 0
IsAscending [] = Unit
IsAscending (s ∷ set) = All (λ t. str_ltb s t ≡ true) set × IsAscending set

abbrev pub IsValidSha : String → Type 0
IsValidSha s = valid_sha s ≡ true

length-insert_sha : (v : String) (set : List String) → length (insert_sha v set) ≤ suc (length set)
unfolding insert_sha
length-insert_sha v [] = omega arith
length-insert_sha v (s ∷ set) = ground (arith, length-insert_sha v set)

contains-insert_sha :
    (v : String) (set : List String) (x : String)
    → contains (insert_sha v set) x ≡ (str_eq v x || contains set x)
unfolding insert_sha
contains-insert_sha v [] x = refl
contains-insert_sha v (s ∷ set) x =
    ground (arith, contains-insert_sha v set x, str_eq_iff v s, str_eq_iff s x, str_eq_iff v x)

insert_sha-All :
    (P : String → Type 0) (v : String) (set : List String)
    → P v
    → All P set
    → All P (insert_sha v set)
unfolding insert_sha
insert_sha-All P v [] h k = (h, tt)
insert_sha-All P v (s ∷ set) h k = elim (Bool-cases (str_eq v s)) [
  | inl same ↦ rw same k
  | inr other ↦ elim (Bool-cases (str_ltb v s)) [
    | inl before ↦ rw (other, before) (h, k)
    | inr behind ↦ rw (other, behind) (k.0, insert_sha-All P v set h k.1)
  ]
]

All-str_ltb :
    (v s : String) (set : List String)
    → str_ltb v s ≡ true
    → All (λ t. str_ltb s t ≡ true) set
    → All (λ t. str_ltb v t ≡ true) set
All-str_ltb v s [] h k = tt
All-str_ltb v s (t ∷ set) h k = (str_ltb_trans v s t h k.0, All-str_ltb v s set h k.1)

insert_sha-IsAscending :
    (v : String) (set : List String) → IsAscending set → IsAscending (insert_sha v set)
unfolding insert_sha
insert_sha-IsAscending v [] h = (tt, tt)
insert_sha-IsAscending v (s ∷ set) h = elim (Bool-cases (str_eq v s)) [
  | inl same ↦ rw same h
  | inr other ↦ elim (Bool-cases (str_ltb v s)) [
    | inl before ↦ rw (other, before) ((before, All-str_ltb v s set before h.0), h)
    | inr behind ↦
        let above : str_ltb s v ≡ true =
          ground (arith, str_ltb_total v s, str_eq_iff v s, other, behind) in
        rw (other, behind)
          (
            insert_sha-All (λ t. str_ltb s t ≡ true) v set above h.0,
            insert_sha-IsAscending v set h.1,
          )
  ]
]

-- The set of the references: ascending, of valid SHAs, no longer than the references, and with the
-- members that they have after trimming and lowering.
pub record IsSetOf (values set : List String) : Type 0 where
  pub ascending : IsAscending set
  pub valid : All IsValidSha set
  pub short : length set ≤ length values
  pub members : (x : String) → contains set x ≡ contains (map normal_sha values) x

collect_shas_cases :
    (values : List String)
    → ((set : List String) × (collect_shas values ≡ ok set)
        × IsSetOf values set
        × All IsValidSha (map normal_sha values))
      ⊎ ((collect_shas values ≡ err invalid)
          × ((x : String) × (contains (map normal_sha values) x ≡ true) × (valid_sha x ≡ false)))
unfolding collect_shas
collect_shas_cases [] =
    inl (
      [],
      refl,
      record { ascending = tt; valid = tt; short = omega arith; members = λ x. refl },
      tt,
    )
collect_shas_cases (value ∷ values) = elim (Bool-cases (valid_sha (normal_sha value))) [
  | inr bad ↦ inr (
    rw bad refl,
    (normal_sha value, ground (arith, str_eq_iff (normal_sha value) (normal_sha value)), bad),
  )
  | inl good ↦ elim (collect_shas_cases values) [
    | inr (e, (x, member, bad)) ↦ inr (rw (good, e) refl, (x, ground (arith, member), bad))
    | inl (set, e, k, all) ↦ inl (
      insert_sha (normal_sha value) set,
      rw (good, e) refl,
      record {
        ascending = insert_sha-IsAscending (normal_sha value) set k.ascending;
        valid = insert_sha-All IsValidSha (normal_sha value) set good k.valid;
        short = omega (arith, length-insert_sha (normal_sha value) set, k.short);
        members = λ x.
            contains-insert_sha (normal_sha value) set x
            ∙ ap (λ b. str_eq (normal_sha value) x || b) (k.members x);
      },
      (good, all),
    )
  ]
]

-- The references are made into an ascending set without repetition of the same members, each a SHA of
-- 7 to 64 lowercase hex digits, and no more than the limit; or they are refused, because there are too
-- many or because one of them is no such SHA.
pub bounded_shas_cases :
    (values : List String) (limit : ℕ)
    → ((set : List String) × (bounded_shas values limit ≡ ok set)
        × IsSetOf values set
        × (length set ≤ limit))
      ⊎ ((bounded_shas values limit ≡ err invalid)
          × ((limit < length values)
              ⊎ ((x : String) × (contains (map normal_sha values) x ≡ true)
                  × (valid_sha x ≡ false))))
unfolding bounded_shas
bounded_shas_cases values limit = elim (Bool-cases (ltb limit (length values))) [
  | inl over ↦ inr (rw over refl, inl (ground (arith, over)))
  | inr within ↦ elim (collect_shas_cases values) [
    | inl (set, e, k, all) ↦ inl (set, rw (within, e) refl, k, ground (arith, within, k.short))
    | inr (e, (x, member, bad)) ↦ inr (rw (within, e) refl, inr (x, member, bad))
  ]
]
