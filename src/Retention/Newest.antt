-- ===== src/Retention/Newest.antt =====
-- What a retention removes is older than what it keeps.
use Prim.Native.String
use mathlib.Core.List.{Perm}
use codex_commons.Prelude.{
  ℕ, zero, suc, ◌≡◌, ◌≢◌, ◌⊎◌, String, false, List, [], ◌∷◌, ◌++◌, arith, inl, inr, refl, sym,
  subst, ap, ◌∙◌,
}
use codex_commons.Prelude.Tests.{Option-cases, str_eq, str_eq_iff}
use codex_commons.Prelude.Lists.{length, take, drop, take-append-drop, All, All-map}
use codex_commons.Prelude.Table.{lookup, lookup-remove}
use codex_commons.Prelude.Text.{str_ltb}
use codex_commons.Prelude.Int.{ℤ, ◌<ℤ◌}
use codex_commons.Retention.{
  RetainedFile, Dir, Hold, stands_before, sort_files, backups_in, unlink_validated,
  unlink_companions, unlink_all, kept_count, retain_validated,
}
use codex_commons.Retention.Identity.{unlink_validated-IsRemoval}
use codex_commons.Retention.Order.{IsBefore, IsOrdered-take, sort_files-IsOrdered, sort_files-Perm}

-- File `k` is at least as new as `f`: a later second, or in one second a later nanosecond, or at one
-- time a name that is not smaller.
abbrev pub IsNotOlder : RetainedFile → RetainedFile → Type 0
IsNotOlder f k =
    (f.sec <ℤ k.sec)
    ⊎ ((f.sec ≡ k.sec)
        × ((f.nsec <ℤ k.nsec) ⊎ ((f.nsec ≡ k.nsec) × (str_ltb k.name f.name ≡ false))))

IsBefore-IsNotOlder : (k f : RetainedFile) → IsBefore k f → IsNotOlder f k
unfolding stands_before
IsBefore-IsNotOlder k f h = ground (arith, h)

-- One of the elements satisfies the predicate.
abbrev pub Exists : (RetainedFile → Type 0) → List RetainedFile → Type 0
Exists P [] = ⊥
Exists P (f ∷ fs) = P f ⊎ Exists P fs

-- The name is that of the backup or of one of the two files beside it.
abbrev pub BelongsTo : String → RetainedFile → Type 0
BelongsTo name f =
    (f.name ≡ name)
    ⊎ ((String.◌++◌ f.name ".sha256" ≡ name) ⊎ (String.◌++◌ f.name ".receipt.json" ≡ name))

-- The hold point leaves the name as it is.
abbrev pub Spares : String → Hold → Type 0
Spares name hold = (d : Dir) → lookup name (hold d).0 ≡ lookup name d

module _ (hold : Hold) (name : String) (spares : Spares name hold) where
  unlink_validated-other :
      (other : String) (dev ino : ℕ) (dir : Dir)
      → str_eq other name ≡ false
      → lookup name (unlink_validated hold other dev ino dir).0 ≡ lookup name dir
  unlink_validated-other other dev ino dir differs =
      elim (unlink_validated-IsRemoval hold other dev ino dir) [
        | inl same ↦ ap (lookup name) same
        | inr (inl held) ↦ ap (lookup name) held ∙ spares dir
        | inr (inr removal) ↦
            ap (lookup name) removal.removed
            ∙ lookup-remove other name (hold dir).0
            ∙ rw differs (spares dir)
      ]

  unlink_companions-other :
      (file : String) (dir : Dir)
      → str_eq (String.◌++◌ file ".sha256") name ≡ false
      → str_eq (String.◌++◌ file ".receipt.json") name ≡ false
      → lookup name (unlink_companions hold file dir) ≡ lookup name dir
  unfolding unlink_companions
  unlink_companions-other file dir sum receipt =
      unlink_validated-other (String.◌++◌ file ".receipt.json") 0 0
        (unlink_validated hold (String.◌++◌ file ".sha256") 0 0 dir).0 receipt
      ∙ unlink_validated-other (String.◌++◌ file ".sha256") 0 0 dir sum

  BelongsTo-cases :
      (f : RetainedFile)
      → BelongsTo name f
        ⊎ ((str_eq f.name name ≡ false)
            × (str_eq (String.◌++◌ f.name ".sha256") name ≡ false)
            × (str_eq (String.◌++◌ f.name ".receipt.json") name ≡ false))
  BelongsTo-cases f = ground (
    arith,
    str_eq_iff f.name name,
    str_eq_iff (String.◌++◌ f.name ".sha256") name,
    str_eq_iff (String.◌++◌ f.name ".receipt.json") name,
  )

  -- A name that the loop changes belongs to one of the files that it runs over.
  unlink_all_cases :
      (fs : List RetainedFile) (dir : Dir)
      → (lookup name (unlink_all hold fs dir).0 ≡ lookup name dir) ⊎ Exists (BelongsTo name) fs
  unfolding unlink_all
  unlink_all_cases [] dir = inl refl
  unlink_all_cases (f ∷ fs) dir = elim (BelongsTo-cases f) [
    | inl belongs ↦ inr (inl belongs)
    | inr (other, sum, receipt) ↦
        let once = unlink_validated hold f.name f.dev f.ino dir in
        let same : lookup name once.0 ≡ lookup name dir =
          unlink_validated-other f.name f.dev f.ino dir other in
        elim (Option-cases once.1) [
          | inr (e, failed) ↦ inl (rw (failed, unlink_all) same)
          | inl fine ↦ elim (unlink_all_cases fs (unlink_companions hold f.name once.0)) [
            | inr later ↦ inr (inr later)
            | inl kept ↦ inl (
                rw (fine, unlink_all)
                  (kept ∙ unlink_companions-other f.name once.0 sum receipt ∙ same))
          ]
        ]
  ]

length-take_of_rest :
    (P : RetainedFile → Type 0) (n : ℕ) (fs : List RetainedFile)
    → Exists P (drop n fs)
    → length (take n fs) ≡ n
length-take_of_rest P zero fs h = refl
length-take_of_rest P (suc n) [] h = absurd h
length-take_of_rest P (suc n) (f ∷ fs) h = ap suc (length-take_of_rest P n fs h)

-- What the kept files have in common with each file of the rest, the one that is removed has too.
Exists-older :
    (P : RetainedFile → Type 0) (kept rest : List RetainedFile)
    → All (λ k. All (IsBefore k) rest) kept
    → Exists P rest
    → Exists (λ f. P f × All (IsNotOlder f) kept) rest
Exists-older P kept [] h x = absurd x
Exists-older P kept (f ∷ fs) h (inl x) = inl (
  x,
  All-map (λ k. All (IsBefore k) (f ∷ fs)) (IsNotOlder f) kept (λ k a. IsBefore-IsNotOlder k f a.0)
      h,
)
Exists-older P kept (f ∷ fs) h (inr x) = inr (
    Exists-older P kept fs
      (All-map (λ k. All (IsBefore k) (f ∷ fs)) (λ k. All (IsBefore k) fs) kept (λ k a. a.1) h) x)

-- The backups of the directory are the kept and the others; as many are kept as asked for, and the name
-- belongs to one of the others, of which none of the kept is older.
pub record IsOutdated (keep : ℤ) (dir : Dir) (name : String) : Type 0 where
  pub kept : List RetainedFile
  pub others : List RetainedFile
  pub all_backups : Perm (kept ++ others) (backups_in dir dir)
  pub enough : length kept ≡ kept_count keep
  pub outdated : Exists (λ f. BelongsTo name f × All (IsNotOlder f) kept) others

-- A retention removes old backups only: where what happens at the hold points leaves a name alone, and
-- the retention changes it all the same, the name is that of a backup, or of a file beside one, past
-- the number to keep: that many other backups of the directory are kept, and each of them is at least
-- as new, by seconds, nanoseconds and then name.
pub changed-IsOutdated :
    (hold : Hold) (keep : ℤ) (dir : Dir) (name : String)
    → Spares name hold
    → lookup name (retain_validated hold keep dir).0 ≢ lookup name dir
    → IsOutdated keep dir name
unfolding retain_validated
changed-IsOutdated hold keep dir name spares changed =
    let n = kept_count keep in
    let sorted = sort_files (backups_in dir dir) in
    elim (unlink_all_cases hold name spares (drop n sorted) dir) [
      | inl same ↦ absurd (changed same)
      | inr one ↦ record {
        kept = take n sorted;
        others = drop n sorted;
        all_backups =
            subst (λ fs. Perm fs (backups_in dir dir)) (sym (take-append-drop n sorted))
              (sort_files-Perm (backups_in dir dir));
        enough = length-take_of_rest (BelongsTo name) n sorted one;
        outdated =
            Exists-older (BelongsTo name) (take n sorted) (drop n sorted)
              (IsOrdered-take n sorted (sort_files-IsOrdered (backups_in dir dir))) one;
      }
    ]
