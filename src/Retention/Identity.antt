-- ===== src/Retention/Identity.antt =====
-- A file is unlinked only if it is still the file that was inspected.
use codex_commons.Prelude.{
  ℕ, ◌≡◌, String, Option, none, some, ◌&&◌, ◌||◌, not, arith, refl, inl, inr, ◌⊎◌,
}
use codex_commons.Prelude.Tests.{Bool-cases, Option-cases, ◌==◌}
use codex_commons.Prelude.Table.{remove}
use codex_commons.Retention.{File, Dir, Hold, open_validated, unlink_held, unlink_validated}

-- The directory lost the name, which stood for a validated file, the one that was inspected before
-- the hold, and the one asked for if an identity was.
pub record IsRemoval (name : String) (dev ino : ℕ) (before held after : Dir) : Type 0 where
  pub inspected : File
  pub last : File
  pub opened : open_validated name before ≡ some inspected
  pub opened_again : open_validated name held ≡ some last
  pub same_dev : last.dev ≡ inspected.dev
  pub same_ino : last.ino ≡ inspected.ino
  pub asked_for : ((dev ≡ 0) × (ino ≡ 0)) ⊎ ((inspected.dev ≡ dev) × (inspected.ino ≡ ino))
  pub removed : after ≡ remove name held

unlink_held-IsRemoval :
    (name : String) (dev ino : ℕ) (st : File) (before : Dir) (run : Dir × Option String)
    → open_validated name before ≡ some st
    → ((dev ≡ 0) × (ino ≡ 0)) ⊎ ((st.dev ≡ dev) × (st.ino ≡ ino))
    → ((unlink_held st name run).0 ≡ run.0)
      ⊎ IsRemoval name dev ino before run.0 (unlink_held st name run).0
unfolding unlink_held
unlink_held-IsRemoval name dev ino st before (dir, some e) o a = inl refl
unlink_held-IsRemoval name dev ino st before (dir, none) o a =
    elim (Option-cases (open_validated name dir)) [
      | inl e ↦ inl (rw (e, unlink_held) refl)
      | inr (again, e) ↦ elim (Bool-cases (again.dev == st.dev && again.ino == st.ino)) [
        | inr f ↦ inl (rw (e, unlink_held, f) refl)
        | inl t ↦ inr (record {
          inspected = st;
          last = again;
          opened = o;
          opened_again = e;
          same_dev = ground (arith, t);
          same_ino = ground (arith, t);
          asked_for = a;
          removed = rw (e, unlink_held, t) refl;
        })
      ]
    ]

-- Whatever happens between the two inspections, an unlink leaves the directory as it was before it or
-- as the hold left it, or it removes the name alone, while the name stands for the validated file that
-- was inspected before the hold and that the caller asked for.
pub unlink_validated-IsRemoval :
    (hold : Hold) (name : String) (dev ino : ℕ) (dir : Dir)
    → ((unlink_validated hold name dev ino dir).0 ≡ dir)
      ⊎ (((unlink_validated hold name dev ino dir).0 ≡ (hold dir).0)
          ⊎ IsRemoval name dev ino dir (hold dir).0 (unlink_validated hold name dev ino dir).0)
unfolding unlink_validated
unlink_validated-IsRemoval hold name dev ino dir = elim (Option-cases (open_validated name dir)) [
  | inl e ↦ inl (rw (e, unlink_validated) refl)
  | inr (st, e) ↦
      elim (Bool-cases
        (not (dev == 0 && ino == 0) && (not (st.dev == dev) || not (st.ino == ino)))) [
          | inl t ↦ inl (rw (e, unlink_validated, t) refl)
          | inr f ↦ inr (
              rw (e, unlink_validated, f)
                (unlink_held-IsRemoval name dev ino st dir (hold dir) e (ground (arith, f))))
        ]
]
