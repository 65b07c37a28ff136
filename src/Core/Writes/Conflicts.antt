-- ===== src/Core/Writes/Conflicts.antt =====
-- Optimistic concurrency: two writes never edit the same revision of the same thing.
use codex_commons.Prelude.{◌≡◌, ◌≤◌, refl, sym, ap, subst, ◌∙◌, ℕ, String, some, arith, inl, inr}
use codex_commons.Prelude.Int.{ℤ, pos}
use codex_commons.Prelude.Table.{lookup}
use codex_commons.Prelude.Tests.{Option-cases}
use codex_commons.Prelude.Results.{err}
use codex_commons.Core.Types.{Core, Database, Draw, MilestoneRow, TaskRow, returned, conflict}
use codex_commons.Core.Commands.{Command, prepare, execute}
use codex_commons.Core.Effects.{Effect, revision_of}
use codex_commons.Core.Invariant.{IsSound}
use codex_commons.Core.Invariant.Growth.{Effect-IsLaterTask, Effect-IsLaterMilestone}
use codex_commons.Core.Invariant.Preserved.{revision_grows}
use codex_commons.Core.Writes.{World, write}
use codex_commons.Core.Writes.Stored.{write_stored}
use codex_commons.Core.Writes.History.{Later, now, after, Later-IsSound, stored-SomeEffect}
use codex_commons.Core.Writes.Edits.{
  Target, project, milestone, task, edits, revision_in, edit-IsRaised, stale_edit,
}

-- A revision that is not behind another.
abbrev HasReached : Target → ℕ → Core → Type 0
HasReached t n core = (m : ℕ) × (revision_in t core ≡ some m) × (n ≤ m) × (1 ≤ m)

found_project :
    (id : String) (core : Core)
    → 1 ≤ revision_of id core
    → revision_in (project id) core ≡ some (revision_of id core)
unfolding revision_of revision_in
found_project id core h = ground arith

Effect-HasReached :
    (core core2 : Core) (name : String) (n : ℕ) (t : Target) (k : ℕ)
    → Effect core core2 name n
    → IsSound core
    → HasReached t k core
    → HasReached t k core2
unfolding revision_in revision_of
Effect-HasReached core core2 name n (project id) k e s (m, at, low, one) =
    let grows = revision_grows core core2 name n e id in
    let same : revision_of id core ≡ m = ground arith in
    (
      revision_of id core2,
      found_project id core2 (omega (arith, grows, same, one)),
      omega (arith, grows, same, low),
      omega (arith, grows, same, one),
    )
Effect-HasReached core core2 name n (milestone id) k e s (m, at, low, one) =
    elim (Option-cases (lookup id core.milestones)) [
      | inl missing ↦ absurd (ground arith)
      | inr (row, stood) ↦
          let later =
            Effect-IsLaterMilestone core core2 name n id row e s.milestones_behind stood in
          let same : MilestoneRow.project_revision row ≡ m = ground arith in
          (
            later.later.project_revision,
            rw (later.stands, revision_in) refl,
            omega (arith, later.no_earlier, same, low),
            omega (arith, later.no_earlier, same, one),
          )
    ]
Effect-HasReached core core2 name n (task id) k e s (m, at, low, one) =
    elim (Option-cases (lookup id core.tasks)) [
      | inl missing ↦ absurd (ground arith)
      | inr (row, stood) ↦
          let later = Effect-IsLaterTask core core2 name n id row e s.tasks_behind stood in
          let same : TaskRow.project_revision row ≡ m = ground arith in
          (
            later.later.project_revision,
            rw (later.stands, revision_in) refl,
            omega (arith, later.no_earlier, same, low),
            omega (arith, later.no_earlier, same, one),
          )
    ]

Later-HasReached :
    (hash : Command → String) (db db2 : Database) (t : Target) (k : ℕ)
    → IsSound db.core
    → Later hash db db2
    → HasReached t k db.core
    → HasReached t k db2.core
Later-HasReached hash db db2 t k s now h = h
Later-HasReached hash db db2 t k s (after {db2 = mid} world c earlier locked stored) h =
    let (name, n, e) = stored-SomeEffect hash world c db2 stored in
    Effect-HasReached (Database.core world.locked) db2.core name n t k e
      (subst (λ x. IsSound (Database.core x)) (sym locked) (Later-IsSound hash db mid s earlier))
      (subst (λ x. HasReached t k (Database.core x)) (sym locked)
        (Later-HasReached hash db mid t k s earlier h))

-- No update is lost: once an edit of a project, a milestone or a task that starts from some revision
-- has committed on sound tables, the transaction of any edit of the same thing that starts from that
-- revision too stops at a conflict, whatever else of the eight writes commits in
-- between.
pub no_lost_update :
    (hash : Command → String) (world : World) (c p c2 : Command) (db db2 : Database) (t : Target)
    (base : ℤ) (d : Draw)
    → IsSound (Database.core world.locked)
    → (write hash world c).stored ≡ some db
    → prepare c ≡ some p
    → edits p ≡ some (t, base)
    → Later hash db db2
    → edits c2 ≡ some (t, base)
    → execute d c2 db2.core ≡ err (returned conflict)
no_lost_update hash world c p c2 db db2 t base d s stored is_p first later second =
    let (p3, is_p3, st) = write_stored hash world c db stored in
    let p3_is_p : p3 ≡ p = ground (arith, is_p, is_p3) in
    let raised =
      edit-IsRaised world.draw p3 (Database.core world.locked) db.core st.written t base
        (ap edits p3_is_p ∙ first) st.executes s in
    let (name, n, e) = stored-SomeEffect hash world c db stored in
    let (m, at, low, one) =
      Later-HasReached hash db db2 t raised.new
        (Later-IsSound hash world.locked db s (after world c now refl stored)) later
        (raised.new, raised.to, omega arith, omega (arith, raised.rises)) in
    stale_edit d c2 db2.core t base m second at (λ same.
      let clash : pos raised.old ≡ pos m = sym raised.named ∙ same in
      ground (arith, clash, raised.rises, low))
