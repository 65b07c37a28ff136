-- ===== src/Core/Invariant/Growth.antt =====
-- A write keeps every task and every milestone, in its project, and no revision falls.
use codex_commons.Prelude.{
  ◌≡◌, ◌⊎◌, ◌≤◌, refl, sym, ap, subst, ◌∙◌, ℕ, String, true, some, arith, inl, inr,
}
use codex_commons.Prelude.Table.{lookup, lookup-put}
use codex_commons.Prelude.Tests.{str_eq, str_eq_iff, Bool-cases}
use codex_commons.Tasks.{task_transition_allowed}
use codex_commons.Core.Types.{Core, MilestoneRow, TaskRow}
use codex_commons.Core.Effects.{Effect, PutsTask, PutsMilestone, revision_of}
use codex_commons.Core.Invariant.{TasksBehind, MilestonesBehind}

-- What has become of a task that stood.
pub record IsLaterTask (core2 : Core) (id : String) (row : TaskRow) : Type 0 where
  pub later : TaskRow
  pub stands : lookup id core2.tasks ≡ some later
  pub same_project : later.project_id ≡ row.project_id
  pub no_earlier : row.project_revision ≤ later.project_revision
  pub moved : (later.state ≡ row.state) ⊎ (task_transition_allowed row.state later.state ≡ true)

pub record IsLaterMilestone (core2 : Core) (id : String) (row : MilestoneRow) : Type 0 where
  pub later : MilestoneRow
  pub stands : lookup id core2.milestones ≡ some later
  pub same_project : later.project_id ≡ row.project_id
  pub no_earlier : row.project_revision ≤ later.project_revision

stays_task :
    (core core2 : Core) (id : String) (row : TaskRow)
    → lookup id core2.tasks ≡ some row
    → IsLaterTask core2 id row
stays_task core core2 id row at = record {
  later = row;
  stands = at;
  same_project = refl;
  no_earlier = omega arith;
  moved = inl refl;
}

put_task :
    (core core2 : Core) (project : String) (n : ℕ) (id : String) (row : TaskRow)
    → revision_of project core ≡ n
    → PutsTask core core2 project n
    → TasksBehind core
    → lookup id core.tasks ≡ some row
    → IsLaterTask core2 id row
unfolding TasksBehind
put_task core core2 project n id row before p behind at = elim (Bool-cases (str_eq p.id id)) [
  | inr other ↦
      stays_task core core2 id row
        (ap (lookup id) p.table ∙ lookup-put p.id id p.row core.tasks ∙ rw other at)
  | inl e ↦
      let same = (str_eq_iff p.id id).0 e in
      elim p.source [
        | inl fresh ↦ absurd (cc (ap (λ x. lookup x core.tasks) same, fresh.0, at))
        | inr s ↦
            let old : s.old ≡ row =
              ground (arith, ap (λ x. lookup x core.tasks) same, s.stood, at) in
            record {
              later = p.row;
              stands = ap (lookup id) p.table ∙ lookup-put p.id id p.row core.tasks ∙ rw e refl;
              same_project = p.in_project ∙ sym s.same_project ∙ ap TaskRow.project_id old;
              no_earlier = omega (
                arith,
                behind id row at,
                p.at_revision,
                ap (λ x. revision_of x core) (sym (ap TaskRow.project_id old) ∙ s.same_project),
                before,
              );
              moved =
                  subst
                    (λ o.
                      (p.row.state ≡ TaskRow.state o)
                      ⊎ (task_transition_allowed (TaskRow.state o) p.row.state ≡ true))
                    old s.moved;
            }
      ]
]

pub Effect-IsLaterTask :
    (core core2 : Core) (project : String) (n : ℕ) (id : String) (row : TaskRow)
    → Effect core core2 project n
    → TasksBehind core
    → lookup id core.tasks ≡ some row
    → IsLaterTask core2 id row
Effect-IsLaterTask core core2 project n id row e behind at = elim e.tasks [
  | inl same ↦ stays_task core core2 id row (ap (lookup id) same ∙ at)
  | inr p ↦ put_task core core2 project n id row e.before p behind at
]

stays_milestone :
    (core core2 : Core) (id : String) (row : MilestoneRow)
    → lookup id core2.milestones ≡ some row
    → IsLaterMilestone core2 id row
stays_milestone core core2 id row at = record {
  later = row;
  stands = at;
  same_project = refl;
  no_earlier = omega arith;
}

put_milestone :
    (core core2 : Core) (project : String) (n : ℕ) (id : String) (row : MilestoneRow)
    → revision_of project core ≡ n
    → PutsMilestone core core2 project n
    → MilestonesBehind core
    → lookup id core.milestones ≡ some row
    → IsLaterMilestone core2 id row
unfolding MilestonesBehind
put_milestone core core2 project n id row before p behind at = elim (Bool-cases (str_eq p.id id)) [
  | inr other ↦
      stays_milestone core core2 id row
        (ap (lookup id) p.table ∙ lookup-put p.id id p.row core.milestones ∙ rw other at)
  | inl e ↦
      let same = (str_eq_iff p.id id).0 e in
      elim p.source [
        | inl fresh ↦ absurd (cc (ap (λ x. lookup x core.milestones) same, fresh, at))
        | inr (old, stood, of_project) ↦
            let kept : old ≡ row =
              ground (arith, ap (λ x. lookup x core.milestones) same, stood, at) in
            record {
              later = p.row;
              stands =
                  ap (lookup id) p.table ∙ lookup-put p.id id p.row core.milestones ∙ rw e refl;
              same_project = p.in_project ∙ sym of_project ∙ ap MilestoneRow.project_id kept;
              no_earlier = omega (
                arith,
                behind id row at,
                p.at_revision,
                ap (λ x. revision_of x core) (sym (ap MilestoneRow.project_id kept) ∙ of_project),
                before,
              );
            }
      ]
]

pub Effect-IsLaterMilestone :
    (core core2 : Core) (project : String) (n : ℕ) (id : String) (row : MilestoneRow)
    → Effect core core2 project n
    → MilestonesBehind core
    → lookup id core.milestones ≡ some row
    → IsLaterMilestone core2 id row
Effect-IsLaterMilestone core core2 project n id row e behind at = elim e.milestones [
  | inl same ↦ stays_milestone core core2 id row (ap (lookup id) same ∙ at)
  | inr p ↦ put_milestone core core2 project n id row e.before p behind at
]
