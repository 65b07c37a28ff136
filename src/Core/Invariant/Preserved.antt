-- ===== src/Core/Invariant/Preserved.antt =====
-- A write of the project core keeps the invariant of its tables.
use codex_commons.Prelude.{
  ◌≡◌, ◌≤◌, refl, sym, ap, subst, ◌∙◌, ℕ, suc, String, true, some, arith, inl, inr, ◌&&◌,
}
use codex_commons.Prelude.Table.{lookup, put_origin}
use codex_commons.Prelude.Tests.{str_eq, str_eq_iff, str_eq_refl, Bool-cases, ◌==◌}
use codex_commons.Core.Types.{Core, MilestoneRow, TaskRow}
use codex_commons.Core.Rows.{has_change}
use codex_commons.Core.Relations.Reachable.{DependsOn, directly_on, through}
use codex_commons.Core.Relations.Acyclic.{Acyclic, Safe, extended-Acyclic}
use codex_commons.Core.Effects.{Effect, PutsTask, revision_of, MilestoneFits}
use codex_commons.Core.Invariant.{
  IsSound, TasksBehind, MilestonesBehind, TasksFit, DependenciesWithin, Logged, OneActive,
}
use codex_commons.Core.Invariant.Growth.{Effect-IsLaterTask, Effect-IsLaterMilestone}
use codex_commons.Core.Invariant.Milestones.{put-OneActive}

depends_on_task :
    (core : Core) (u w : String)
    → DependenciesWithin core
    → DependsOn core.dependencies u w
    → (b : TaskRow) × (lookup w core.tasks ≡ some b)
unfolding DependenciesWithin
depends_on_task core u w h (directly_on e) = let (a, b, ata, atb, same) = h u w e in (b, atb)
depends_on_task core u w h (through {other = v} p e) =
    let (a, b, ata, atb, same) = h v w e in (b, atb)

module _ (core core2 : Core) (project : String) (n : ℕ) (e : Effect core core2 project n) where
  pub revision_grows : (k : String) → revision_of k core ≤ revision_of k core2
  revision_grows k =
      ground (arith, e.revisions k, e.before, str_eq_iff project k, ap (λ x. revision_of x core))

  revision_here : revision_of project core2 ≡ suc n
  revision_here = e.revisions project ∙ rw (str_eq_refl project) refl

  module _ (s : IsSound core) where
    keeps-TasksBehind : TasksBehind core2
    unfolding TasksBehind
    keeps-TasksBehind id row at = elim e.tasks [
      | inl same ↦ omega (
        arith,
        s.tasks_behind id row (ap (lookup id) (sym same) ∙ at),
        revision_grows row.project_id,
      )
      | inr p ↦ elim (put_origin p.id id p.row row core.tasks (ap (lookup id) (sym p.table) ∙ at)) [
        | inr old ↦ omega (arith, s.tasks_behind id row old, revision_grows row.project_id)
        | inl (_, here) ↦ omega (
          arith,
          ap TaskRow.project_revision here,
          p.at_revision,
          ap (λ x. revision_of x core2) (sym (ap TaskRow.project_id here) ∙ p.in_project),
          revision_here,
        )
      ]
    ]

    keeps-MilestonesBehind : MilestonesBehind core2
    unfolding MilestonesBehind
    keeps-MilestonesBehind id row at = elim e.milestones [
      | inl same ↦ omega (
        arith,
        s.milestones_behind id row (ap (lookup id) (sym same) ∙ at),
        revision_grows row.project_id,
      )
      | inr p ↦
          elim (put_origin p.id id p.row row core.milestones (ap (lookup id) (sym p.table) ∙ at)) [
            | inr old ↦ omega (arith, s.milestones_behind id row old, revision_grows row.project_id)
            | inl (_, here) ↦ omega (
              arith,
              ap MilestoneRow.project_revision here,
              p.at_revision,
              ap (λ x. revision_of x core2) (sym (ap MilestoneRow.project_id here) ∙ p.in_project),
              revision_here,
            )
          ]
    ]

    keeps-MilestoneFits : (q id : String) → MilestoneFits core q id → MilestoneFits core2 q id
    unfolding MilestoneFits
    keeps-MilestoneFits q id (inl empty) = inl empty
    keeps-MilestoneFits q id (inr (row, at, same)) =
        let after = Effect-IsLaterMilestone core core2 project n id row e s.milestones_behind at in
        inr (after.later, after.stands, after.same_project ∙ same)

    put-MilestoneFits :
        (p : PutsTask core core2 project n) → MilestoneFits core p.row.project_id p.row.milestone_id
    unfolding TasksFit
    put-MilestoneFits p = elim p.source [
      | inl (fresh, fits) ↦
          subst (λ q. MilestoneFits core q p.row.milestone_id) (sym p.in_project) fits
      | inr t ↦ elim t.fits [
        | inr fits ↦ subst (λ q. MilestoneFits core q p.row.milestone_id) (sym p.in_project) fits
        | inl same ↦
            subst (λ q. MilestoneFits core q p.row.milestone_id) (t.same_project ∙ sym p.in_project)
              (subst (MilestoneFits core t.old.project_id) (sym same)
                (s.tasks_fit p.id t.old t.stood))
      ]
    ]

    keeps-TasksFit : TasksFit core2
    unfolding TasksFit
    keeps-TasksFit id row at = elim e.tasks [
      | inl same ↦
          keeps-MilestoneFits row.project_id row.milestone_id
            (s.tasks_fit id row (ap (lookup id) (sym same) ∙ at))
      | inr p ↦ elim (put_origin p.id id p.row row core.tasks (ap (lookup id) (sym p.table) ∙ at)) [
        | inr old ↦ keeps-MilestoneFits row.project_id row.milestone_id (s.tasks_fit id row old)
        | inl (_, here) ↦
            subst (λ r. MilestoneFits core2 (TaskRow.project_id r) (TaskRow.milestone_id r)) here
              (keeps-MilestoneFits p.row.project_id p.row.milestone_id (put-MilestoneFits p))
      ]
    ]

    keeps-DependenciesWithin : DependenciesWithin core2
    unfolding DependenciesWithin
    keeps-DependenciesWithin u v d =
        let later = λ (id : String) (row : TaskRow) (at : lookup id core.tasks ≡ some row).
          Effect-IsLaterTask core core2 project n id row e s.tasks_behind at in
        elim (e.dependencies u v d) [
          | inl old ↦
              let (a, b, ata, atb, same) = s.within u v old in
              let la = later u a ata in
              let lb = later v b atb in
              (
                la.later,
                lb.later,
                la.stands,
                lb.stands,
                la.same_project ∙ same ∙ sym lb.same_project,
              )
          | inr (same, fresh) ↦
              let lb = later v fresh.row fresh.stands in
              (
                fresh.holder,
                lb.later,
                ap (λ x. lookup x core2.tasks) same ∙ fresh.holds,
                lb.stands,
                fresh.holder_project ∙ sym (lb.same_project ∙ fresh.same_project),
              )
        ]

    keeps-Acyclic : Acyclic core2.dependencies
    unfolding Safe
    keeps-Acyclic = extended-Acyclic core.dependencies core2.dependencies e.task s.acyclic (λ u v d.
        elim (e.dependencies u v d) [
          | inl old ↦ inl old
          | inr (same, fresh) ↦ inr (
            same,
            (
              fresh.distinct,
              λ path. elim fresh.no_cycle [
                | inr never ↦ never path
                | inl new ↦
                    let (b, at) = depends_on_task core v e.task s.within path in
                    absurd (cc (new, at))
              ],
            ),
          )
        ])

    keeps-Logged : Logged core2
    unfolding Logged has_change
    keeps-Logged id k low high =
        subst (λ rows. has_change id k rows ≡ true) (sym e.logged)
          (elim (Bool-cases (str_eq e.change.project_id id && e.change.revision == k)) [
            | inl here ↦ rw here refl
            | inr other ↦ rw other (
                s.logged id k low (
                  ground (
                    arith,
                    other,
                    high,
                    e.revisions id,
                    e.before,
                    e.of_project,
                    e.of_revision,
                    str_eq_iff project id,
                    ap (λ x. revision_of x core),
                  )))
          ])

    keeps-OneActive : OneActive core2
    unfolding OneActive
    keeps-OneActive = elim e.milestones [
      | inr p ↦ put-OneActive core core2 project n p s.one_active
      | inl same ↦ λ i j a b ati atj.
          s.one_active i j a b (ap (lookup i) (sym same) ∙ ati) (ap (lookup j) (sym same) ∙ atj)
    ]

    pub Effect-IsSound : IsSound core2
    Effect-IsSound = record {
      tasks_behind = keeps-TasksBehind;
      milestones_behind = keeps-MilestonesBehind;
      tasks_fit = keeps-TasksFit;
      within = keeps-DependenciesWithin;
      acyclic = keeps-Acyclic;
      logged = keeps-Logged;
      one_active = keeps-OneActive;
    }
