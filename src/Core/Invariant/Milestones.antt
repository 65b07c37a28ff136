-- ===== src/Core/Invariant/Milestones.antt =====
-- The unique index milestones_one_active_per_project keeps one active milestone per project.
use codex_commons.Prelude.{◌≡◌, sym, ap, ◌∙◌, ℕ, String, false, some, [], ◌∷◌, arith, inl, inr}
use codex_commons.Prelude.Table.{Table, lookup, put_origin}
use codex_commons.Prelude.Tests.{str_eq, str_eq_iff, Bool-cases}
use codex_commons.Core.Types.{Core, MilestoneRow}
use codex_commons.Core.Rows.{other_active}
use codex_commons.Core.Effects.{PutsMilestone}
use codex_commons.Core.Invariant.{OneActive}

other_active_complete :
    (id k : String) (row : MilestoneRow) (project : String) (table : Table MilestoneRow)
    → other_active id project table ≡ false
    → lookup k table ≡ some row
    → row.status ≡ "active"
    → row.project_id ≡ project
    → k ≡ id
unfolding other_active lookup
other_active_complete id k row project [] h at s p = absurd (cc at)
other_active_complete id k row project ((j, other) ∷ table) h at s p =
    elim (Bool-cases (str_eq j k)) [
      | inl e ↦ ground (
        arith,
        str_eq_iff j k,
        str_eq_iff k id,
        str_eq_iff j id,
        str_eq_iff row.project_id project,
        str_eq_iff row.status "active",
      )
      | inr n ↦ other_active_complete id k row project table (ground arith) (ground arith) s p
    ]

-- The milestones other than the one that a write puts were there before.
pub put-OneActive :
    (core core2 : Core) (project : String) (n : ℕ)
    → PutsMilestone core core2 project n
    → OneActive core
    → OneActive core2
unfolding OneActive
put-OneActive core core2 project n p h i j a b ati atj sa sb same =
    let clash : (k : String) (row : MilestoneRow)
        → lookup k core.milestones ≡ some row
        → row.status ≡ "active"
        → p.row.status ≡ "active"
        → row.project_id ≡ p.row.project_id
        → k ≡ p.id =
      λ k row at s t q.
        other_active_complete p.id k row p.row.project_id core.milestones
          (ground (arith, p.one_active, str_eq_iff p.row.status "active", t)) at s q in
    elim (put_origin p.id i p.row a core.milestones (ap (lookup i) (sym p.table) ∙ ati)) [
      | inl (ei, ra) ↦
          elim (put_origin p.id j p.row b core.milestones (ap (lookup j) (sym p.table) ∙ atj)) [
            | inl (ej, rb) ↦ sym ei ∙ ej
            | inr oldj ↦
                sym ei
                ∙ sym (
                    clash j b oldj sb (ap MilestoneRow.status ra ∙ sa)
                      (sym same ∙ ap MilestoneRow.project_id (sym ra)))
          ]
      | inr oldi ↦
          elim (put_origin p.id j p.row b core.milestones (ap (lookup j) (sym p.table) ∙ atj)) [
            | inl (ej, rb) ↦
                clash i a oldi sa (ap MilestoneRow.status rb ∙ sb)
                  (same ∙ ap MilestoneRow.project_id (sym rb))
                ∙ ej
            | inr oldj ↦ h i j a b oldi oldj sa sb same
          ]
    ]
