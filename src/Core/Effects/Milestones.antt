-- ===== src/Core/Effects/Milestones.antt =====
-- The effect of CreateMilestone and UpdateMilestone.
use codex_commons.Prelude.{◌≡◌, refl, ℕ, suc, some, arith, inl, inr}
use codex_commons.Prelude.Table.{lookup, put}
use codex_commons.Prelude.Results.{ok}
use codex_commons.Core.Types.{
  Core, Draw, Written, ProjectRow, MilestoneRow, CreateMilestone, UpdateMilestone,
}
use codex_commons.Core.Rows.{
  insert_core_change, insert_core_activity, bump_project_revision, insert_milestone,
  rewrite_milestone, map_err,
}
use codex_commons.Core.Projects.{create_milestone, update_milestone}
use codex_commons.Core.Effects.{Effect, PutsMilestone}
use codex_commons.Core.Effects.Revisions.{bump_revision, revision_at}

created : Draw → CreateMilestone → ℕ → MilestoneRow
created d c n = record {
  project_id = c.project_id;
  title = c.title;
  status = c.status;
  position = c.position;
  target_date = c.target_date;
  project_revision = suc n;
  updated_at = d.now;
}

puts_created :
    (d : Draw) (c : CreateMilestone) (core core2 : Core) (w : Written) (row : ProjectRow)
    → create_milestone d c core ≡ ok (core2, w)
    → lookup c.project_id core.projects ≡ some row
    → PutsMilestone core core2 c.project_id row.revision
unfolding create_milestone insert_core_change insert_core_activity bump_project_revision
    insert_milestone created
puts_created d c core core2 w row h at = record {
  id = d.object_id;
  row = created d c row.revision;
  table = ground arith;
  in_project = refl;
  at_revision = refl;
  one_active = ground arith;
  source = inl (ground arith);
}

pub create_milestone-Effect :
    (d : Draw) (c : CreateMilestone) (core core2 : Core) (w : Written) (row : ProjectRow)
    → create_milestone d c core ≡ ok (core2, w)
    → lookup c.project_id core.projects ≡ some row
    → Effect core core2 c.project_id row.revision
unfolding create_milestone insert_core_change insert_core_activity bump_project_revision
    insert_milestone
create_milestone-Effect d c core core2 w row h at = record {
  before = revision_at core c.project_id row at;
  revisions = λ id. bump_revision core core2 c.project_id row d.now id at (ground arith);
  change = record {
    project_id = c.project_id;
    revision = suc row.revision;
    kind = "milestone_created";
    ref = d.object_id;
    summary = c.title;
    created_at = d.now;
  };
  logged = ground arith;
  of_project = refl;
  of_revision = refl;
  tasks = inl (ground arith);
  milestones = inr (puts_created d c core core2 w row h at);
  task = "";
  dependencies = λ u v e. inl (ground arith);
}

unfoldable pub updated : Draw → UpdateMilestone → ℕ → MilestoneRow → MilestoneRow
updated d c n old = record {
  project_id = old.project_id;
  title = c.title;
  status = c.status;
  position = c.position;
  target_date = c.target_date;
  project_revision = suc n;
  updated_at = d.now;
}

pub update_puts_milestone :
    (d : Draw) (c : UpdateMilestone) (core core2 : Core) (w : Written) (old : MilestoneRow)
    (row : ProjectRow)
    → update_milestone d c core ≡ ok (core2, w)
    → lookup c.id core.milestones ≡ some old
    → lookup old.project_id core.projects ≡ some row
    → core2.milestones ≡ put c.id (updated d c row.revision old) core.milestones
unfolding update_milestone insert_core_change insert_core_activity bump_project_revision
    rewrite_milestone map_err updated
update_puts_milestone d c core core2 w old row h stood at = ground arith

puts_updated :
    (d : Draw) (c : UpdateMilestone) (core core2 : Core) (w : Written) (old : MilestoneRow)
    (row : ProjectRow)
    → update_milestone d c core ≡ ok (core2, w)
    → lookup c.id core.milestones ≡ some old
    → lookup old.project_id core.projects ≡ some row
    → PutsMilestone core core2 old.project_id row.revision
unfolding update_milestone insert_core_change insert_core_activity bump_project_revision
    rewrite_milestone map_err updated
puts_updated d c core core2 w old row h stood at = record {
  id = c.id;
  row = updated d c row.revision old;
  table = update_puts_milestone d c core core2 w old row h stood at;
  in_project = refl;
  at_revision = refl;
  one_active = ground arith;
  source = inr (old, stood, refl);
}

pub update_milestone-Effect :
    (d : Draw) (c : UpdateMilestone) (core core2 : Core) (w : Written) (old : MilestoneRow)
    (row : ProjectRow)
    → update_milestone d c core ≡ ok (core2, w)
    → lookup c.id core.milestones ≡ some old
    → lookup old.project_id core.projects ≡ some row
    → Effect core core2 old.project_id row.revision
unfolding update_milestone insert_core_change insert_core_activity bump_project_revision
    rewrite_milestone map_err
update_milestone-Effect d c core core2 w old row h stood at = record {
  before = revision_at core old.project_id row at;
  revisions = λ id. bump_revision core core2 old.project_id row d.now id at (ground arith);
  change = record {
    project_id = old.project_id;
    revision = suc row.revision;
    kind = "milestone_updated";
    ref = c.id;
    summary = c.title;
    created_at = d.now;
  };
  logged = ground arith;
  of_project = refl;
  of_revision = refl;
  tasks = inl (ground arith);
  milestones = inr (puts_updated d c core core2 w old row h stood at);
  task = "";
  dependencies = λ u v e. inl (ground arith);
}
