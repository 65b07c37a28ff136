-- ===== src/Core/Effects/Projects.antt =====
-- The effect of CreateCanonicalProject and UpdateCanonicalProject.
use codex_commons.Prelude.{◌≡◌, refl, suc, some, arith, inl}
use codex_commons.Prelude.Table.{lookup, put, lookup-put}
use codex_commons.Prelude.Tests.{str_eq_refl}
use codex_commons.Prelude.Results.{ok}
use codex_commons.Core.Types.{Core, Draw, Written, ProjectRow, CreateProject, UpdateProject}
use codex_commons.Core.Rows.{
  insert_core_change, insert_core_activity, bump_project_revision, map_err,
}
use codex_commons.Core.Projects.{create_project, update_project}
use codex_commons.Core.Effects.{Effect, revision_of}
use codex_commons.Core.Effects.Revisions.{put_revision, put_twice, revision_at}

pub create_project-Effect :
    (d : Draw) (c : CreateProject) (core core2 : Core) (w : Written)
    → create_project d c core ≡ ok (core2, w)
    → Effect core core2 c.id 0
unfolding create_project insert_core_change insert_core_activity revision_of map_err
create_project-Effect d c core core2 w h = record {
  before = ground arith;
  revisions = λ id.
      put_revision core core2 c.id
        (record {
          name = c.name;
          status = c.status;
          purpose = c.purpose;
          now_text = c.now_text;
          revision = 1;
          updated_at = d.now;
        })
        id (ground arith);
  change = record {
    project_id = c.id;
    revision = 1;
    kind = "project_created";
    ref = c.id;
    summary = c.name;
    created_at = d.now;
  };
  logged = ground arith;
  of_project = refl;
  of_revision = refl;
  tasks = inl (ground arith);
  milestones = inl (ground arith);
  task = "";
  dependencies = λ u v e. inl (ground arith);
}

unfoldable pub described : Draw → UpdateProject → ProjectRow → ProjectRow
described d c row = record {
  name = c.name;
  status = c.status;
  purpose = c.purpose;
  now_text = c.now_text;
  revision = suc row.revision;
  updated_at = d.now;
}

pub projects-update :
    (d : Draw) (c : UpdateProject) (core core2 : Core) (w : Written) (row : ProjectRow)
    → update_project d c core ≡ ok (core2, w)
    → lookup c.id core.projects ≡ some row
    → core2.projects ≡ put c.id (described d c row) core.projects
unfolding update_project insert_core_change insert_core_activity bump_project_revision map_err
    described
projects-update d c core core2 w row h at =
    let bumped : ProjectRow = record row { revision = suc row.revision; updated_at = d.now } in
    ground (
      arith,
      lookup-put c.id c.id bumped core.projects,
      str_eq_refl c.id,
      put_twice c.id bumped (described d c row) core.projects,
    )

pub update_project-Effect :
    (d : Draw) (c : UpdateProject) (core core2 : Core) (w : Written) (row : ProjectRow)
    → update_project d c core ≡ ok (core2, w)
    → lookup c.id core.projects ≡ some row
    → Effect core core2 c.id row.revision
unfolding update_project insert_core_change insert_core_activity bump_project_revision revision_of
    map_err described
update_project-Effect d c core core2 w row h at = record {
  before = revision_at core c.id row at;
  revisions = λ id.
      put_revision core core2 c.id (described d c row) id
        (projects-update d c core core2 w row h at);
  change = record {
    project_id = c.id;
    revision = suc row.revision;
    kind = "project_updated";
    ref = c.id;
    summary = c.name;
    created_at = d.now;
  };
  logged = ground arith;
  of_project = refl;
  of_revision = refl;
  tasks = inl (ground arith);
  milestones = inl (ground arith);
  task = "";
  dependencies = λ u v e. inl (ground arith);
}
