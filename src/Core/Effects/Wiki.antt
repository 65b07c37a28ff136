-- ===== src/Core/Effects/Wiki.antt =====
-- The effect of AppendWikiRevision on the tables of projects, milestones and tasks.
use codex_commons.Prelude.{◌≡◌, refl, ℕ, suc, String, some, arith, inl}
use codex_commons.Prelude.Table.{lookup}
use codex_commons.Prelude.Results.{ok}
use codex_commons.Core.Types.{Core, Draw, Written, ProjectRow, AppendWikiRevision}
use codex_commons.Core.Rows.{
  insert_core_change, insert_core_activity, bump_project_revision, map_err,
}
use codex_commons.Core.Wiki.{
  append_wiki_revision, find_page, write_page, insert_revision, index_page,
}
use codex_commons.Core.Effects.{Effect}
use codex_commons.Core.Effects.Revisions.{bump_revision, revision_at}

pub append_wiki_revision-Effect :
    (d : Draw) (c : AppendWikiRevision) (core core2 : Core) (w : Written) (row : ProjectRow)
    (id : String) (current : ℕ)
    → append_wiki_revision d c core ≡ ok (core2, w)
    → find_page d c core ≡ ok (id, current)
    → lookup c.project_id core.projects ≡ some row
    → Effect core core2 c.project_id row.revision
unfolding append_wiki_revision insert_core_change insert_core_activity bump_project_revision map_err
    write_page insert_revision index_page
append_wiki_revision-Effect d c core core2 w row id current h found at = record {
  before = revision_at core c.project_id row at;
  revisions = λ k. bump_revision core core2 c.project_id row d.now k at (ground arith);
  change = record {
    project_id = c.project_id;
    revision = suc row.revision;
    kind = "wiki_revised";
    ref = id;
    summary = c.summary;
    created_at = d.now;
  };
  logged = ground arith;
  of_project = refl;
  of_revision = refl;
  tasks = inl (ground arith);
  milestones = inl (ground arith);
  task = "";
  dependencies = λ u v e. inl (ground arith);
}
