-- ===== src/Core/Wiki.antt =====
-- The transaction of AppendWikiRevision in internal/store/project_core_write.go, between the replay
-- tests and the record.
use Prim.Native.String
use codex_commons.Prelude.{
  ℕ, suc, String, Bool, false, Option, none, some, List, [], ◌∷◌, ◌&&◌, ◌||◌, not,
}
use codex_commons.Prelude.Tests.{str_eq, ◌==◌, if◌then◌else◌}
use codex_commons.Prelude.Table.{Table, lookup, put}
use codex_commons.Prelude.Int.{ℤ, pos, eqb_ℤ, zero_ℤ}
use codex_commons.Prelude.Results.{ok, err, ◌>>=◌, ◌>>◌, require}
use codex_commons.Core.Types.{
  Fails, Stops, conflict, constraint, Core, Draw, Written, PageRow, WikiRevisionRow,
  AppendWikiRevision,
}
use codex_commons.Core.Rows.{
  directly, mapped, with_recheck, insert_row, update_row, bump_project_revision, insert_core_change,
  insert_core_activity,
}

-- SELECT id,current_revision FROM wiki_pages WHERE project_id=? AND slug=?
unfoldable pub page_of : String → String → Table PageRow → Option (String × ℕ)
page_of project_id slug [] = none
page_of project_id slug ((id, row) ∷ rows) =
    let rest = page_of project_id slug rows in
    if str_eq (PageRow.project_id row) project_id && str_eq row.slug slug
    then some (id, row.current_revision)
    else rest

-- The page that the revision is for: a new one, or one of the revision that the command names.
unfoldable pub find_page : Draw → AppendWikiRevision → Core → Fails (String × ℕ)
find_page d command core = elim (page_of command.project_id command.slug core.pages) [
  | none ↦ do require (eqb_ℤ command.base_revision zero_ℤ) conflict; ok (d.object_id, 0)
  | some (id, current) ↦ do
    require (eqb_ℤ (pos current) command.base_revision) conflict
    ok (id, current)
]

-- The unique key (project_id, slug).
has_slug : String → String → Table PageRow → Bool
has_slug project_id slug [] = false
has_slug project_id slug ((id, row) ∷ rows) =
    str_eq (PageRow.project_id row) project_id && str_eq row.slug slug
    || has_slug project_id slug rows

retitle : String → ℕ → PageRow → PageRow
retitle title revision row = record row { title = title; current_revision = revision }

unfoldable pub write_page : AppendWikiRevision → String → ℕ → Core → Fails Core
unfolding has_slug retitle
write_page command id current core =
    if current == 0
    then (do
      require (not (has_slug command.project_id command.slug core.pages)) constraint
      pages ←
          insert_row id
            (record {
              project_id = command.project_id;
              slug = command.slug;
              title = command.title;
              current_revision = suc current;
            })
            core.pages
      ok (record core { pages = pages }))
    else ok (record core { pages = update_row id (retitle command.title (suc current)) core.pages })

has_revision : String → ℕ → List WikiRevisionRow → Bool
has_revision page_id revision [] = false
has_revision page_id revision (row ∷ rows) =
    str_eq row.page_id page_id && row.revision == revision || has_revision page_id revision rows

unfoldable pub insert_revision : AppendWikiRevision → String → ℕ → ℤ → Core → Fails Core
unfolding has_revision
insert_revision command id revision now core =
    if has_revision id revision core.wiki_revisions
    then err constraint
    else ok (record core {
      wiki_revisions =
          record {
            page_id = id;
            revision = revision;
            summary = command.summary;
            body = command.body;
            author_session_id = command.meta.session_id;
            created_at = now;
          }
          ∷ core.wiki_revisions;
    })

abbrev join : String → String → String
join s t = String.◌++◌ s (String.◌++◌ " " t)

-- INSERT INTO search_documents ... ON CONFLICT(ref) DO UPDATE, which leaves the project and the kind.
unfoldable pub index_page : AppendWikiRevision → String → ℕ → Core → Core
index_page command id revision core =
    let text = join command.summary command.body in
    record core {
      search_documents =
          put id
            (elim (lookup id core.search_documents) [
              | none ↦ record {
                project_id = command.project_id;
                kind = "wiki";
                revision = revision;
                title = command.title;
                body = text;
              }
              | some row ↦ record row { revision = revision; title = command.title; body = text }
            ])
            core.search_documents;
    }

unfoldable pub append_wiki_revision : Draw → AppendWikiRevision → Core → Stops (Core × Written)
append_wiki_revision d command core = do
  (id, current) ← directly (find_page d command core)
  (bumped, project_revision) ← directly (bump_project_revision core command.project_id d.now)
  paged ←
      (if current == 0
        then with_recheck (write_page command id current bumped)
        else mapped (write_page command id current bumped))
  revised ← mapped (insert_revision command id (suc current) d.now paged)
  changed ← directly (
      insert_core_change command.project_id project_revision "wiki_revised" id command.summary d.now
        (index_page command id project_revision revised))
  told ← directly (
      insert_core_activity d.activity_id "wiki_revised" command.project_id command.meta.actor_id id
        command.title "revision appended" d.now changed)
  ok (told, record { id = id; revision = suc current; project_revision = project_revision })
