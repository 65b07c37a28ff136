-- ===== src/Core/Effects/Revisions.antt =====
-- The revision of a project behind an update of its row.
use codex_commons.Prelude.{◌≡◌, refl, ap, suc, String, some, arith, [], ◌∷◌}
use codex_commons.Prelude.Int.{ℤ}
use codex_commons.Prelude.Table.{Table, lookup, put, lookup-put}
use codex_commons.Prelude.Tests.{str_eq, str_eq_iff, if◌then◌else◌}
use codex_commons.Core.Types.{Core, ProjectRow}
use codex_commons.Core.Effects.{revision_of}

pub put_revision :
    (core core2 : Core) (id : String) (row : ProjectRow) (k : String)
    → core2.projects ≡ put id row core.projects
    → revision_of k core2 ≡ (if str_eq id k then row.revision else revision_of k core)
unfolding revision_of
put_revision core core2 id row k h =
    ground (arith, lookup-put id k row core.projects, ap (lookup k) h)

pub put_twice :
    (id : String) (row row2 : ProjectRow) (table : Table ProjectRow)
    → put id row2 (put id row table) ≡ put id row2 table
unfolding put
put_twice id row row2 [] = ground (arith, str_eq_iff id id)
put_twice id row row2 ((j, other) ∷ table) =
    ground (arith, str_eq_iff j id, str_eq_iff id id, put_twice id row row2 table)

pub bump_revision :
    (core core2 : Core) (id : String) (row : ProjectRow) (now : ℤ) (k : String)
    → lookup id core.projects ≡ some row
    → core2.projects
      ≡ put id (record row { revision = suc row.revision; updated_at = now }) core.projects
    → revision_of k core2 ≡ (if str_eq id k then suc row.revision else revision_of k core)
bump_revision core core2 id row now k at h =
    put_revision core core2 id (record row { revision = suc row.revision; updated_at = now }) k h

pub revision_at :
    (core : Core) (id : String) (row : ProjectRow)
    → lookup id core.projects ≡ some row
    → revision_of id core ≡ row.revision
unfolding revision_of
revision_at core id row at = rw (at, revision_of) refl
