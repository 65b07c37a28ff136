-- ===== src/Core/Effects/Tasks.antt =====
-- The effect of CreateCanonicalTask, UpdateCanonicalTask and ChangeCanonicalTaskState.
use codex_commons.Prelude.{
  ◌≡◌, refl, ap, ◌∙◌, ℕ, suc, String, none, some, true, false, arith, inl, inr,
}
use codex_commons.Prelude.Table.{Table, lookup, put, lookup-put}
use codex_commons.Prelude.Tests.{str_eq, str_eq_refl, if◌then◌else◌}
use codex_commons.Prelude.Results.{ok}
use codex_commons.Tasks.{task_transition_allowed}
use codex_commons.Core.Types.{
  Core, Draw, Written, ProjectRow, TaskRow, CreateTask, UpdateTask, ChangeTaskState,
}
use codex_commons.Core.Relations.{validate_task_relations}
use codex_commons.Core.Relations.Acyclic.{insert_origin, delete_origin}
use codex_commons.Core.Rows.{
  insert_core_change, insert_core_activity, bump_project_revision, insert_task_event,
  insert_dependencies, delete_dependencies, map_err,
}
use codex_commons.Core.Tasks.{create_task, update_task, change_task_state}
use codex_commons.Core.Effects.{Effect}
use codex_commons.Core.Effects.Revisions.{bump_revision, revision_at}
use codex_commons.Core.Effects.Relations.{validated-MilestoneFits, validated-IsNewDependency}

-- A row is found where it was put.
pub put_here :
    (core2 : Core) (id : String) (row : TaskRow) (table : Table TaskRow)
    → core2.tasks ≡ put id row table
    → lookup id core2.tasks ≡ some row
put_here core2 id row table h =
    ap (lookup id) h ∙ lookup-put id id row table ∙ rw (str_eq_refl id) refl

created : Draw → CreateTask → ℕ → TaskRow
created d c n = record {
  project_id = c.project_id;
  state = c.state;
  title = c.title;
  priority = c.priority;
  owner_session_id = "";
  accept_text = c.acceptance;
  description = c.description;
  milestone_id = c.milestone_id;
  project_revision = suc n;
  updated_at = d.now;
}

module _ (d : Draw) (c : CreateTask) (core core2 : Core) (w : Written) (row : ProjectRow)
    (h : create_task d c core ≡ ok (core2, w))
    (at : lookup c.project_id core.projects ≡ some row) where
  create_validates :
      validate_task_relations core c.project_id d.object_id c.milestone_id c.dependency_ids false
      ≡ ok tt
  unfolding create_task
  create_validates = ground arith

  create_puts : core2.tasks ≡ put d.object_id (created d c row.revision) core.tasks
  unfolding create_task insert_core_change insert_core_activity bump_project_revision
      insert_task_event created
  create_puts = ground arith

  create_fresh : lookup d.object_id core.tasks ≡ none
  unfolding create_task bump_project_revision
  create_fresh = ground arith

  create_depends :
      insert_dependencies d.object_id c.dependency_ids core.dependencies ≡ ok core2.dependencies
  unfolding create_task insert_core_change insert_core_activity bump_project_revision
      insert_task_event
  create_depends = ground arith

  pub create_task-Effect : Effect core core2 c.project_id row.revision
  unfolding create_task insert_core_change insert_core_activity bump_project_revision
      insert_task_event created
  create_task-Effect = record {
    before = revision_at core c.project_id row at;
    revisions = λ id. bump_revision core core2 c.project_id row d.now id at (ground arith);
    change = record {
      project_id = c.project_id;
      revision = suc row.revision;
      kind = "task_created";
      ref = d.object_id;
      summary = c.title;
      created_at = d.now;
    };
    logged = ground arith;
    of_project = refl;
    of_revision = refl;
    tasks = inr (record {
      id = d.object_id;
      row = created d c row.revision;
      table = create_puts;
      in_project = refl;
      at_revision = refl;
      source = inl (
        create_fresh,
        validated-MilestoneFits core c.project_id d.object_id c.milestone_id c.dependency_ids false
            create_validates,
      );
    });
    milestones = inl (ground arith);
    task = d.object_id;
    dependencies = λ u v e.
        elim (insert_origin d.object_id c.dependency_ids core.dependencies core2.dependencies u v
          create_depends e) [
            | inl old ↦ inl old
            | inr (same, k) ↦ inr (
              same,
              validated-IsNewDependency core c.project_id d.object_id c.milestone_id
                  c.dependency_ids false create_validates core2 v (created d c row.revision)
                  (put_here core2 d.object_id (created d c row.revision) core.tasks create_puts)
                  refl (inl create_fresh) k,
            )
          ];
  }

unfoldable pub updated : Draw → UpdateTask → ℕ → TaskRow → TaskRow
updated d c n old = record old {
  title = c.title;
  description = c.description;
  accept_text = c.acceptance;
  priority = c.priority;
  milestone_id = c.milestone_id;
  project_revision = suc n;
  updated_at = d.now;
}

module _ (d : Draw) (c : UpdateTask) (core core2 : Core) (w : Written) (old : TaskRow)
    (row : ProjectRow) (h : update_task d c core ≡ ok (core2, w))
    (stood : lookup c.id core.tasks ≡ some old)
    (at : lookup old.project_id core.projects ≡ some row) where
  update_validates :
      validate_task_relations core old.project_id c.id c.milestone_id c.dependency_ids true ≡ ok tt
  unfolding update_task
  update_validates = ground arith

  pub update_puts : core2.tasks ≡ put c.id (updated d c row.revision old) core.tasks
  unfolding update_task insert_core_change insert_core_activity bump_project_revision
      insert_task_event map_err updated
  update_puts = ground arith

  update_depends :
      insert_dependencies c.id c.dependency_ids (delete_dependencies c.id core.dependencies)
      ≡ ok core2.dependencies
  unfolding update_task insert_core_change insert_core_activity bump_project_revision
      insert_task_event map_err
  update_depends = ground arith

  pub update_task-Effect : Effect core core2 old.project_id row.revision
  unfolding update_task insert_core_change insert_core_activity bump_project_revision
      insert_task_event map_err updated
  update_task-Effect =
      let fits =
        validated-MilestoneFits core old.project_id c.id c.milestone_id c.dependency_ids true
          update_validates in
      record {
        before = revision_at core old.project_id row at;
        revisions = λ id. bump_revision core core2 old.project_id row d.now id at (ground arith);
        change = record {
          project_id = old.project_id;
          revision = suc row.revision;
          kind = "task_updated";
          ref = c.id;
          summary = c.title;
          created_at = d.now;
        };
        logged = ground arith;
        of_project = refl;
        of_revision = refl;
        tasks = inr (record {
          id = c.id;
          row = updated d c row.revision old;
          table = update_puts;
          in_project = refl;
          at_revision = refl;
          source = inr (record {
            old = old;
            stood = stood;
            same_project = refl;
            moved = inl refl;
            fits = inr fits;
          });
        });
        milestones = inl (ground arith);
        task = c.id;
        dependencies = λ u v e.
            elim (insert_origin c.id c.dependency_ids (delete_dependencies c.id core.dependencies)
              core2.dependencies u v update_depends e) [
                | inl kept ↦ inl (delete_origin c.id u v core.dependencies kept)
                | inr (same, k) ↦ inr (
                  same,
                  validated-IsNewDependency core old.project_id c.id c.milestone_id c.dependency_ids
                      true update_validates core2 v (updated d c row.revision old)
                      (put_here core2 c.id (updated d c row.revision old) core.tasks update_puts)
                      refl (inr refl) k,
                )
              ];
      }

unfoldable pub moved : Draw → ChangeTaskState → ℕ → TaskRow → TaskRow
moved d c n old = record old {
  state = c.state;
  project_revision = suc n;
  updated_at = d.now;
  owner_session_id = if str_eq c.state "ready" then "" else old.owner_session_id;
}

module _ (d : Draw) (c : ChangeTaskState) (core core2 : Core) (w : Written) (old : TaskRow)
    (row : ProjectRow) (h : change_task_state d c core ≡ ok (core2, w))
    (stood : lookup c.id core.tasks ≡ some old)
    (at : lookup old.project_id core.projects ≡ some row) where
  pub move_puts : core2.tasks ≡ put c.id (moved d c row.revision old) core.tasks
  unfolding change_task_state insert_core_change insert_core_activity bump_project_revision
      insert_task_event map_err moved
  move_puts = ground arith

  move_allowed : task_transition_allowed old.state c.state ≡ true
  unfolding change_task_state
  move_allowed = ground arith

  pub change_task_state-Effect : Effect core core2 old.project_id row.revision
  unfolding change_task_state insert_core_change insert_core_activity bump_project_revision
      insert_task_event map_err moved
  change_task_state-Effect = record {
    before = revision_at core old.project_id row at;
    revisions = λ id. bump_revision core core2 old.project_id row d.now id at (ground arith);
    change = record {
      project_id = old.project_id;
      revision = suc row.revision;
      kind = "task_state_changed";
      ref = c.id;
      summary = c.state;
      created_at = d.now;
    };
    logged = ground arith;
    of_project = refl;
    of_revision = refl;
    tasks = inr (record {
      id = c.id;
      row = moved d c row.revision old;
      table = move_puts;
      in_project = refl;
      at_revision = refl;
      source = inr (record {
        old = old;
        stood = stood;
        same_project = refl;
        moved = inr move_allowed;
        fits = inl refl;
      });
    });
    milestones = inl (ground arith);
    task = c.id;
    dependencies = λ u v e. inl (ground arith);
  }
