-- ===== src/Retention/Examples.antt =====
-- The theorems of the retention at a concrete directory.
use codex_commons.Prelude.{◌≡◌, ◌⊎◌, true, none, [], ◌∷◌}
use codex_commons.Prelude.Int.{pos}
use codex_commons.Retention.{
  Dir, Hold, backups_in, sort_files, unlink_validated, retain_validated, unlink_all,
  unlink_companions, unlink_held, open_validated, insert_file, stands_before, is_backup_leaf,
  without_suffix,
}
use codex_commons.Retention.Identity.{IsRemoval, unlink_validated-IsRemoval}
use codex_commons.Retention.Newest.{IsOutdated, changed-IsOutdated}
use codex_commons.Prelude.{◌≢◌, refl}
use codex_commons.Prelude.Tests.{str_eq}
use codex_commons.Prelude.Table.{lookup, remove}
use codex_commons.Prelude.Text.{all_chars}
use codex_commons.Archaeology.Texts.{has_prefix, behind_prefix, has_suffix, contains_text}

abbrev directory : Dir
directory =
    (
      "commons-20260101T000000Z.sqlite3",
      record { validated = true; sec = pos 5; nsec = pos 0; dev = 1; ino = 7 },
    )
    ∷ (
      "commons-20260102T000000Z.sqlite3",
      record { validated = true; sec = pos 9; nsec = pos 0; dev = 1; ino = 8 },
    )
    ∷ []

abbrev quiet : Hold
quiet dir = (dir, none)

unlink_validated-IsRemoval_example :
    ((unlink_validated quiet "commons-20260101T000000Z.sqlite3" 1 7 directory).0 ≡ directory)
    ⊎ (((unlink_validated quiet "commons-20260101T000000Z.sqlite3" 1 7 directory).0
          ≡ (quiet directory).0)
        ⊎ IsRemoval "commons-20260101T000000Z.sqlite3" 1 7 directory
            (quiet directory).0
            (unlink_validated quiet "commons-20260101T000000Z.sqlite3" 1 7 directory).0)
unlink_validated-IsRemoval_example =
    unlink_validated-IsRemoval quiet "commons-20260101T000000Z.sqlite3" 1 7 directory

-- Of the two backups the older one goes.
changes :
    lookup "commons-20260101T000000Z.sqlite3" (retain_validated quiet (pos 1) directory).0
    ≢ lookup "commons-20260101T000000Z.sqlite3" directory
unfolding retain_validated unlink_all unlink_companions unlink_validated unlink_held open_validated
    sort_files insert_file stands_before backups_in is_backup_leaf without_suffix lookup remove
    str_eq has_prefix has_suffix behind_prefix contains_text all_chars
changes e = cc e

changed-IsOutdated_example : IsOutdated (pos 1) directory "commons-20260101T000000Z.sqlite3"
changed-IsOutdated_example =
    changed-IsOutdated quiet (pos 1) directory "commons-20260101T000000Z.sqlite3" (λ d. refl)
      changes
