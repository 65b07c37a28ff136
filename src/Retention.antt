-- ===== src/Retention.antt =====
-- internal/opsbackup/retention_linux.go: which backups are removed. A directory is a table of the files
-- that its names stand for. What happens between the two inspections of a file, WaitHold and other
-- processes included, is a parameter. Listing the directory and the last unlinkat(2) do not fail here.
pub mod Identity
pub mod Order
pub mod Newest
mod Examples
use Prim.Native.String
use codex_commons.Prelude.{
  ℕ, zero, suc, String, Bool, true, false, Option, none, some, List, [], ◌∷◌, ◌&&◌, ◌||◌, not,
}
use codex_commons.Prelude.Tests.{leb, ltb, ◌==◌, str_eq, if◌then◌else◌}
use codex_commons.Prelude.Lists.{length, drop}
use codex_commons.Prelude.Table.{Table, lookup, remove}
use codex_commons.Prelude.Text.{str_ltb, all_chars}
use codex_commons.Prelude.Int.{ℤ, ltb_ℤ, eqb_ℤ, zero_ℤ, pos_part}
use codex_commons.Archaeology.Texts.{has_prefix, behind_prefix, has_suffix, contains_text}

-- What OpenValidatedRegular tests of a file (regular, one link, mode 0600, the operator's), as one
-- flag, and what Fstat answers.
pub record File : Type 0 where
  pub validated : Bool
  pub sec : ℤ
  pub nsec : ℤ
  pub dev : ℕ
  pub ino : ℕ

abbrev pub Dir : Type 0
Dir = Table File

pub record RetainedFile : Type 0 where
  pub name : String
  pub sec : ℤ
  pub nsec : ℤ
  pub dev : ℕ
  pub ino : ℕ

-- What the directory becomes at the hold point, and the error of WaitHold, if there is one.
abbrev pub Hold : Type 0
Hold = Dir → Dir × Option String

-- Dir.OpenValidatedRegular.
unfoldable pub open_validated : String → Dir → Option File
open_validated name dir = elim (lookup name dir) [
  | none ↦ none
  | some file ↦ if file.validated then some file else none
]

abbrev is_core_char : ℕ → Bool
is_core_char c =
    leb 0x41 c && leb c 0x5a || leb 0x61 c && leb c 0x7a || leb 0x30 c && leb c 0x39 || c == 0x2d

-- strings.TrimSuffix, of a suffix that is there.
unfoldable pub without_suffix : String → String → String
without_suffix suffix String.[] = String.[]
without_suffix suffix (String.◌∷◌ c s) =
    let rest = without_suffix suffix s in
    if str_eq (String.◌∷◌ c s) suffix then String.[] else String.◌∷◌ c rest

unfoldable pub is_backup_leaf : String → Bool
is_backup_leaf name =
    let core = without_suffix ".sqlite3" (behind_prefix name "commons-") in
    if not (has_prefix name "commons-") || not (has_suffix name ".sqlite3")
    then false
    else if contains_text name "/" || str_eq name "." || str_eq name ".."
    then false
    else if str_eq core ""
    then false
    else all_chars is_core_char core

-- The loop over the names of the directory.
unfoldable pub backups_in : Dir → Dir → List RetainedFile
backups_in dir [] = []
backups_in dir ((name, entry) ∷ entries) =
    let rest = backups_in dir entries in
    if not (is_backup_leaf name) then rest else elim (open_validated name dir) [
      | none ↦ rest
      | some st ↦
          record { name = name; sec = st.sec; nsec = st.nsec; dev = st.dev; ino = st.ino } ∷ rest
    ]

-- The comparison of sort.Slice: the newer file first, and of two as new the one of the larger name.
unfoldable pub stands_before : RetainedFile → RetainedFile → Bool
stands_before a b =
    if not (eqb_ℤ a.sec b.sec)
    then ltb_ℤ b.sec a.sec
    else if not (eqb_ℤ a.nsec b.nsec)
    then ltb_ℤ b.nsec a.nsec
    else str_ltb b.name a.name

unfoldable pub insert_file : RetainedFile → List RetainedFile → List RetainedFile
insert_file x [] = x ∷ []
insert_file x (y ∷ ys) =
    let rest = insert_file x ys in if stands_before y x then y ∷ rest else x ∷ y ∷ ys

-- sort.Slice, made here by insertion: the names are distinct, so the order is total.
unfoldable pub sort_files : List RetainedFile → List RetainedFile
sort_files [] = []
sort_files (x ∷ xs) = insert_file x (sort_files xs)

abbrev no_identity : ℕ → ℕ → Bool
no_identity dev ino = dev == 0 && ino == 0

unfoldable pub unlink_held : File → String → Dir × Option String → Dir × Option String
unlink_held st name (dir, some e) = (dir, some e)
unlink_held st name (dir, none) = elim (open_validated name dir) [
  | none ↦ (dir, none)
  | some again ↦
      if again.dev == st.dev && again.ino == st.ino then (remove name dir, none) else (dir, none)
]

unfoldable pub unlink_validated : Hold → String → ℕ → ℕ → Dir → Dir × Option String
unfolding unlink_held
unlink_validated hold name dev ino dir = elim (open_validated name dir) [
  | none ↦ (dir, none)
  | some st ↦
      if not (no_identity dev ino) && (not (st.dev == dev) || not (st.ino == ino))
      then (dir, none)
      else unlink_held st name (hold dir)
]

-- The two files beside a backup, whose errors are ignored.
unfoldable pub unlink_companions : Hold → String → Dir → Dir
unlink_companions hold name dir =
    (unlink_validated hold (String.◌++◌ name ".receipt.json") 0 0
      (unlink_validated hold (String.◌++◌ name ".sha256") 0 0 dir).0).0

unfoldable pub unlink_all : Hold → List RetainedFile → Dir → Dir × Option String
unlink_all hold [] dir = (dir, none)
unlink_all hold (f ∷ fs) dir =
    let (dir', outcome) = unlink_validated hold f.name f.dev f.ino dir in
    let rest = unlink_all hold fs (unlink_companions hold f.name dir') in
    elim outcome [ some e ↦ (dir', some e) | none ↦ rest ]

abbrev pub kept_count : ℤ → ℕ
kept_count keep = pos_part keep

-- With no more files than are kept, the loop has nothing to do.
unfoldable pub retain_validated : Hold → ℤ → Dir → Dir × Option String
retain_validated hold keep dir =
    unlink_all hold (drop (kept_count keep) (sort_files (backups_in dir dir))) dir
