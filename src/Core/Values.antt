-- ===== src/Core/Values.antt =====
-- Tests of values in internal/store/project_core_helpers.go and of its callers.
use Prim.Native.Nat.{◌*◌, ◌%◌}
use Prim.Native.Char.{code}
use codex_commons.Prelude.{
  ℕ, zero, suc, ◌+◌, ◌-◌, String, len, Bool, true, false, Option, none, some, List, [], ◌∷◌, ◌&&◌,
  ◌||◌, not,
}
use codex_commons.Prelude.Tests.{leb, ◌==◌, str_eq, if◌then◌else◌}
use codex_commons.Prelude.Text.{all_chars}
use codex_commons.Prelude.Int.{ℤ, ltb_ℤ}

abbrev is_digit : ℕ → Bool
is_digit c = leb 0x30 c && leb c 0x39

abbrev is_id_char : ℕ → Bool
is_id_char c = leb 0x61 c && leb c 0x7a || is_digit c || c == 0x2d

abbrev starts_id : String → Bool
starts_id String.[] = false
starts_id (String.◌∷◌ c s) = not (code c == 0x2d)

-- projectIDPattern
unfoldable pub is_project_id : String → Bool
is_project_id s = starts_id s && all_chars is_id_char s && leb (len s) 100

-- wikiSlugPattern
unfoldable pub is_wiki_slug : String → Bool
is_wiki_slug s = starts_id s && all_chars is_id_char s && leb (len s) 120

-- ProjectWriteStatuses
abbrev pub project_write_statuses : List String
project_write_statuses = "active" ∷ "paused" ∷ "completed" ∷ "archived" ∷ []

-- MilestoneStatuses
abbrev pub milestone_statuses : List String
milestone_statuses = "planned" ∷ "active" ∷ "completed" ∷ "cancelled" ∷ []

abbrev is_leap : ℕ → Bool
is_leap y = y % 4 == 0 && (not (y % 100 == 0) || y % 400 == 0)

abbrev days_in : ℕ → ℕ → ℕ
days_in y m =
    if m == 2
    then (if is_leap y then 29 else 28)
    else if m == 4 || m == 6 || m == 9 || m == 11
    then 30
    else 31

-- A number of exactly `n` digits and what stands behind it.
read_number : ℕ → ℕ → String → Option (ℕ × String)
read_number zero value s = some (value, s)
read_number (suc n) value String.[] = none
read_number (suc n) value (String.◌∷◌ c s) =
    let rest = read_number n (value * 10 + (code c - 48)) s in
    if is_digit (code c) then rest else none

abbrev after_dash : String → Option String
after_dash String.[] = none
after_dash (String.◌∷◌ c s) = if code c == 0x2d then some s else none

valid_day : ℕ → ℕ → ℕ → Bool
valid_day y m d = leb 1 m && leb m 12 && leb 1 d && leb d (days_in y m)

read_day : ℕ → ℕ → String → Bool
unfolding read_number valid_day
read_day y m s = elim (read_number 2 0 s) [
  | none ↦ false
  | some (d, rest) ↦ str_eq rest "" && valid_day y m d
]

read_month : ℕ → String → Bool
unfolding read_day
read_month y s = elim (read_number 2 0 s) [
  | none ↦ false
  | some (m, rest) ↦ elim (after_dash rest) [ none ↦ false | some tail ↦ read_day y m tail ]
]

-- A text that time.Parse reads by the layout 2006-01-02 and that Format writes back.
unfoldable pub is_date : String → Bool
unfolding read_month
is_date s = elim (read_number 4 0 s) [
  | none ↦ false
  | some (y, rest) ↦ elim (after_dash rest) [ none ↦ false | some tail ↦ read_month y tail ]
]

-- validTargetDate
unfoldable pub valid_target_date : String → Bool
valid_target_date value = if str_eq value "" then true else is_date value

abbrev pub within : ℤ → ℤ → ℤ → Bool
within low high n = not (ltb_ℤ n low || ltb_ℤ high n)
