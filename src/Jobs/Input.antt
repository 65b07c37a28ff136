-- ===== src/Jobs/Input.antt =====
-- validateInput and semanticInputDigest of internal/jobs/runner.go.
use codex_commons.Prelude.{
  ℕ, String, len, Bool, true, false, Option, none, some, List, [], ◌∷◌, not, ◌&&◌,
}
use codex_commons.Prelude.Tests.{is_none, leb, str_eq, if◌then◌else◌}
use codex_commons.Prelude.Lists.{length}
use codex_commons.Prelude.Text.{trim_space}
use codex_commons.Prelude.Int.{zero_ℤ, leb_ℤ}
use codex_commons.Prelude.Results.{ok, err}
use codex_commons.Jobs.Types.{
  WatchInput, ResolvedTask, RunRequest, Result, Err, invalid_input, nil_dereference, github_watcher,
  wiki_curator,
}

abbrev pub max_identifier : ℕ
max_identifier = 200

abbrev pub max_text : ℕ
max_text = 16384

abbrev pub max_evidence : ℕ
max_evidence = 32

-- The closure validID; Run tests its run id by the same condition.
unfoldable pub valid_id : String → Bool
valid_id value =
    not (str_eq value "") && leb (len value) max_identifier && str_eq (trim_space value) value

-- A text that is there and within maxText.
unfoldable pub valid_text : String → Bool
valid_text value = not (str_eq value "") && leb (len value) max_text

-- The loop over v.Evidence.
valid_evidence : List String → Bool
valid_evidence [] = true
valid_evidence (e ∷ es) = valid_text e && valid_evidence es

valid_watch : Option WatchInput → Bool
unfolding valid_id
valid_watch none = false
valid_watch (some w) = valid_id w.project && leb (len w.cursor) max_identifier

valid_resolved : Option ResolvedTask → Bool
unfolding valid_id valid_text valid_evidence
valid_resolved none = false
valid_resolved (some v) =
    valid_id v.project
    && valid_id v.task_id
    && str_eq v.state "resolved"
    && not (leb_ℤ v.resolution_revision zero_ℤ)
    && valid_text v.title
    && valid_text v.resolution
    && leb (length v.evidence) max_evidence
    && valid_evidence v.evidence

unfoldable pub validate_input : RunRequest → Option Err
unfolding valid_watch valid_resolved
validate_input q =
    if str_eq q.job github_watcher
    then (if is_none q.resolved && valid_watch q.watch then none else some invalid_input)
    else if str_eq q.job wiki_curator
    then (if is_none q.watch && valid_resolved q.resolved then none else some invalid_input)
    else some invalid_input

-- The versioned value that is marshalled: watcherInputV1 or curatorInputV1.
pub data Canonical : Type 0 where
  watcher_input : ℕ → WatchInput → Canonical
  curator_input : ℕ → ResolvedTask → Canonical

unfoldable pub canonical_input : RunRequest → Result Canonical
canonical_input q =
    if str_eq q.job github_watcher
    then elim q.watch [ some w ↦ ok (watcher_input 1 w) | none ↦ err nil_dereference ]
    else if str_eq q.job wiki_curator
    then elim q.resolved [ some v ↦ ok (curator_input 1 v) | none ↦ err nil_dereference ]
    else err invalid_input

-- `hash` is the hex SHA-256 of the JSON text of a canonical input.
unfoldable pub semantic_input_digest : (Canonical → String) → RunRequest → Result String
unfolding canonical_input
semantic_input_digest hash q = elim (canonical_input q) [ ok c ↦ ok (hash c) | err e ↦ err e ]
