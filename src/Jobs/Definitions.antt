-- ===== src/Jobs/Definitions.antt =====
-- Definition.Validate, WatcherDefinition and CuratorDefinition of internal/jobs/types.go, and
-- validateBuiltinDefinition and NewRunner of internal/jobs/runner.go.
pub mod Envelope
use codex_commons.Prelude.{String, Bool, Option, none, some, List, [], ◌∷◌, not, ◌&&◌, ◌||◌}
use codex_commons.Prelude.Tests.{is_none, ◌==◌, str_eq, if◌then◌else◌}
use codex_commons.Prelude.Lists.{length, contains, contains_all}
use codex_commons.Prelude.Table.{Table, lookup, put}
use codex_commons.Prelude.Int.{ℤ, zero_ℤ, ltb_ℤ, leb_ℤ, eqb_ℤ}
use codex_commons.Prelude.Results.{ok, err, ◌>>=◌, ◌>>◌, require, check}
use codex_commons.Jobs.Types.{
  Definition, Result, invalid_definition, Err, github_watcher, wiki_curator, capability_github_read,
  capability_interpret, capability_wiki_propose, capability_create_jobs, capability_wake_agents,
  output_sync_receipt, output_wiki_revision_proposal, watcher_input_scope, curator_input_scope,
}

-- The loop over d.Capabilities; `seen` holds the capabilities before this one.
validate_capabilities : List String → List String → Option Err
validate_capabilities seen [] = none
validate_capabilities seen (c ∷ cs) =
    let rest = validate_capabilities (c ∷ seen) cs in
    if str_eq c ""
      || contains seen c
      || str_eq c capability_create_jobs
      || str_eq c capability_wake_agents
    then some invalid_definition
    else rest

unfoldable pub validate : Definition → Option Err
unfolding validate_capabilities
validate d =
    if str_eq d.name ""
      || str_eq d.input_scope ""
      || leb_ℤ d.max_wall_runtime zero_ℤ
      || ltb_ℤ d.token_budget zero_ℤ
      || ltb_ℤ d.minimum_interval zero_ℤ
      || str_eq d.allowed_output ""
    then some invalid_definition
    else validate_capabilities [] d.capabilities

unfoldable pub watcher_definition : ℤ → ℤ → Definition
watcher_definition minimum_interval max_runtime = record {
  name = github_watcher;
  input_scope = watcher_input_scope;
  capabilities = capability_github_read ∷ [];
  max_wall_runtime = max_runtime;
  token_budget = zero_ℤ;
  minimum_interval = minimum_interval;
  allowed_output = output_sync_receipt;
}

unfoldable pub curator_definition : ℤ → ℤ → ℤ → Definition
curator_definition minimum_interval max_runtime token_budget = record {
  name = wiki_curator;
  input_scope = curator_input_scope;
  capabilities = capability_interpret ∷ capability_wiki_propose ∷ [];
  max_wall_runtime = max_runtime;
  token_budget = token_budget;
  minimum_interval = minimum_interval;
  allowed_output = output_wiki_revision_proposal;
}

-- The closure hasExactly of validateBuiltinDefinition.
unfoldable pub has_exactly : List String → List String → Bool
has_exactly actual want = (length actual == length want) && contains_all actual want

unfoldable pub validate_builtin_definition : Definition → Option Err
unfolding has_exactly
validate_builtin_definition d =
    if str_eq d.name github_watcher
    then (if not (str_eq d.input_scope watcher_input_scope)
          || not (eqb_ℤ d.token_budget zero_ℤ)
          || not (str_eq d.allowed_output output_sync_receipt)
          || not (has_exactly d.capabilities (capability_github_read ∷ []))
        then some invalid_definition
        else none)
    else if str_eq d.name wiki_curator
    then (if not (str_eq d.input_scope curator_input_scope)
          || leb_ℤ d.token_budget zero_ℤ
          || not (str_eq d.allowed_output output_wiki_revision_proposal)
          || not (has_exactly d.capabilities (capability_interpret ∷ capability_wiki_propose ∷ []))
        then some invalid_definition
        else none)
    else some invalid_definition

-- What a Runner holds besides the store: which interfaces are set, the granted capabilities and the
-- definitions by name.
pub record Runner : Type 0 where
  pub github_set : Bool
  pub interpreter_set : Bool
  pub granted : String → Bool
  pub definitions : Table Definition

-- The body of the loop over the definitions: both validations and the test for a repeated name.
unfoldable pub register : Table Definition → Definition → Result (Table Definition)
register defs d = do
  check (validate d)
  check (validate_builtin_definition d)
  require (is_none (lookup d.name defs)) invalid_definition
  ok (put d.name d defs)

unfoldable pub register_all : Table Definition → List Definition → Result (Table Definition)
register_all defs [] = ok defs
register_all defs (d ∷ ds) = elim (register defs d) [ ok m ↦ register_all m ds | err e ↦ err e ]

-- r.definitions[name].Name, which is empty where the name has no definition.
abbrev name_at : String → Table Definition → String
name_at name defs = elim (lookup name defs) [ none ↦ "" | some d ↦ d.name ]

-- The first five arguments say which interfaces are not nil: the clock, the store, the kill switch,
-- the GitHub reader and the interpreter.
unfoldable pub new_runner :
    Bool → Bool → Bool → Bool → Bool → (String → Bool) → List Definition → Result Runner
new_runner clock store kill github interpreter granted definitions = do
  require (clock && store && kill) invalid_definition
  defs ← register_all [] definitions
  require
      ((length defs == 2)
        && not (str_eq (name_at github_watcher defs) "")
        && not (str_eq (name_at wiki_curator defs) ""))
      invalid_definition
  ok (record {
    github_set = github;
    interpreter_set = interpreter;
    granted = granted;
    definitions = defs;
  })
