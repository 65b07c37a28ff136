-- ===== src/Jobs/Definitions/Envelope.antt =====
-- A runner that NewRunner accepts has exactly the two built-in jobs, each with its own authority.
use codex_commons.Prelude.{
  ◌≡◌, String, Bool, true, none, some, List, [], ◌∷◌, ◌⊎◌, inl, inr, arith, sym, ap, ◌∙◌, subst,
  ◌≢◌,
}
use codex_commons.Prelude.Tests.{Bool-cases, str_eq, str_eq_iff, str_eq_refl}
use codex_commons.Prelude.Table.{Table, lookup, put, lookup-put}
use codex_commons.Prelude.Int.{zero_ℤ, ◌<ℤ◌}
use codex_commons.Prelude.Results.{ok_or_err, ok}
use codex_commons.Jobs.Types.{
  Definition, github_watcher, wiki_curator, capability_github_read, capability_interpret,
  capability_wiki_propose, output_sync_receipt, output_wiki_revision_proposal,
}
use codex_commons.Jobs.Definitions.{
  validate, validate_builtin_definition, has_exactly, register, register_all, Runner, new_runner,
}

pub record IsWatcher (d : Definition) : Type 0 where
  pub name : d.name ≡ github_watcher
  pub no_tokens : d.token_budget ≡ zero_ℤ
  pub output : d.allowed_output ≡ output_sync_receipt
  pub reads_only : d.capabilities ≡ capability_github_read ∷ []
  pub bounded : zero_ℤ <ℤ d.max_wall_runtime

pub record IsCurator (d : Definition) : Type 0 where
  pub name : d.name ≡ wiki_curator
  pub some_tokens : zero_ℤ <ℤ d.token_budget
  pub output : d.allowed_output ≡ output_wiki_revision_proposal
  pub proposes_only :
      (d.capabilities ≡ capability_interpret ∷ capability_wiki_propose ∷ [])
      ⊎ (d.capabilities ≡ capability_wiki_propose ∷ capability_interpret ∷ [])
  pub bounded : zero_ℤ <ℤ d.max_wall_runtime

has_exactly_one : (cs : List String) (a : String) → has_exactly cs (a ∷ []) ≡ true → cs ≡ a ∷ []
unfolding has_exactly
has_exactly_one [] a h = ground arith
has_exactly_one (x ∷ []) a h = ground (arith, str_eq_iff x a)
has_exactly_one (x ∷ y ∷ cs) a h = ground arith

has_exactly_two :
    (cs : List String) (a b : String)
    → a ≢ b
    → has_exactly cs (a ∷ b ∷ []) ≡ true
    → (cs ≡ a ∷ b ∷ []) ⊎ (cs ≡ b ∷ a ∷ [])
unfolding has_exactly
has_exactly_two [] a b n h = ground arith
has_exactly_two (x ∷ []) a b n h = ground arith
has_exactly_two (x ∷ y ∷ []) a b n h =
    ground (arith, str_eq_iff x a, str_eq_iff x b, str_eq_iff y a, str_eq_iff y b)
has_exactly_two (x ∷ y ∷ z ∷ cs) a b n h = ground arith

interpret_ne_propose : capability_interpret ≢ capability_wiki_propose
unfolding str_eq
interpret_ne_propose e = cc ((str_eq_iff capability_interpret capability_wiki_propose).1 e)

builtin_definition :
    (d : Definition)
    → validate d ≡ none
    → validate_builtin_definition d ≡ none
    → IsWatcher d ⊎ IsCurator d
unfolding validate validate_builtin_definition
builtin_definition d v h = elim (Bool-cases (str_eq d.name github_watcher)) [
  | inl w ↦ inl (
      ground (
        arith,
        w,
        str_eq_iff d.name github_watcher,
        str_eq_iff d.allowed_output output_sync_receipt,
        has_exactly_one d.capabilities capability_github_read,
      ))
  | inr other ↦ inr (
      ground (
        arith,
        other,
        str_eq_iff d.name wiki_curator,
        str_eq_iff d.allowed_output output_wiki_revision_proposal,
        has_exactly_two d.capabilities capability_interpret capability_wiki_propose
            interpret_ne_propose,
      ))
]

-- Every entry of the table has its own name and is one of the two built-in jobs.
abbrev pub IsBuiltinTable : Table Definition → Type 0
IsBuiltinTable defs =
    (name : String) (d : Definition)
    → lookup name defs ≡ some d
    → (d.name ≡ name) × (IsWatcher d ⊎ IsCurator d)

register-IsBuiltinTable :
    (defs m : Table Definition) (d : Definition)
    → register defs d ≡ ok m
    → IsBuiltinTable defs
    → IsBuiltinTable m
unfolding register
register-IsBuiltinTable defs m d h old name e at_name =
    let v : validate d ≡ none = ground arith in
    let b : validate_builtin_definition d ≡ none = ground arith in
    let put_in : m ≡ put d.name d defs = ground arith in
    let law = lookup-put d.name name d defs in
    elim (Bool-cases (str_eq d.name name)) [
      | inl same ↦
          let new : d ≡ e = cc (sym (rw same at law) ∙ ap (lookup name) (sym put_in) ∙ at_name) in
          subst (λ x. (x.name ≡ name) × (IsWatcher x ⊎ IsCurator x)) new
            ((str_eq_iff d.name name).0 same, builtin_definition d v b)
      | inr other ↦ old name e (sym (rw other at law) ∙ ap (lookup name) (sym put_in) ∙ at_name)
    ]

register_all-IsBuiltinTable :
    (defs m : Table Definition) (ds : List Definition)
    → register_all defs ds ≡ ok m
    → IsBuiltinTable defs
    → IsBuiltinTable m
unfolding register_all
register_all-IsBuiltinTable defs m [] h old = subst IsBuiltinTable (ground (arith, h)) old
register_all-IsBuiltinTable defs m (d ∷ ds) h old = elim (ok_or_err (register defs d)) [
  | inl (n, e) ↦
      register_all-IsBuiltinTable n m ds (rw (e, register_all) at h)
        (register-IsBuiltinTable defs n d e old)
  | inr (x, e) ↦ absurd (cc (rw (e, register_all) at h))
]

-- What NewRunner accepts: every definition of the runner stands under its own name and is the
-- watcher or the curator, inside its authority, and both jobs are defined.
pub new_runner-IsBuiltinTable :
    (clock store kill github interpreter : Bool) (granted : String → Bool) (ds : List Definition)
    (r : Runner)
    → new_runner clock store kill github interpreter granted ds ≡ ok r
    → IsBuiltinTable r.definitions
      × (lookup github_watcher r.definitions ≢ none)
      × (lookup wiki_curator r.definitions ≢ none)
unfolding new_runner
new_runner-IsBuiltinTable clock store kill github interpreter granted ds r h =
    elim (ok_or_err (register_all [] ds)) [
      | inl (defs, e) ↦
          let same : r.definitions ≡ defs = ground (arith, h, e) in
          (
            subst IsBuiltinTable (sym same) (
                register_all-IsBuiltinTable [] defs ds e
                  (λ name d at_name. absurd (unfold lookup in cc at_name))),
            (λ no_watcher. ground (arith, h, e, no_watcher, same, str_eq_refl "")),
            (λ no_curator. ground (arith, h, e, no_curator, same, str_eq_refl "")),
          )
      | inr (x, e) ↦ absurd (ground (arith, h, e))
    ]
