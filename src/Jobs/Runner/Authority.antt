-- ===== src/Jobs/Runner/Authority.antt =====
-- What a successful run can have produced: a receipt inside its job's authority.
use codex_commons.Prelude.{
  ◌≡◌, ◌≤◌, len, true, Option, none, some, ◌⊎◌, inl, inr, arith, refl, sym, ◌∙◌, ◌||◌, not,
}
use codex_commons.Prelude.Tests.{Bool-cases, str_eq, str_eq_iff}
use codex_commons.Prelude.Int.{ℤ, ltb_ℤ, leb_ℤ, zero_ℤ, ◌≤ℤ◌}
use codex_commons.Prelude.Results.{ok, err}
use codex_commons.Jobs.Types.{
  Definition, ResolvedTask, RunRequest, WikiProposal, Receipt, Err, Result,
  output_wiki_revision_proposal, WatchInput, github_watcher, wiki_curator,
}
use codex_commons.Jobs.Definitions.{Runner}
use codex_commons.Jobs.Input.{max_identifier, max_text}
use codex_commons.Jobs.Runner.{
  Env, perform, proposal_in_scope, take_proposal, take_sync, curate_wiki, watch_github, execute,
  open_receipt, close_receipt, run_error,
}

-- A proposal for review about the task that was asked about.
pub record IsReviewOf (v : ResolvedTask) (p : WikiProposal) : Type 0 where
  pub same_project : p.project ≡ v.project
  pub same_task : p.task_id ≡ v.task_id
  pub page_bounded : len p.page ≤ max_identifier
  pub title_bounded : len p.proposed_title ≤ max_text
  pub body_bounded : len p.proposed_body ≤ max_text
  pub basis_bounded : len p.basis ≤ max_text
  pub revision_nonneg : zero_ℤ ≤ℤ p.base_revision
  pub reviewed : p.requires_review ≡ true

-- A watcher spends no tokens and proposes nothing; a curator stays within the token budget, and has
-- one proposal, for review, about the resolved task of the request.
abbrev pub WithinAuthority : Definition → RunRequest → Receipt → Type 0
WithinAuthority d q receipt =
    ((q.job ≡ github_watcher)
      × (receipt.tokens_used ≡ zero_ℤ)
      × (receipt.proposal ≡ none)
      × (len receipt.cursor ≤ max_identifier))
    ⊎ ((q.job ≡ wiki_curator)
        × (zero_ℤ ≤ℤ receipt.tokens_used)
        × (receipt.tokens_used ≤ℤ d.token_budget)
        × (receipt.cursor ≡ "")
        × ((v : ResolvedTask) × (p : WikiProposal) × (q.resolved ≡ some v)
            × (receipt.proposal ≡ some p)
            × IsReviewOf v p))

abbrev Curated : ResolvedTask → ℤ → Receipt → Type 0
Curated v token_budget receipt =
    (zero_ℤ ≤ℤ receipt.tokens_used)
    × (receipt.tokens_used ≤ℤ token_budget)
    × (receipt.cursor ≡ "")
    × ((p : WikiProposal) × (receipt.proposal ≡ some p) × IsReviewOf v p)

in_scope-IsReviewOf :
    (v : ResolvedTask) (p : WikiProposal) → proposal_in_scope v p ≡ true → IsReviewOf v p
unfolding proposal_in_scope
in_scope-IsReviewOf v p h =
    ground (arith, str_eq_iff p.project v.project, str_eq_iff p.task_id v.task_id)

take_proposal-Curated :
    (v : ResolvedTask) (token_budget : ℤ) (receipt : Receipt) (answer : Result (WikiProposal × ℤ))
    → receipt.cursor ≡ ""
    → (take_proposal v token_budget receipt answer).1 ≡ none
    → Curated v token_budget (take_proposal v token_budget receipt answer).0
unfolding take_proposal
take_proposal-Curated v b receipt (err e) c h = cc
take_proposal-Curated v b receipt (ok (p, tokens)) c h =
    elim (Bool-cases (ltb_ℤ tokens zero_ℤ || ltb_ℤ b tokens)) [
      | inl over ↦ absurd (cc (rw over at h))
      | inr within ↦ elim (Bool-cases (proposal_in_scope v p)) [
        | inl fits ↦
            rw (within, fits)
              (
                ground (arith, within),
                ground (arith, within),
                c,
                (p, refl, in_scope-IsReviewOf v p fits),
              )
        | inr strays ↦ absurd (cc (rw (within, strays) at h))
      ]
    ]

curate_wiki-Curated :
    (r : Runner) (env : Env) (d : Definition) (resolved : Option ResolvedTask) (receipt : Receipt)
    → receipt.cursor ≡ ""
    → (curate_wiki r env d resolved receipt).1 ≡ none
    → (v : ResolvedTask) × (resolved ≡ some v)
      × Curated v d.token_budget (curate_wiki r env d resolved receipt).0
unfolding curate_wiki
curate_wiki-Curated r env d none receipt c h = absurd (ground arith)
curate_wiki-Curated r env d (some v) receipt c h =
    elim (Bool-cases (
      not r.interpreter_set
      || leb_ℤ d.token_budget zero_ℤ
      || not (str_eq d.allowed_output output_wiki_revision_proposal))) [
        | inl refused ↦ absurd (cc (rw refused at h))
        | inr allowed ↦ (
          v,
          refl,
          rw allowed (
              take_proposal-Curated v d.token_budget receipt (env.propose v d.token_budget) c
                (rw allowed at h)),
        )
      ]

watch_github_bounds :
    (r : Runner) (env : Env) (d : Definition) (watch : Option WatchInput) (receipt : Receipt)
    → (watch_github r env d watch receipt).1 ≡ none
    → let after = (watch_github r env d watch receipt).0 in
      (after.tokens_used ≡ receipt.tokens_used)
      × (after.proposal ≡ receipt.proposal)
      × (len after.cursor ≤ max_identifier)
unfolding watch_github take_sync
watch_github_bounds r env d none receipt h = ground arith
watch_github_bounds r env d (some w) receipt h = ground arith

execute-WithinAuthority :
    (r : Runner) (env : Env) (d : Definition) (q : RunRequest)
    → (execute r env d q (open_receipt env d q)).1 ≡ none
    → WithinAuthority d q (execute r env d q (open_receipt env d q)).0
unfolding execute
execute-WithinAuthority r env d q h = elim (Bool-cases (str_eq q.job github_watcher)) [
  | inl w ↦
      let (spent, proposed, short) =
        watch_github_bounds r env d q.watch (open_receipt env d q) (rw w at h) in
      let named : q.job ≡ github_watcher = (str_eq_iff q.job github_watcher).0 w in
      rw w (inl (named, unfold open_receipt in spent, unfold open_receipt in proposed, short))
  | inr other ↦ elim (Bool-cases (str_eq q.job wiki_curator)) [
    | inl c ↦
        let (v, asked, kept) =
          curate_wiki-Curated r env d q.resolved (open_receipt env d q)
            (unfold open_receipt in refl) (rw (other, c) at h) in
        rw (other, c)
          (inr (
            (str_eq_iff q.job wiki_curator).0 c,
            kept.0,
            kept.1,
            kept.2,
            (v, kept.3.0, asked, kept.3.1, kept.3.2),
          ))
    | inr stranger ↦ absurd (cc (rw (other, stranger) at h))
  ]
]

close-WithinAuthority :
    (env : Env) (d : Definition) (q : RunRequest) (receipt : Receipt) (e : Option Err)
    → WithinAuthority d q receipt
    → WithinAuthority d q (close_receipt env receipt e)
unfolding close_receipt
close-WithinAuthority env d q receipt none h = h
close-WithinAuthority env d q receipt (some e) h = h

run_error-none :
    (env : Env) (d : Definition) (executed : Option Err)
    → run_error env d executed ≡ none
    → executed ≡ none
unfolding run_error
run_error-none env d executed h = ground arith

-- What a job produces without an error stays within its authority: the watcher's receipt spends no
-- tokens, proposes nothing and holds a cursor of bounded length, and the curator's receipt spends at
-- most the definition's token budget, moves no cursor, and proposes a change of the resolved task.
pub perform-WithinAuthority :
    (r : Runner) (env : Env) (d : Definition) (q : RunRequest)
    → (perform r env d q).1 ≡ none
    → WithinAuthority d q (perform r env d q).0
perform-WithinAuthority r env d q h =
    let done : (perform r env d q).1
        ≡ run_error env d (execute r env d q (open_receipt env d q)).1 =
      unfold perform in refl in
    unfold perform in
    close-WithinAuthority env d q (execute r env d q (open_receipt env d q)).0
      (run_error env d (execute r env d q (open_receipt env d q)).1)
      (execute-WithinAuthority r env d q
        (run_error-none env d (execute r env d q (open_receipt env d q)).1 (sym done ∙ h)))
