-- ===== src/Archaeology/Proposal/Evidence.antt =====
-- The evidence of an accepted proposal holds every source that the proposal names.
use codex_commons.Prelude.{
  ◌≡◌, Bool, true, false, Option, some, List, [], ◌∷◌, ◌||◌, arith, refl, inl, inr, subst,
}
use codex_commons.Prelude.Tests.{Option-cases, str_eq_refl}
use codex_commons.Prelude.Lists.{All, All-map}
use codex_commons.Prelude.Int.{ℤ}
use codex_commons.Archaeology.Types.{
  ExecutionPolicy, ExecutionLimits, Source, ProposalAlias, ProposalAttribution, ProposalEvent,
  ProposalTask, Proposal,
}
use codex_commons.Archaeology.Proposal.{
  same_evidence, Census, empty_census, check_each, check_alias, check_attribution, check_event,
  check_task, enter_task, check_proposal,
}

unfoldable pub has_evidence : List Source → Source → Bool
has_evidence [] s = false
has_evidence (t ∷ ts) s = same_evidence t s || has_evidence ts s

pub same_evidence_refl : (s : Source) → same_evidence s s ≡ true
unfolding same_evidence
same_evidence_refl s =
    ground (arith, str_eq_refl s.kind, str_eq_refl s.stable_id, str_eq_refl s.digest)

abbrev pub Cites : Census → Source → Type 0
Cites c s = has_evidence c.evidence s ≡ true

abbrev Grows : Census → Census → Type 0
Grows c c' = (s : Source) → Cites c s → Cites c' s

extends_evidence :
    (c c' : Census) (x : Source) → c'.evidence ≡ x ∷ c.evidence → Grows c c' × Cites c' x
unfolding has_evidence
extends_evidence c c' x e =
    (λ s h. rw e (ground (arith, h)), rw e (ground (arith, same_evidence_refl x)))

check_each-All :
    {A : Type 0} (step : A → Census → Option Census) (Cited : A → Census → Type 0)
    → ((x : A) (c c' : Census) → step x c ≡ some c' → Grows c c' × Cited x c')
    → ((x : A) (c c' : Census) → Grows c c' → Cited x c → Cited x c')
    → (xs : List A) (c c' : Census) → check_each step xs c ≡ some c'
    → Grows c c' × All (λ x. Cited x c') xs
unfolding check_each
check_each-All step Cited one keep [] c c' h =
    let same : c ≡ c' = cc h in (λ s k. subst (λ d. Cites d s) same k, tt)
check_each-All step Cited one keep (x ∷ xs) c c' h = elim (Option-cases (step x c)) [
  | inl e ↦ absurd (cc (rw (e, check_each) at h))
  | inr (d, e) ↦
      let (g, k) = one x c d e in
      let (g', ks) = check_each-All step Cited one keep xs d c' (rw (e, check_each) at h) in
      (λ s m. g' s (g s m), (keep x d c' g' k, ks))
]

-- The sources of a task, and those of a proposal, satisfy a predicate.
abbrev pub EveryTaskSource : (Source → Type 0) → ProposalTask → Type 0
EveryTaskSource P t =
    P t.source
    × All (λ (a : ProposalAttribution). P a.source) t.attributions
    × All (λ (e : ProposalEvent). P e.source) t.events

abbrev pub EverySource : (Source → Type 0) → Proposal → Type 0
EverySource P p =
    All (λ (a : ProposalAlias). P a.source) p.project_thread_aliases
    × All (EveryTaskSource P) p.tasks

EveryTaskSource-map :
    (P Q : Source → Type 0) (t : ProposalTask)
    → ((s : Source) → P s → Q s)
    → EveryTaskSource P t
    → EveryTaskSource Q t
EveryTaskSource-map P Q t f h = (
  f t.source h.0,
  All-map (λ (a : ProposalAttribution). P a.source) (λ (a : ProposalAttribution). Q a.source)
      t.attributions (λ a. f a.source) h.1,
  All-map (λ (e : ProposalEvent). P e.source) (λ (e : ProposalEvent). Q e.source) t.events
      (λ e. f e.source) h.2,
)

pub EverySource-map :
    (P Q : Source → Type 0) (p : Proposal)
    → ((s : Source) → P s → Q s)
    → EverySource P p
    → EverySource Q p
EverySource-map P Q p f h = (
  All-map (λ (a : ProposalAlias). P a.source) (λ (a : ProposalAlias). Q a.source)
      p.project_thread_aliases (λ a. f a.source) h.0,
  All-map (EveryTaskSource P) (EveryTaskSource Q) p.tasks (λ t. EveryTaskSource-map P Q t f) h.1,
)

module _ (policy : ExecutionPolicy) (now : ℤ) where
  check_alias-Cites :
      (a : ProposalAlias) (c c' : Census)
      → check_alias policy now a c ≡ some c'
      → Grows c c' × Cites c' a.source
  unfolding check_alias
  check_alias-Cites a c c' h = extends_evidence c c' a.source (ground (arith, h))

  check_attribution-Cites :
      (a : ProposalAttribution) (c c' : Census)
      → check_attribution policy now a c ≡ some c'
      → Grows c c' × Cites c' a.source
  unfolding check_attribution
  check_attribution-Cites a c c' h = extends_evidence c c' a.source (ground (arith, h))

  check_event-Cites :
      (e : ProposalEvent) (c c' : Census)
      → check_event policy now e c ≡ some c'
      → Grows c c' × Cites c' e.source
  unfolding check_event
  check_event-Cites e c c' h = extends_evidence c c' e.source (ground (arith, h))

  check_task-EveryTaskSource :
      (t : ProposalTask) (c c' : Census)
      → check_task policy now t c ≡ some c'
      → Grows c c' × EveryTaskSource (Cites c') t
  unfolding check_task
  check_task-EveryTaskSource t c c' h =
      elim (Option-cases
        (check_each (check_attribution policy now) t.attributions (enter_task policy now t c))) [
          | inl e ↦ absurd (ground (arith, h, e))
          | inr (d, e) ↦
              let last : check_each (check_event policy now) t.events d ≡ some c' =
                ground (arith, h, e) in
              let (g, s) = extends_evidence c (enter_task policy now t c) t.source refl in
              let (g', cited) =
                check_each-All (check_attribution policy now)
                  (λ (a : ProposalAttribution) k. Cites k a.source) check_attribution-Cites
                  (λ a k k' m x. m a.source x) t.attributions (enter_task policy now t c) d e in
              let (g'', cited_events) =
                check_each-All (check_event policy now) (λ (a : ProposalEvent) k. Cites k a.source)
                  check_event-Cites (λ a k k' m x. m a.source x) t.events d c' last in
              (
                λ x m. g'' x (g' x (g x m)),
                (
                  g'' t.source (g' t.source s),
                  All-map (λ (a : ProposalAttribution). Cites d a.source)
                      (λ (a : ProposalAttribution). Cites c' a.source) t.attributions
                      (λ a. g'' a.source) cited,
                  cited_events,
                ),
              )
        ]

  pub check_proposal-EverySource :
      (limits : ExecutionLimits) (p : Proposal) (c : Census)
      → check_proposal policy now limits p ≡ some c
      → EverySource (Cites c) p
  unfolding check_proposal
  check_proposal-EverySource limits p c h =
      elim (Option-cases
        (check_each (check_alias policy now) p.project_thread_aliases empty_census)) [
          | inl e ↦ absurd (ground (arith, h, e))
          | inr (d, e) ↦
              let last : check_each (check_task policy now) p.tasks d ≡ some c =
                ground (arith, h, e) in
              let (g, cited) =
                check_each-All (check_alias policy now) (λ (a : ProposalAlias) k. Cites k a.source)
                  check_alias-Cites (λ a k k' m x. m a.source x) p.project_thread_aliases
                  empty_census d e in
              let (g', ts) =
                check_each-All (check_task policy now) (λ t k. EveryTaskSource (Cites k) t)
                  check_task-EveryTaskSource
                  (λ t k k' m. EveryTaskSource-map (Cites k) (Cites k') t m) p.tasks d c last in
              (
                All-map (λ (a : ProposalAlias). Cites d a.source)
                    (λ (a : ProposalAlias). Cites c a.source) p.project_thread_aliases
                    (λ a. g' a.source) cited,
                ts,
              )
        ]
