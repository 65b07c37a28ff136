-- ===== src/Archaeology/Outcome/Admission.antt =====
-- What an admitted outcome is known to cite.
use codex_commons.Prelude.{◌≤◌, ◌≡◌, true, false, some, List, [], ◌∷◌, arith, inl, inr, ◌⊎◌, subst}
use codex_commons.Prelude.Tests.{Bool-cases, Option-cases, str_eq_iff}
use codex_commons.Prelude.Lists.{All, length}
use codex_commons.Prelude.Int.{ℤ}
use codex_commons.Archaeology.Types.{
  ExecutionPolicy, ExecutionLimits, Source, Proposal, Outcome, allows,
}
use codex_commons.Archaeology.StableIds.{valid_stable_id}
use codex_commons.Archaeology.Proposal.{same_evidence, Census, check_proposal}
use codex_commons.Archaeology.Proposal.Evidence.{
  has_evidence, Cites, EverySource, EverySource-map, check_proposal-EverySource,
}
use codex_commons.Archaeology.Outcome.{
  Json, delete_evidence, cite_sources, check_citations, valid_native_outcome,
}

same_evidence_trans :
    (s t u : Source)
    → same_evidence t u ≡ true
    → same_evidence t s ≡ true
    → same_evidence s u ≡ true
unfolding same_evidence
same_evidence_trans s t u h k = ground (
  arith,
  h,
  k,
  str_eq_iff t.kind u.kind,
  str_eq_iff t.kind s.kind,
  str_eq_iff s.kind u.kind,
  str_eq_iff t.stable_id u.stable_id,
  str_eq_iff t.stable_id s.stable_id,
  str_eq_iff s.stable_id u.stable_id,
  str_eq_iff t.digest u.digest,
  str_eq_iff t.digest s.digest,
  str_eq_iff s.digest u.digest,
)

delete_evidence_keeps :
    (s : Source) (evidence : List Source) (u : Source)
    → has_evidence evidence u ≡ true
    → same_evidence s u ≡ false
    → has_evidence (delete_evidence s evidence) u ≡ true
unfolding delete_evidence has_evidence
delete_evidence_keeps s [] u h n = h
delete_evidence_keeps s (t ∷ ts) u h n =
    ground (arith, h, n, delete_evidence_keeps s ts u, same_evidence_trans s t u)

cite_sources_cases :
    (policy : ExecutionPolicy) (sources evidence left : List Source) (u : Source)
    → cite_sources policy sources evidence ≡ some left
    → has_evidence evidence u ≡ true
    → (has_evidence left u ≡ true) ⊎ (has_evidence sources u ≡ true)
unfolding cite_sources has_evidence
cite_sources_cases policy [] evidence left u h k =
    let same : evidence ≡ left = cc h in inl (subst (λ l. has_evidence l u ≡ true) same k)
cite_sources_cases policy (s ∷ ss) evidence left u h k = elim (Bool-cases (same_evidence s u)) [
  | inl t ↦ inr (ground (arith, t))
  | inr f ↦
      let rest : cite_sources policy ss (delete_evidence s evidence) ≡ some left =
        ground (arith, h) in
      elim (cite_sources_cases policy ss (delete_evidence s evidence) left u rest
        (delete_evidence_keeps s evidence u k f)) [
          | inl l ↦ inl l
          | inr m ↦ inr (ground (arith, m))
        ]
]

-- A source that the policy allows, with an identifier of its kind.
abbrev pub IsAllowed : ExecutionPolicy → Source → Type 0
IsAllowed policy s = (allows policy s.kind ≡ true) × (valid_stable_id s.kind s.stable_id ≡ true)

cite_sources-IsAllowed :
    (policy : ExecutionPolicy) (sources evidence left : List Source)
    → cite_sources policy sources evidence ≡ some left
    → All (IsAllowed policy) sources
unfolding cite_sources
cite_sources-IsAllowed policy [] evidence left h = tt
cite_sources-IsAllowed policy (s ∷ ss) evidence left h = (
  (ground (arith, h), ground (arith, h)),
  cite_sources-IsAllowed policy ss (delete_evidence s evidence) left (ground (arith, h)),
)

-- The source is among those that the outcome cites: same kind, identifier, digest and time.
abbrev pub IsCited : Outcome → Source → Type 0
IsCited o s = has_evidence o.provenance s ≡ true

pub record IsAdmitted (policy : ExecutionPolicy) (limits : ExecutionLimits) (o : Outcome)
    (p : Proposal) : Type 0 where
  pub few_sources : length o.provenance ≤ limits.max_provenance_per_outcome
  pub few_contributors : length o.contributors ≤ limits.max_contributors_per_outcome
  pub allowed : All (IsAllowed policy) o.provenance
  pub cited : EverySource (IsCited o) p

citations_complete :
    (policy : ExecutionPolicy) (o : Outcome) (c : Census)
    → check_citations policy o c ≡ true
    → All (IsAllowed policy) o.provenance × ((s : Source) → Cites c s → IsCited o s)
unfolding check_citations has_evidence
citations_complete policy o c h =
    elim (Option-cases (cite_sources policy o.provenance c.evidence)) [
      | inl e ↦ absurd (cc (rw (e, check_citations) at h))
      | inr ([], e) ↦ (
        cite_sources-IsAllowed policy o.provenance c.evidence [] e,
        λ s k. elim (cite_sources_cases policy o.provenance c.evidence [] s e k) [
          | inl none_left ↦ absurd (cc none_left)
          | inr found ↦ found
        ],
      )
      | inr (x ∷ left, e) ↦ absurd (cc (rw (e, check_citations) at h))
    ]

-- An outcome that the policy admits has a proposal that decodes, stays within the limits on sources and
-- contributors, cites nothing but sources that the policy allows, with identifiers of their kind, and
-- cites every source that the proposal names for an alias, a task, an attribution or an event.
pub valid_native_outcome-IsAdmitted :
    (json : Json) (policy : ExecutionPolicy) (limits : ExecutionLimits) (now : ℤ) (o : Outcome)
    → valid_native_outcome json policy limits now o ≡ true
    → (p : Proposal) × (json.proposal o.proposal_json ≡ some p) × IsAdmitted policy limits o p
unfolding valid_native_outcome
valid_native_outcome-IsAdmitted json policy limits now o h =
    elim (Option-cases (json.proposal o.proposal_json)) [
      | inl e ↦ absurd (ground (arith, h, e))
      | inr (p, e) ↦ elim (Option-cases (check_proposal policy now limits p)) [
        | inl f ↦ absurd (ground (arith, h, e, f))
        | inr (c, f) ↦
            let checked : check_citations policy o c ≡ true = ground (arith, h, e, f) in
            let (allowed, complete) = citations_complete policy o c checked in
            (
              p,
              e,
              record {
                few_sources = ground (arith, h);
                few_contributors = ground (arith, h);
                allowed = allowed;
                cited =
                    EverySource-map (Cites c) (IsCited o) p complete
                      (check_proposal-EverySource policy now limits p c f);
              },
            )
      ]
    ]
