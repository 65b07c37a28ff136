-- ===== src/Presence/Leases.antt =====
-- An execution lease ends by time alone: no other method revokes it.
use codex_commons.Prelude.{
  ◌≡◌, ◌≢◌, String, true, Option, none, some, List, ◌⊎◌, inl, inr, arith, refl, ◌∙◌,
}
use codex_commons.Prelude.Tests.{Option-cases, str_eq_iff, str_eq_refl, if◌then◌else◌}
use codex_commons.Prelude.Table.{lookup, lookup-put}
use codex_commons.Prelude.Int.{ℤ, zero_ℤ, ◌≤ℤ◌, ◌<ℤ◌, ◌+ℤ◌, +ℤ_parts, ltb_ℤ}
use codex_commons.Presence.{
  Registry, Session, SessionRecord, Snapshot, connect, update, disconnect, touch, set_loaded,
  lease_execution, or_zero, snapshot, get,
}
use codex_commons.Presence.Trace.{
  Op, connect_op, disconnect_op, touch_op, set_loaded_op, lease_op, step, steps, AllOps,
  steps_induction,
}

-- When the lease of a record ends.
abbrev lease_of : Option SessionRecord → Option ℤ
lease_of none = none
lease_of (some rec) = some rec.lease_expires

-- The call does not lease session `k`: it is another call, of another session, or for no time.
abbrev pub Leaves : String → Op → Type 0
Leaves k (lease_op now j d) = (j ≢ k) ⊎ (d ≤ℤ zero_ℤ)
Leaves k _ = Unit {0}

lease_of-update :
    (k session : String) (change : SessionRecord → SessionRecord) (r : Registry)
    → ((rec : SessionRecord) → (change rec).lease_expires ≡ rec.lease_expires)
    → lease_of (lookup k (update session change r).0.sessions) ≡ lease_of (lookup k r.sessions)
unfolding update
lease_of-update k session change r same = elim (Option-cases (lookup session r.sessions)) [
  | inl e ↦ rw (e, update)
  | inr (rec, e) ↦
      ground
        (arith, e, str_eq_iff session k, lookup-put session k (change rec) r.sessions, same rec)
]

lease_of-connect :
    (k : String) (now u : ℤ) (s : Session) (r : Registry)
    → lease_of (lookup k r.sessions) ≡ some u
    → lease_of (lookup k (connect now s r).sessions) ≡ some u
unfolding connect
lease_of-connect k now u s r h = ground (
  arith,
  str_eq_iff s.id k,
  lookup-put s.id k
      (record (or_zero (lookup s.id r.sessions)) {
        session = s.id;
        actor = s.actor;
        host = s.host;
        project = s.project;
        host_connected = true;
        last_activity = now;
      })
      r.sessions,
)

lease_of-lease :
    (k j : String) (now d u : ℤ) (r : Registry)
    → (j ≢ k) ⊎ (d ≤ℤ zero_ℤ)
    → lease_of (lookup k r.sessions) ≡ some u
    → lease_of (lookup k (lease_execution now j d r).0.sessions) ≡ some u
unfolding lease_execution update
lease_of-lease k j now d u r q h = elim (Option-cases (lookup j r.sessions)) [
  | inl e ↦ ground (arith, e)
  | inr (rec, e) ↦ ground (
    arith,
    e,
    str_eq_iff j k,
    lookup-put j k (record rec { lease_expires = now +ℤ d; last_activity = now }) r.sessions,
  )
]

step-lease_of :
    (k : String) (u : ℤ) (op : Op) (r : Registry)
    → Leaves k op
    → lease_of (lookup k r.sessions) ≡ some u
    → lease_of (lookup k (step op r).sessions) ≡ some u
unfolding step disconnect touch set_loaded
step-lease_of k u (connect_op now s) r q h = lease_of-connect k now u s r h
step-lease_of k u (disconnect_op now j) r q h = lease_of-update k j _ r (λ rec. refl) ∙ h
step-lease_of k u (touch_op now j) r q h = lease_of-update k j _ r (λ rec. refl) ∙ h
step-lease_of k u (set_loaded_op now j fact) r q h = lease_of-update k j _ r (λ rec. refl) ∙ h
step-lease_of k u (lease_op now j d) r q h = lease_of-lease k j now d u r q h

leased :
    (now d : ℤ) (k : String) (r : Registry)
    → (lease_execution now k d r).1 ≡ true
    → (lease_of (lookup k (lease_execution now k d r).0.sessions) ≡ some (now +ℤ d)) × (zero_ℤ <ℤ d)
unfolding lease_execution update
leased now d k r h = elim (Option-cases (lookup k r.sessions)) [
  | inl e ↦ absurd (ground (arith, e))
  | inr (rec, e) ↦ ground (
    arith,
    e,
    str_eq_refl k,
    lookup-put k k (record rec { lease_expires = now +ℤ d; last_activity = now }) r.sessions,
  )
]

-- What a snapshot says of a lease that ends at `u`.
abbrev pub ShowsLease : ℤ → ℤ → Snapshot → Type 0
ShowsLease later u snap =
    (snap.execution ≡ (if ltb_ℤ later u then "executing" else "not_running"))
    × (snap.lease_expires ≡ (if ltb_ℤ later u then some u else none))

get-ShowsLease :
    (later u : ℤ) (k : String) (r : Registry)
    → zero_ℤ <ℤ u
    → lease_of (lookup k r.sessions) ≡ some u
    → (snap : Snapshot) × (get later k r ≡ some snap) × ShowsLease later u snap
unfolding get
get-ShowsLease later u k r pos h = elim (Option-cases (lookup k r.sessions)) [
  | inl e ↦ absurd (ground (arith, e))
  | inr (rec, e) ↦
      (snapshot later rec, rw (e, get), unfold snapshot in (ground (arith, e), ground (arith, e)))
]

-- A session that was leased for `d` at `now` is there after any calls that do not lease it again,
-- a disconnection included, and shows as executing, with the end of its lease, exactly until
-- `now + d`. The clock reads no time before Go's zero time.
pub lease_kept :
    (now later d : ℤ) (k : String) (r : Registry) (ops : List Op)
    → (lease_execution now k d r).1 ≡ true
    → zero_ℤ ≤ℤ now
    → AllOps (Leaves k) ops
    → (snap : Snapshot) × (get later k (steps ops (lease_execution now k d r).0) ≡ some snap)
      × ShowsLease later (now +ℤ d) snap
lease_kept now later d k r ops h start q =
    let (fresh, positive) = leased now d k r h in
    get-ShowsLease later (now +ℤ d) k (steps ops (lease_execution now k d r).0)
      (omega (arith, +ℤ_parts now d))
      (steps_induction (λ m. lease_of (lookup k m.sessions) ≡ some (now +ℤ d)) (Leaves k)
        (step-lease_of k (now +ℤ d)) ops (lease_execution now k d r).0 q fresh)
