-- ===== src/Presence/Trace.antt =====
-- Sequences of the registry's mutating methods, and what every registry that they make satisfies.
use codex_commons.Prelude.{◌≡◌, String, Bool, Option, some, List, [], ◌∷◌, arith, refl, inl, inr}
use codex_commons.Prelude.Tests.{Bool-cases, Option-cases, str_eq_iff}
use codex_commons.Prelude.Table.{lookup, lookup-put, KeysUnique, put-KeysUnique}
use codex_commons.Prelude.Int.{ℤ, zero_ℤ, leb_ℤ}
use codex_commons.Presence.{
  Registry, Session, SessionRecord, new_registry, connect, update, disconnect, touch, set_loaded,
  lease_execution, or_zero,
}

pub data Op : Type 0 where
  connect_op : ℤ → Session → Op
  disconnect_op touch_op : ℤ → String → Op
  set_loaded_op : ℤ → String → Option String → Op
  lease_op : ℤ → String → ℤ → Op

unfoldable pub step : Op → Registry → Registry
step (connect_op now s) r = connect now s r
step (disconnect_op now k) r = disconnect now k r
step (touch_op now k) r = (touch now k r).0
step (set_loaded_op now k fact) r = (set_loaded now k fact r).0
step (lease_op now k d) r = (lease_execution now k d r).0

unfoldable pub steps : List Op → Registry → Registry
steps [] r = r
steps (op ∷ ops) r = steps ops (step op r)

abbrev pub AllOps : (Op → Type 0) → List Op → Type 0
AllOps Q [] = Unit {0}
AllOps Q (op ∷ ops) = Q op × AllOps Q ops

pub steps_induction :
    (P : Registry → Type 0) (Q : Op → Type 0)
    → ((op : Op) (r : Registry) → Q op → P r → P (step op r))
    → (ops : List Op) (r : Registry) → AllOps Q ops
    → P r
    → P (steps ops r)
unfolding steps
steps_induction P Q keep [] r q p = p
steps_induction P Q keep (op ∷ ops) r q p =
    steps_induction P Q keep ops (step op r) q.1 (keep op r q.0 p)

-- Every record stands once, under the key that is its session.
pub record IsKeyed (r : Registry) : Type 0 where
  pub unique : KeysUnique r.sessions
  pub named : (k : String) (rec : SessionRecord) → lookup k r.sessions ≡ some rec → rec.session ≡ k

connect-IsKeyed : (now : ℤ) (s : Session) (r : Registry) → IsKeyed r → IsKeyed (connect now s r)
unfolding connect
connect-IsKeyed now s r h = record {
  unique = put-KeysUnique s.id _ r.sessions h.unique;
  named = λ k rec e. ground (
    arith,
    str_eq_iff s.id k,
    lookup-put s.id k
        (record (or_zero (lookup s.id r.sessions)) {
          session = s.id;
          actor = s.actor;
          host = s.host;
          project = s.project;
          host_connected = Bool.true;
          last_activity = now;
        })
        r.sessions,
    h.named k rec,
  );
}

update-IsKeyed :
    (session : String) (change : SessionRecord → SessionRecord) (r : Registry)
    → ((rec : SessionRecord) → (change rec).session ≡ rec.session)
    → IsKeyed r
    → IsKeyed (update session change r).0
unfolding update
update-IsKeyed session change r same h = elim (Option-cases (lookup session r.sessions)) [
  | inl e ↦ rw (e, update) h
  | inr (rec, e) ↦
      rw (e, update)
        (record {
          unique = put-KeysUnique session (change rec) r.sessions h.unique;
          named = λ k x at_k. ground (
            arith,
            e,
            str_eq_iff session k,
            lookup-put session k (change rec) r.sessions,
            h.named k x,
            h.named session rec,
            same rec,
          );
        })
]

lease-IsKeyed :
    (now : ℤ) (k : String) (d : ℤ) (r : Registry)
    → IsKeyed r
    → IsKeyed (lease_execution now k d r).0
unfolding lease_execution
lease-IsKeyed now k d r h = elim (Bool-cases (leb_ℤ d zero_ℤ)) [
  | inl refused ↦ rw (refused, lease_execution) h
  | inr granted ↦ rw (granted, lease_execution) (update-IsKeyed k _ r (λ rec. refl) h)
]

step-IsKeyed : (op : Op) (r : Registry) → IsKeyed r → IsKeyed (step op r)
unfolding step disconnect touch set_loaded
step-IsKeyed (connect_op now s) r h = connect-IsKeyed now s r h
step-IsKeyed (disconnect_op now k) r h = update-IsKeyed k _ r (λ rec. refl) h
step-IsKeyed (touch_op now k) r h = update-IsKeyed k _ r (λ rec. refl) h
step-IsKeyed (set_loaded_op now k fact) r h = update-IsKeyed k _ r (λ rec. refl) h
step-IsKeyed (lease_op now k d) r h = lease-IsKeyed now k d r h

abbrev pub Any : Op → Type 0
Any op = Unit {0}

pub all_trivially : (ops : List Op) → AllOps Any ops
all_trivially [] = tt
all_trivially (op ∷ ops) = (tt, all_trivially ops)

-- After any calls of a new registry each session stands once, under its own key.
pub steps-IsKeyed : (ops : List Op) → IsKeyed (steps ops new_registry)
steps-IsKeyed ops =
    steps_induction IsKeyed Any (λ op r _. step-IsKeyed op r) ops new_registry (all_trivially ops)
      (record { unique = tt; named = λ k rec e. absurd (unfold lookup in cc e) })
