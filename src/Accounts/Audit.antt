-- ===== src/Accounts/Audit.antt =====
-- The events account for every revision of the profile.
use codex_commons.Prelude.{
  ◌≡◌, refl, sym, subst, ℕ, ◌+◌, String, none, some, Option, List, [], ◌∷◌, arith,
}
use codex_commons.Prelude.Bytes.{Bytes}
use codex_commons.Prelude.Results.{ok}
use codex_commons.Accounts.Types.{Accounts, Binding, Event, account_bound, profile_updated}
use codex_commons.Accounts.{insert_event, get_binding}
use codex_commons.Accounts.Changes.{Change, unchanged, bound, changed, noted}
use codex_commons.Accounts.Steps.{Later, Later_rule}

-- How often the profile was changed, by the events.
abbrev pub updates_in : List Event → ℕ
updates_in [] = 0
updates_in (e ∷ events) =
    (elim (Event.event_type e) [ profile_updated ↦ 1 | _ ↦ 0 ]) + updates_in events

-- The revision of the account, and 0 where there is none.
abbrev pub account_revision : Option Binding → ℕ
account_revision none = 0
account_revision (some b) = b.revision

-- How many accounts were bound, by the events.
abbrev pub bindings_in : List Event → ℕ
bindings_in [] = 0
bindings_in (e ∷ events) =
    (elim (Event.event_type e) [ account_bound ↦ 1 | _ ↦ 0 ]) + bindings_in events

pub record IsAudited (a : Accounts) : Type 0 where
  pub total : account_revision a.binding ≡ bindings_in a.events + updates_in a.events
  pub once : bindings_in a.events ≡ (elim a.binding [ none ↦ 0 | some b ↦ 1 ])

inserted :
    (e : Event) (events events2 : List Event)
    → insert_event e events ≡ ok events2
    → events2 ≡ e ∷ events
unfolding insert_event
inserted e events events2 h = ground arith

Change-IsAudited : (x y : Accounts) → Change x y → IsAudited x → IsAudited y
unfolding get_binding
Change-IsAudited x y (unchanged same) h = subst IsAudited (sym same) h
Change-IsAudited x y (bound b e free at one in_log kind) h =
    let log = inserted e x.events y.events in_log in
    record {
      total = ground (arith, h.total, h.once, free, at, one, log, kind);
      once = ground (arith, h.once, free, at, log, kind);
    }
Change-IsAudited x y (changed b b2 e from to next keeps in_log kind) h =
    let log = inserted e x.events y.events in_log in
    record {
      total = ground (arith, h.total, from, to, next, log, kind);
      once = ground (arith, h.once, from, to, log, kind);
    }
Change-IsAudited x y (noted e kept in_log kind) h =
    let log = inserted e x.events y.events in_log in
    record {
      total = ground (arith, h.total, kept, log, kind);
      once = ground (arith, h.once, kept, log, kind);
    }

abbrev pub no_accounts : Accounts
no_accounts = record { binding = none; events = [] }

-- Whatever calls are made on a new installation, its events account for its account: one event of a
-- binding exactly when there is an account, and the revision is that event and one event for each
-- change of the profile.
pub Later-IsAudited :
    (hash : Bytes → Bytes) (utf8 : String → Bytes) (a : Accounts)
    → Later hash utf8 no_accounts a
    → IsAudited a
Later-IsAudited hash utf8 a later =
    Later_rule hash utf8 IsAudited no_accounts a (λ x y c h. Change-IsAudited x y c h)
      (record { total = refl; once = refl }) later
