-- ===== src/Accounts/Steps.antt =====
-- The calls on the account one after another: the account, once bound, stays with its subject.
use codex_commons.Prelude.{◌≡◌, ◌≤◌, refl, sym, ap, ◌∙◌, ℕ, String, some, arith, subst}
use codex_commons.Prelude.Bytes.{Bytes}
use codex_commons.Prelude.Lists.{length}
use codex_commons.Accounts.Types.{
  Accounts, Binding, Call, BindRequest, ProfileRequest, EventRequest,
}
use codex_commons.Accounts.{
  bind_human_account, get_binding, update_human_profile, record_human_auth_event,
}
use codex_commons.Accounts.Changes.{
  Change, unchanged, bound, changed, noted, bind-Change, update-Change, record-Change,
}

-- The accounts that calls lead to, from whichever process.
pub data Later (hash : Bytes → Bytes) (utf8 : String → Bytes) (a : Accounts)
    : Accounts → Type 0 where
  now : Later hash utf8 a a
  after_bind :
      {mid : Accounts} (call : Call) (q : BindRequest)
      → Later hash utf8 a mid
      → Later hash utf8 a (bind_human_account call q mid).0
  after_update :
      {mid : Accounts} (call : Call) (q : ProfileRequest)
      → Later hash utf8 a mid
      → Later hash utf8 a (update_human_profile hash utf8 call q mid).0
  after_record :
      {mid : Accounts} (call : Call) (q : EventRequest)
      → Later hash utf8 a mid
      → Later hash utf8 a (record_human_auth_event call q mid).0

-- A property that every change keeps holds of all later accounts.
pub Later_rule {π} :
    (hash : Bytes → Bytes) (utf8 : String → Bytes) (P : Accounts → Type π) (a a2 : Accounts)
    → ((x y : Accounts) → Change x y → P x → P y)
    → P a
    → Later hash utf8 a a2
    → P a2
Later_rule hash utf8 P a a2 keep h now = h
Later_rule hash utf8 P a a2 keep h (after_bind {mid = mid} call q r) =
    keep mid a2 (bind-Change call q mid) (Later_rule hash utf8 P a mid keep h r)
Later_rule hash utf8 P a a2 keep h (after_update {mid = mid} call q r) =
    keep mid a2 (update-Change hash utf8 call q mid) (Later_rule hash utf8 P a mid keep h r)
Later_rule hash utf8 P a a2 keep h (after_record {mid = mid} call q r) =
    keep mid a2 (record-Change call q mid) (Later_rule hash utf8 P a mid keep h r)

-- An account with a subject, at no earlier revision.
pub record HasSubject (subject : Bytes) (n : ℕ) (a : Accounts) : Type 0 where
  pub binding : Binding
  pub stands : a.binding ≡ some binding
  pub same : binding.subject_digest ≡ subject
  pub no_earlier : n ≤ binding.revision

Change-HasSubject :
    (subject : Bytes) (n : ℕ) (x y : Accounts)
    → length subject ≡ 32
    → Change x y
    → HasSubject subject n x
    → HasSubject subject n y
unfolding get_binding
Change-HasSubject subject n x y size (unchanged same) h = subst (HasSubject subject n) (sym same) h
Change-HasSubject subject n x y size (bound b e free at one in_log kind) h =
    absurd (ground (arith, free, h.stands, ap length h.same, size))
Change-HasSubject subject n x y size (noted e kept in_log kind) h = record {
  binding = h.binding;
  stands = kept ∙ h.stands;
  same = h.same;
  no_earlier = h.no_earlier;
}
Change-HasSubject subject n x y size (changed b b2 e from to next keeps in_log kind) h =
    let is : b ≡ h.binding = ground (arith, from, h.stands) in
    record {
      binding = b2;
      stands = to;
      same = keeps ∙ ap Binding.subject_digest is ∙ h.same;
      no_earlier = omega (arith, next, ap Binding.revision is, h.no_earlier);
    }

-- The account of an installation cannot be taken over: once it is bound to a subject, no calls to bind
-- an account, to change the profile or to note a login, in any order and from any process, remove the
-- account, change its subject or lower its revision.
pub Later-HasSubject :
    (hash : Bytes → Bytes) (utf8 : String → Bytes) (a a2 : Accounts) (b : Binding)
    → a.binding ≡ some b
    → length b.subject_digest ≡ 32
    → Later hash utf8 a a2
    → HasSubject b.subject_digest b.revision a2
Later-HasSubject hash utf8 a a2 b at size later =
    Later_rule hash utf8 (HasSubject b.subject_digest b.revision) a a2
      (λ x y c h. Change-HasSubject b.subject_digest b.revision x y size c h)
      (record { binding = b; stands = at; same = refl; no_earlier = omega arith }) later
