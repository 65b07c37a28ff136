-- ===== src/GithubSync/Client/Counts.antt =====
-- The receipt counts the responses, those among them that were 304, and the bytes read.
use Prim.Native.Nat.{◌*◌, ◌^◌}
use codex_commons.Prelude.{
  ℕ, suc, ◌+◌, ◌-◌, ◌≤◌, ◌<◌, ap, ◌≡◌, Bool, true, false, none, some, List, [], ◌∷◌, arith, ◌&&◌,
  ◌||◌, not, refl, ◌↔◌, ◌⊎◌, inl, inr, subst,
}
use codex_commons.Prelude.Tests.{Bool-cases, ◌==◌, ltb, if◌then◌else◌}
use codex_commons.Prelude.Results.{ok, err, ok_or_err}
use codex_commons.GithubSync.Types.{Request, Fails, Result, only_receipt}
use codex_commons.GithubSync.Config.{Client}
use codex_commons.GithubSync.References.{valid_name, bounded_shas}
use codex_commons.GithubSync.Wire.{Decoders}
use codex_commons.GithubSync.Action.{Exchange, Progress}
use codex_commons.GithubSync.Get.{Server, request_of}
use codex_commons.GithubSync.Get.Bodies.{IsWhole}
use codex_commons.GithubSync.Get.Steps.{ex, HoldsRun, Property, Holds, get-Keeps}
use codex_commons.GithubSync.Client.{sync, sync_all, start, conclude, close_result}
use codex_commons.GithubSync.Client.Induction.{sync-Holds}

-- How many of the exchanges had a response whose status passes the test.
unfoldable pub count_status : (ℕ → Bool) → List Exchange → ℕ
count_status p [] = 0
count_status p (e ∷ es) =
    let rest = count_status p es in
    elim e.status [ none ↦ rest | some status ↦ if p status then suc rest else rest ]

abbrev pub any_status : ℕ → Bool
any_status status = true

abbrev pub is_304 : ℕ → Bool
is_304 status = status == 304

-- How many bytes the bodies of the responses hold, those of 304s left out.
unfoldable pub body_sizes : List Exchange → ℕ
body_sizes [] = 0
body_sizes (e ∷ es) =
    let rest = body_sizes es in
    elim e.status [ none ↦ rest | some status ↦ if is_304 status then rest else rest + e.size ]

abbrev pub Counted : Client → Property
Counted c log requests not_modified body_bytes =
    (requests ≡ count_status any_status log)
    × (not_modified ≡ count_status is_304 log)
    × (body_bytes ≤ requests * c.max_body_bytes)
    × IsWhole c.max_body_bytes (body_sizes log) body_bytes

-- Where it fails, one byte more may have been read.
abbrev CountedOver : Client → Property
CountedOver c log requests not_modified body_bytes =
    (requests ≡ count_status any_status log)
    × (not_modified ≡ count_status is_304 log)
    × (body_bytes ≤ suc (requests * c.max_body_bytes))

answered-Counted :
    (c : Client) (e : Exchange) (log : List Exchange) (r n b i status size : ℕ)
    → e.status ≡ some status
    → e.size ≡ size
    → (status == 304) ≡ false
    → i ≤ c.max_body_bytes
    → IsWhole c.max_body_bytes size i
    → Counted c log r n b
    → Counted c (e ∷ log) (suc r) n (b + i)
unfolding count_status body_sizes
answered-Counted c e log r n b i status size s z f small whole (requests, modified, bytes, sizes) =
    (
      ground (arith, s, requests),
      ground (arith, s, f, modified),
      omega (arith, small, bytes),
      ground (arith, s, z, f, whole, sizes),
    )

sync-Counted :
    (server : Server) (d : Decoders) (c : Client) (q : Request)
    → HoldsRun (Counted c) (CountedOver c) (sync server d c q)
unfolding count_status body_sizes
sync-Counted server d c q =
    sync-Holds (Counted c) (CountedOver c) server d c q (refl, refl, omega arith, inl refl)
      (refl, refl, omega arith)
      (λ checks commits v w e e' A k key path asked.
        get-Keeps c k key (Counted c) (CountedOver c) server path q.validators
          (λ log r n b h. (h.0, h.1, omega (arith, h.2)))
          (λ log r n b prior h. (h.0, h.1, omega (arith, h.2)))
          (λ log r n b size prior h. (ap suc h.0, ap suc h.1, omega (arith, h.2), h.3))
          (λ log r n b b' status size prior f bound h.
            (ap suc h.0, ground (arith, f, h.1), omega (arith, bound, h.2)))
          (λ log r n b i status size prior f small whole h.
            answered-Counted c (ex c k key (request_of c path prior) (some status) size) log r n b i
              status size refl refl f small whole h))

-- A result that is returned is the closed one of its progress.
abbrev IsClosed : Progress × Fails Result → Type 0
IsClosed (p, err e) = Unit
IsClosed (p, ok r) = r ≡ close_result p.out

conclude-IsClosed : (run : Progress × Fails (Unit {0})) → IsClosed (conclude run)
conclude-IsClosed (p, err e) = tt
conclude-IsClosed (p, ok u) = refl

sync-IsClosed :
    (server : Server) (d : Decoders) (c : Client) (q : Request) → IsClosed (sync server d c q)
unfolding sync
sync-IsClosed server d c q =
    elim (Bool-cases (not (valid_name q.owner) || not (valid_name q.repository))) [
      | inl bad ↦ rw (bad, sync) tt
      | inr fine ↦ elim (ok_or_err (bounded_shas q.referenced_commits c.max_references)) [
        | inr (x, e) ↦ rw (fine, e, sync) tt
        | inl (commits, e) ↦ elim (ok_or_err (bounded_shas q.check_shas c.max_references)) [
          | inr (x, e') ↦ rw (fine, e, e', sync) tt
          | inl (checks, e') ↦
              rw (fine, e, e', sync)
                (conclude-IsClosed (sync_all server d c q checks commits start))
        ]
      ]
    ]

-- What a receipt says of the exchanges.
abbrev pub TellsOf : Client → List Exchange → Result → Type 0
TellsOf c log r =
    (r.receipt.requests ≡ count_status any_status log)
    × (r.receipt.not_modified ≡ count_status is_304 log)
    × (r.receipt.body_bytes ≡ body_sizes log)
    × (r.receipt.body_bytes ≤ r.receipt.requests * c.max_body_bytes)
    × ((r.receipt.unchanged ≡ true)
        ↔ ((1 ≤ r.receipt.requests) × (r.receipt.requests ≡ r.receipt.not_modified)))
    × ((r.receipt.unchanged ≡ false) ⊎ (r ≡ only_receipt r.receipt))

close_result-TellsOf :
    (c : Client) (p : Progress)
    → c.max_body_bytes < 2 ^ 63 - 1
    → Holds (Counted c) p
    → TellsOf c p.log (close_result p.out)
unfolding close_result
close_result-TellsOf c p small (requests, not_modified, bytes, sizes) =
    let exact : p.out.receipt.body_bytes ≡ body_sizes p.log = elim sizes [
      | inl same ↦ same
      | inr large ↦ absurd (omega (arith, small, large))
    ] in
    elim (Bool-cases
      (ltb 0 p.out.receipt.requests && p.out.receipt.requests == p.out.receipt.not_modified)) [
        | inl t ↦
            rw (t, close_result)
              (requests, not_modified, exact, bytes, (λ u. ground (arith, t), λ v. refl), inr refl)
        | inr f ↦
            rw (f, close_result)
              (
                requests,
                not_modified,
                exact,
                bytes,
                (λ u. absurd (cc u), λ v. ground (arith, f, v)),
                inl refl,
              )
      ]

-- With a body limit below the largest int64, a result that a synchronisation returns has a true receipt:
-- it counts the responses, the 304s among them and the bytes of the bodies of all the others, which are
-- no more than the limit for each response; it says unchanged just when there were responses and all
-- were 304s, and a result that is unchanged is nothing but its receipt.
pub sync_receipt :
    (server : Server) (d : Decoders) (c : Client) (q : Request) (p : Progress) (r : Result)
    → c.max_body_bytes < 2 ^ 63 - 1
    → sync server d c q ≡ (p, ok r)
    → TellsOf c p.log r
sync_receipt server d c q p r small h =
    let closed : r ≡ close_result p.out = subst IsClosed h (sync-IsClosed server d c q) in
    let counted : Holds (Counted c) p =
      subst (HoldsRun (Counted c) (CountedOver c)) h (sync-Counted server d c q) in
    rw closed (close_result-TellsOf c p small counted)
