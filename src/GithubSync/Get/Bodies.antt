-- ===== src/GithubSync/Get/Bodies.antt =====
-- What reading the body of a response adds to the receipt.
use Prim.Native.Nat.{◌^◌}
use codex_commons.Prelude.{
  ℕ, zero, suc, ◌+◌, ◌-◌, ◌≤◌, ◌≡◌, String, false, [], ◌∷◌, arith, refl, inl, inr, ◌⊎◌, ap,
}
use codex_commons.Prelude.Tests.{Bool-cases, Option-cases, ltb}
use codex_commons.Prelude.Lists.{length, take}
use codex_commons.Prelude.Results.{ok, err, ok_or_err}
use codex_commons.Prelude.Bytes.{Bytes}
use codex_commons.GithubSync.Types.{Fails, Receipt}
use codex_commons.GithubSync.Config.{Client}
use codex_commons.GithubSync.Wire.{Kind}
use codex_commons.GithubSync.Action.{Progress}
use codex_commons.GithubSync.Get.{
  Response, count_body, read_limit, read_all, decode_body, read_body,
}

length-take : (n : ℕ) (s : Bytes) → n ≤ length s → length (take n s) ≡ n
length-take zero s h = refl
length-take (suc n) [] h = absurd (omega (arith, h))
length-take (suc n) (c ∷ s) h = ap suc (length-take n s (omega (arith, h)))

-- No more than one byte above the limit is read.
read_all-length :
    (max : ℕ) (resp : Response) (payload : Bytes)
    → read_all (read_limit max) resp ≡ ok payload
    → length payload ≤ suc max
unfolding read_all read_limit
read_all-length max resp payload h =
    ground (arith, h, length-take 0 resp.body, length-take (suc max) resp.body)

-- Below the largest int64, what fits the limit is the whole body.
abbrev pub IsWhole : ℕ → ℕ → ℕ → Type 0
IsWhole max size n = (n ≡ size) ⊎ (2 ^ 63 - 1 ≤ max)

read_all-IsWhole :
    (max : ℕ) (resp : Response) (payload : Bytes)
    → read_all (read_limit max) resp ≡ ok payload
    → ltb max (length payload) ≡ false
    → IsWhole max (length resp.body) (length payload)
unfolding read_all read_limit
read_all-IsWhole max resp payload h fits = ground (arith, h, fits, length-take (suc max) resp.body)

-- The counts but that of the bytes, and the log, are as they were.
abbrev pub IsBeside : Progress → Progress → Type 0
IsBeside p p' =
    (p'.log ≡ p.log)
    × (p'.out.receipt.requests ≡ p.out.receipt.requests)
    × (p'.out.receipt.not_modified ≡ p.out.receipt.not_modified)

-- What the reading of a body adds: the whole body within the limit, or an error and at most a byte more.
abbrev pub ReadsBody {ℓ} : {A : Type ℓ} → Client → Response → Progress → Progress × Fails A → Type 0
ReadsBody c resp p (p', err e) =
    IsBeside p p' × (p'.out.receipt.body_bytes ≤ p.out.receipt.body_bytes + suc c.max_body_bytes)
ReadsBody c resp p (p', ok a) =
    IsBeside p p'
    × (n : ℕ) × (p'.out.receipt.body_bytes ≡ p.out.receipt.body_bytes + n)
    × (n ≤ c.max_body_bytes)
    × IsWhole c.max_body_bytes (length resp.body) n

counted-ReadsBody {ℓ} :
    {A : Type ℓ} (c : Client) (resp : Response) (p : Progress) (n : ℕ) (run : Progress × Fails A)
    → run.0.log ≡ p.log
    → run.0.out.receipt ≡ (count_body n p.out).receipt
    → n ≤ c.max_body_bytes
    → IsWhole c.max_body_bytes (length resp.body) n
    → ReadsBody c resp p run
counted-ReadsBody c resp p n (p', ok a) l same small whole = (
  (l, ap (λ (r : Receipt). r.requests) same, ap (λ (r : Receipt). r.not_modified) same),
  n,
  ap (λ (r : Receipt). r.body_bytes) same,
  small,
  whole,
)
counted-ReadsBody c resp p n (p', err e) l same small whole = (
  (l, ap (λ (r : Receipt). r.requests) same, ap (λ (r : Receipt). r.not_modified) same),
  omega (arith, small, ap (λ (r : Receipt). r.body_bytes) same),
)

pub ReadsBody-log {ℓ} :
    {A : Type ℓ} (c : Client) (resp : Response) (p : Progress) (run : Progress × Fails A)
    → ReadsBody c resp p run
    → run.0.log ≡ p.log
ReadsBody-log c resp p (p', ok a) h = h.0.0
ReadsBody-log c resp p (p', err e) h = h.0.0

module _ {A : Type 0} (c : Client) (k : Kind A) (key : String) where
  decode_body-AddsNothing :
      (resp : Response) (payload : Bytes) (p : Progress)
      → let p' = (decode_body c k key resp payload p).0 in
        (p'.log ≡ p.log) × (p'.out.receipt ≡ p.out.receipt)
  unfolding decode_body
  decode_body-AddsNothing resp payload p = elim (Option-cases (k.decode payload)) [
    | inl e ↦ rw (e, decode_body) (refl, refl)
    | inr ((value, ends), e) ↦ elim (Bool-cases ends) [
      | inl t ↦ rw (e, decode_body, t) (refl, refl)
      | inr f ↦ rw (e, decode_body, f) (refl, refl)
    ]
  ]

  pub read_body-ReadsBody :
      (resp : Response) (p : Progress) → ReadsBody c resp p (read_body c k key resp p)
  unfolding read_body
  read_body-ReadsBody resp p = elim (ok_or_err (read_all (read_limit c.max_body_bytes) resp)) [
    | inl (payload, e) ↦
        let small = read_all-length c.max_body_bytes resp payload e in
        elim (Bool-cases (ltb c.max_body_bytes (length payload))) [
          | inl over ↦ rw (e, read_body, over) ((refl, refl, refl), omega (arith, small))
          | inr fits ↦
              let counted = record p { out = count_body (length payload) p.out } in
              let (same_log, same_receipt) = decode_body-AddsNothing resp payload counted in
              rw (e, read_body, fits)
                (counted-ReadsBody c resp p (length payload)
                  (decode_body c k key resp payload counted) same_log same_receipt
                  (ground (arith, fits)) (read_all-IsWhole c.max_body_bytes resp payload e fits))
        ]
    | inr (x, e) ↦ rw (e, read_body) ((refl, refl, refl), omega arith)
  ]
