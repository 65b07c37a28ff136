-- ===== src/GithubSync/Get/Steps.antt =====
-- One request: what it adds to the log and to the receipt's counts, whatever the response.
use codex_commons.Prelude.{
  ℕ, suc, ◌+◌, ◌≤◌, ◌≡◌, String, Bool, false, Option, none, some, List, ◌∷◌, arith, refl, inl, inr,
  subst, ap, sym,
}
use codex_commons.Prelude.Tests.{Bool-cases, Option-cases, ◌==◌}
use codex_commons.Prelude.Lists.{length}
use codex_commons.Prelude.Table.{Table, lookup}
use codex_commons.Prelude.Results.{ok, err, ok_or_err}
use codex_commons.GithubSync.Types.{Fails, Validator}
use codex_commons.GithubSync.Config.{Client}
use codex_commons.GithubSync.Wire.{Kind}
use codex_commons.GithubSync.Action.{HttpRequest, Exchange, Progress}
use codex_commons.GithubSync.Get.{
  Response, Server, count_request, request_of, response_error, or_no_validator, exchange, sent,
  read_body, receive, get,
}
use codex_commons.GithubSync.Get.Bodies.{IsWhole, ReadsBody, ReadsBody-log, read_body-ReadsBody}

-- A property of the requests sent and of the receipt's three counts.
abbrev pub Property : Type 1
Property = List Exchange → ℕ → ℕ → ℕ → Type 0

abbrev pub Holds : Property → Progress → Type 0
Holds P p = P p.log p.out.receipt.requests p.out.receipt.not_modified p.out.receipt.body_bytes

-- The first property holds where the run answers, the second where it fails.
abbrev pub HoldsRun {ℓ} : {A : Type ℓ} → Property → Property → Progress × Fails A → Type 0
HoldsRun P E (p, err e) = Holds E p
HoldsRun P E (p, ok a) = Holds P p

moved :
    (Q : Property) (p : Progress) (log : List Exchange) (r n b : ℕ)
    → p.log ≡ log
    → p.out.receipt.requests ≡ r
    → p.out.receipt.not_modified ≡ n
    → p.out.receipt.body_bytes ≡ b
    → Q log r n b
    → Holds Q p
moved Q p log r n b l e m o h =
    subst (λ x. Q x p.out.receipt.requests p.out.receipt.not_modified p.out.receipt.body_bytes)
      (sym l)
      (subst (λ x. Q log x p.out.receipt.not_modified p.out.receipt.body_bytes) (sym e)
        (subst (λ x. Q log r x p.out.receipt.body_bytes) (sym m)
          (subst (λ x. Q log r n x) (sym o) h)))

module _ {A : Type 0} (c : Client) (k : Kind A) (key : String) where
  -- The exchange of a response to one of the requests.
  abbrev pub ex : HttpRequest → Option ℕ → ℕ → Exchange
  ex request status size = record { request = request; status = status; size = size }

  -- The progress behind a response.
  abbrev counted : HttpRequest → Response → Progress → Progress
  counted request resp p = record (sent request (some resp.status) (length resp.body) p) {
    out = count_request p.out;
  }

  -- What each outcome of a request keeps: a property, or another one where the request fails.
  module _ (P E : Property) (server : Server) (path : String) (validators : Table Validator)
      (unsent : (log : List Exchange) (r n b : ℕ) → P log r n b → E log r n b)
      (lost : (log : List Exchange) (r n b : ℕ) (prior : Validator)
        → P log r n b
        → E (ex (request_of c path prior) none 0 ∷ log) r n b)
      (unmodified : (log : List Exchange) (r n b size : ℕ) (prior : Validator)
        → P log r n b
        → P (ex (request_of c path prior) (some 304) size ∷ log) (suc r) (suc n) b)
      (failed : (log : List Exchange) (r n b b' status size : ℕ) (prior : Validator)
        → (status == 304) ≡ false
        → b' ≤ b + suc c.max_body_bytes
        → P log r n b
        → E (ex (request_of c path prior) (some status) size ∷ log) (suc r) n b')
      (answered : (log : List Exchange) (r n b i status size : ℕ) (prior : Validator)
        → (status == 304) ≡ false
        → i ≤ c.max_body_bytes
        → IsWhole c.max_body_bytes size i
        → P log r n b
        → P (ex (request_of c path prior) (some status) size ∷ log) (suc r) n (b + i)) where
    body-HoldsRun :
        (prior : Validator) (resp : Response) (p : Progress)
        (run : Progress × Fails (Option A × Bool))
        → (resp.status == 304) ≡ false
        → ReadsBody c resp (counted (request_of c path prior) resp p) run
        → Holds P p
        → HoldsRun P E run
    body-HoldsRun prior resp p (p', ok a) f ((l, r, n), i, bytes, small, whole) h =
        moved P p' _ _ _ _ l r n bytes
          (answered p.log _ _ _ i resp.status (length resp.body) prior f small whole h)
    body-HoldsRun prior resp p (p', err e) f ((l, r, n), bytes) h =
        moved E p' _ _ _ _ l r n refl
          (failed p.log _ _ _ _ resp.status (length resp.body) prior f bytes h)

    receive-HoldsRun :
        (shown : String) (prior : Validator) (resp : Response) (p : Progress)
        → Holds P p
        → HoldsRun P E (receive c k key shown prior resp (counted (request_of c path prior) resp p))
    unfolding receive
    receive-HoldsRun shown prior resp p h = elim (Bool-cases (resp.status == 304)) [
      | inl t ↦
          let same : resp.status ≡ 304 = ground (arith, t) in
          rw (t, receive, same) (unmodified p.log _ _ _ (length resp.body) prior h)
      | inr f ↦ elim (Option-cases (response_error resp shown)) [
        | inl e ↦
            let behind = counted (request_of c path prior) resp p in
            rw (f, e, receive)
              (body-HoldsRun prior resp p (read_body c k key resp behind) f
                (read_body-ReadsBody c k key resp behind) h)
        | inr (x, e) ↦
            rw (f, e, receive)
              (failed p.log _ _ _ _ resp.status (length resp.body) prior f (omega arith) h)
      ]
    ]

    pub get-Keeps : (p : Progress) → Holds P p → HoldsRun P E (get c k key server path validators p)
    unfolding get exchange
    get-Keeps p h =
        let prior = or_no_validator (lookup key validators) in
        let request = request_of c path prior in
        elim (Option-cases (server.new_request_err request)) [
          | inr (x, bad) ↦ rw (bad, get) (unsent p.log _ _ _ h)
          | inl fine ↦ elim (ok_or_err (server.respond p.log request)) [
            | inl (resp, e) ↦
                rw (fine, e, get, exchange)
                  (receive-HoldsRun (server.escaped_path request.path) prior resp p h)
            | inr (x, e) ↦ rw (fine, e, get, exchange) (lost p.log _ _ _ prior h)
          ]
        ]

  receive-log :
      (shown : String) (prior : Validator) (resp : Response) (p : Progress)
      → (receive c k key shown prior resp p).0.log ≡ p.log
  unfolding receive
  receive-log shown prior resp p = elim (Bool-cases (resp.status == 304)) [
    | inl t ↦ rw (t, receive) refl
    | inr f ↦ elim (Option-cases (response_error resp shown)) [
      | inl e ↦
          rw (f, e, receive)
            (ReadsBody-log c resp p (read_body c k key resp p) (read_body-ReadsBody c k key resp p))
      | inr (x, e) ↦ rw (f, e, receive) refl
    ]
  ]

  -- A request is sent at most once.
  pub length-get :
      (server : Server) (path : String) (validators : Table Validator) (p : Progress)
      → length (get c k key server path validators p).0.log ≤ suc (length p.log)
  unfolding get exchange
  length-get server path validators p =
      let prior = or_no_validator (lookup key validators) in
      let request = request_of c path prior in
      elim (Option-cases (server.new_request_err request)) [
        | inr (x, bad) ↦ rw (bad, get) (omega arith)
        | inl fine ↦ elim (ok_or_err (server.respond p.log request)) [
          | inl (resp, e) ↦
              let same =
                receive-log (server.escaped_path request.path) prior resp
                  (counted request resp p) in
              rw (fine, e, get, exchange) (omega (arith, ap length same))
          | inr (x, e) ↦ rw (fine, e, get, exchange) (omega arith)
        ]
      ]
