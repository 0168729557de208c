-- ===== src/System/Wire.antt =====
-- app/crates/kif-agent/src/federation.rs against app/crates/kif-federation/src/http.rs: the answer
-- of the service as the agent's client reads it. HTTP and JSON stand between the two.
use kubernetes_identity_fede.Base.{
  ℕ, String, ◌<>◌, ◌≡◌, refl, sym, ap, ◌∙◌, ◌↔◌, ◌≢◌, Option, some, Result, ok, err, inl, inr,
  false, option_map, nat_eq, nat_eq_iff, Bool-cases, map_err, if◌then◌else◌,
}
use kubernetes_identity_fede.Federation.Mint as F
use kubernetes_identity_fede.Federation.Mint.{
  MintContext, StatusCode, status_ok, status_conflict, Body, text, json, Response, token_ttl,
}
use kubernetes_identity_fede.Base.Routes.{post, calls, Axum}
use kubernetes_identity_fede.Federation.Router.{Endpoint, mints, router, router-mint}
use kubernetes_identity_fede.Federation.Mint.Grant.{Grant, granted}
use kubernetes_identity_fede.Federation.Mint.Refusal.{mint-status_ok, mint-Grant_iff}
use kubernetes_identity_fede.Federation.Mint.Conflict.{OutdatedCall, mint-conflict_iff}
use kubernetes_identity_fede.Agent.Client as A
use kubernetes_identity_fede.Agent.Client.{
  Http, HttpResponse, MintError, config_hash_mismatch, other, ok_code, conflict_code, mint_url,
  without_slashes,
}

-- The two crates declare the fields of the messages separately.
abbrev pub received : A.MintRequest → F.MintRequest
received req = record {
  namespace = req.namespace;
  service_account_name = req.service_account_name;
  config_hash = req.config_hash;
  pod_name = req.pod_name;
}

abbrev pub taken : F.MintResponse → A.MintResponse
taken resp = record {
  aws =
      option_map (λ t. record { token = t.token; expires_in_seconds = t.expires_in_seconds })
        resp.aws;
}

-- What HTTP and JSON do between the agent's client and the service at a URL: the request reaches the
-- handler that axum finds for its path, with the bearer token in its header, and the response comes
-- back with its status and its body.
pub record IsConnected (http : Http) (ctx : MintContext) (url : String) : Type 0 where
  pub code : StatusCode → ℕ
  pub header : String → Option String
  pub to_json : F.MintResponse → String
  pub bearer : (t : String) → header t ≡ some ("Bearer " <> t)
  pub axum : Axum Endpoint
  pub answers :
      (path t : String) (req : A.MintRequest) (handler : F.MintRequest → Option String → Response)
      (status : StatusCode) (body : Body)
      → axum.matched (router ctx) post path ≡ calls (mints handler)
      → handler (received req) (header t) ≡ record { status = status; body = body }
      → http.post (without_slashes url <> path) t req
        ≡ ok (record {
          status = code status;
          body = ok (elim body [ text s ↦ s | json r ↦ to_json r ]);
        })
  pub reads : (r : F.MintResponse) → http.from_json (to_json r) ≡ ok (taken r)
  pub code-ok : (s : StatusCode) → (code s ≡ ok_code) ↔ (s ≡ status_ok)
  pub code-conflict : (s : StatusCode) → (code s ≡ conflict_code) ↔ (s ≡ status_conflict)

StatusCode-discrete : Discrete StatusCode
StatusCode-discrete = hlevel

module _ {http : Http} {ctx : MintContext} {url : String} (wire : IsConnected http ctx url)
    (bearer : String) (req : A.MintRequest) where
  abbrev pub header : Option String
  header = some ("Bearer " <> bearer)

  abbrev pub called : Result A.MintResponse MintError
  called = A.mint http url bearer req

  abbrev pub response : Response
  response = F.mint ctx (received req) header

  abbrev pub minted : String → ℕ → A.MintResponse
  minted token ttl = record { aws = some (record { token = token; expires_in_seconds = ttl }) }

  posted :
      (status : StatusCode) (body : Body)
      → response ≡ record { status = status; body = body }
      → http.post (mint_url url) bearer req
        ≡ ok (record {
          status = wire.code status;
          body = ok (elim body [ text s ↦ s | json r ↦ wire.to_json r ]);
        })
  posted status body h =
      wire.answers "/v1/mint" bearer req (λ r t. F.mint ctx r t) status body
        (router-mint wire.axum ctx) (rw (wire.bearer bearer) h)

  -- What the client makes of a status and a body.
  abbrev read_reply : ℕ → String → Result A.MintResponse MintError
  read_reply status body =
      if nat_eq status ok_code
      then map_err (λ e. other "failed to parse mint response body") (http.from_json body)
      else if nat_eq status conflict_code
      then err config_hash_mismatch
      else err
          (other ("failed to mint request, status " <> (http.show_status status <> (": " <> body))))

  called-posted :
      (status : ℕ) (body : String)
      → http.post (mint_url url) bearer req ≡ ok (record { status = status; body = ok body })
      → called ≡ read_reply status body
  unfolding A.mint
  called-posted status body h = rw (h, A.mint) refl

  called-read :
      (status : StatusCode) (body : Body)
      → response ≡ record { status = status; body = body }
      → called ≡ read_reply (wire.code status) (elim body [ text s ↦ s | json r ↦ wire.to_json r ])
  called-read status body h = called-posted _ _ (posted status body h)

  called-granted :
      (token : String) (ttl : ℕ)
      → response ≡ granted ctx (received req) header token ttl
      → called ≡ ok (minted token ttl)
  called-granted token ttl h =
      let r : F.MintResponse = record {
        aws = some (record { token = token; expires_in_seconds = ttl });
      } in
      let code = (wire.code-ok status_ok).1 refl in
      called-read status_ok (json r) h ∙ rw (code, wire.reads r) refl

  called-conflict : response.status ≡ status_conflict → called ≡ err config_hash_mismatch
  called-conflict h =
      called-read response.status response.body refl
      ∙ rw (h, (wire.code-conflict status_conflict).1 refl) refl

  code-other :
      (s : StatusCode) (n : ℕ) (t : StatusCode)
      → ((wire.code s ≡ n) ↔ (s ≡ t))
      → s ≢ t
      → nat_eq (wire.code s) n ≡ false
  code-other s n t both h = elim (Bool-cases (nat_eq (wire.code s) n)) [
    | inl same ↦ absurd (h (both.0 ((nat_eq_iff _ _).0 same)))
    | inr differs ↦ differs
  ]

  called-other :
      response.status ≢ status_ok
      → response.status ≢ status_conflict
      → (message : String) × (called ≡ err (other message))
  called-other h k = (
    "failed to mint request, status "
        <> (http.show_status (wire.code response.status)
            <> (": " <> elim response.body [ text s ↦ s | json r ↦ wire.to_json r ])),
    called-read response.status response.body refl
        ∙ rw (code-other response.status ok_code status_ok (wire.code-ok _) h) (
            rw (code-other response.status conflict_code status_conflict (wire.code-conflict _) k)
              refl),
  )

  -- What the client can make of the service's response.
  data Called : Type 0 where
    succeeds :
        (token : String) (ttl : ℕ)
        → response ≡ granted ctx (received req) header token ttl
        → called ≡ ok (minted token ttl)
        → Called
    conflicts : response.status ≡ status_conflict → called ≡ err config_hash_mismatch → Called
    fails :
        response.status ≢ status_ok
        → response.status ≢ status_conflict
        → (message : String) → called ≡ err (other message)
        → Called

  called-cases : Called
  called-cases = elim (StatusCode-discrete response.status status_ok) [
    | yes same ↦
        let (token, ttl, h) = mint-status_ok ctx (received req) header same in
        succeeds token ttl h (called-granted token ttl h)
    | no differs ↦ elim (StatusCode-discrete response.status status_conflict) [
      | yes same ↦ conflicts same (called-conflict same)
      | no differs' ↦
          let (message, e) = called-other differs differs' in fails differs differs' message e
    ]
  ]

  minted_inv :
      {token token' : String} {ttl ttl' : ℕ}
      → ◌≡◌ {A = Result A.MintResponse MintError} (ok (minted token ttl)) (ok (minted token' ttl'))
      → (token ≡ token') × (ttl ≡ ttl')
  minted_inv h = (cc, cc)

  -- The agent's client gets a token from a connected service exactly when the service has all that
  -- it needs for one: an authenticated token of the very ServiceAccount, a binding with an AWS
  -- block and the hash that was sent, and a signature.
  pub called-Grant_iff :
      (token : String) (ttl : ℕ)
      → (called ≡ ok (minted token ttl))
        ↔ ((g : Grant ctx (received req) header token) × (token_ttl g.aws ≡ ttl))
  called-Grant_iff token ttl = (
    λ h. elim called-cases [
      | succeeds token' ttl' same e ↦
          let (t, l) = minted_inv (sym e ∙ h) in
          (mint-Grant_iff ctx (received req) header token ttl).0 (
            same
            ∙ ap (granted ctx (received req) header token') l
            ∙ ap (λ t. granted ctx (received req) header t ttl) t)
      | conflicts status e ↦ absurd (cc (e, h))
      | fails status status' message e ↦ absurd (cc (e, h))
    ],
    λ g. called-granted token ttl ((mint-Grant_iff ctx (received req) header token ttl).1 g),
  )

  -- The agent's client reports a changed configuration exactly when the connected service has
  -- authenticated its caller and has another hash for its binding.
  pub called-OutdatedCall_iff :
      (called ≡ err config_hash_mismatch) ↔ OutdatedCall ctx (received req) header
  called-OutdatedCall_iff = (
    λ h. elim called-cases [
      | succeeds token ttl same e ↦ absurd (cc (e, h))
      | conflicts status e ↦ (mint-conflict_iff ctx (received req) header).0 status
      | fails status status' message e ↦ absurd (cc (e, h))
    ],
    λ o. called-conflict ((mint-conflict_iff ctx (received req) header).1 o),
  )
