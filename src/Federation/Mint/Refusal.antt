-- ===== src/Federation/Mint/Refusal.antt =====
-- http.rs: the responses of `mint` that carry no token, and what their status tells.
use kubernetes_identity_fede.Base.{
  ℕ, String, ◌≡◌, refl, sym, subst, ◌∙◌, ◌≢◌, ◌↔◌, Option, some, ok, err, map_err, and_then,
  and_then-eq-some, arith, eq_iff, ap, Result-cases, Option-cases, inl, inr, string_has_eq,
  map_err-eq-ok, >>=-eq-err,
}
use kubernetes_identity_fede.Api.Bindings.{AwsProviderSpec}
use kubernetes_identity_fede.Api.Status.{ResolvedCloudRoleBinding, ResolvedCloudRoleBindingStatus}
use kubernetes_identity_fede.Federation.Subject.{parse_service_account_username}
use kubernetes_identity_fede.Federation.Mint.{
  MintContext, MintRequest, Response, StatusCode, status_ok, not_found, status_conflict,
  internal_server_error, token_ttl, claims_for, authenticate, authorize, configuration, try_mint,
  mint,
}
use kubernetes_identity_fede.Federation.Mint.Grant.{
  Grant, granted, try_mint-Grant, mint_of_Grant, authorize-ok,
}
use kubernetes_identity_fede.Federation.Mint.Errs.{
  Errs, Errs-ok, Errs-map_err, Errs->>=, authenticate-Errs, authorize-Errs, configuration-Errs,
}

-- A binding whose AWS block is there, and whose hash is not the one that the caller sent.
pub record Outdated (req : MintRequest) (resolved : ResolvedCloudRoleBinding) : Type 0 where
  pub aws : AwsProviderSpec
  pub status : ResolvedCloudRoleBindingStatus
  pub hash : String
  pub configured : resolved.spec.providers.aws ≡ some aws
  pub recorded : resolved.status ≡ some status
  pub hashed : status.config_hash ≡ some hash
  pub differs : hash ≢ req.config_hash

module _ (ctx : MintContext) (req : MintRequest) (header : Option String) where
  -- An early response is not a success.
  try_mint-Errs : Errs (λ s. s ≢ status_ok) (try_mint ctx req header)
  unfolding try_mint
  try_mint-Errs =
      let P : StatusCode → Type 0 = λ s. s ≢ status_ok in
      Errs->>= P (authenticate ctx req header) _ (authenticate-Errs ctx req header P (λ e. cc))
        λ username.
          Errs->>= P (authorize ctx req username) _
            (authorize-Errs ctx req header P username (λ e. cc) (λ e. cc))
            λ u.
              Errs->>= P (map_err _ (ctx.get_resolved req.namespace req.service_account_name)) _
                (Errs-map_err P (ctx.get_resolved req.namespace req.service_account_name) not_found
                  _ (λ e. cc))
                λ resolved.
                  Errs->>= P (configuration ctx req resolved) _
                    (configuration-Errs ctx req header P resolved (λ e. cc) (λ e. cc) (λ e. cc))
                    λ aws.
                      Errs->>= P (map_err _ (ctx.sign (claims_for ctx req username aws resolved))) _
                        (Errs-map_err P (ctx.sign (claims_for ctx req username aws resolved))
                          internal_server_error _ (λ e. cc))
                        (λ token. Errs-ok P _)

  pub mint-ok : {r : Response} → try_mint ctx req header ≡ ok r → mint ctx req header ≡ r
  unfolding mint
  mint-ok h = rw h refl

  pub mint-err : {r : Response} → try_mint ctx req header ≡ err r → mint ctx req header ≡ r
  unfolding mint
  mint-err h = rw h refl

  granted_inv :
      {token token' : String} {ttl ttl' : ℕ}
      → granted ctx req header token ttl ≡ granted ctx req header token' ttl'
      → (token ≡ token') × (ttl ≡ ttl')
  granted_inv h = (cc, cc)

  Grant-of_mint :
      (token : String) (ttl : ℕ)
      → mint ctx req header ≡ granted ctx req header token ttl
      → (g : Grant ctx req header token) × (token_ttl g.aws ≡ ttl)
  Grant-of_mint token ttl h = elim (Result-cases (try_mint ctx req header)) [
    | inl (r, e) ↦
        let (token', g, same) = try_mint-Grant ctx req header r e in
        let (t, l) = granted_inv (sym same ∙ sym (mint-ok e) ∙ h) in
        subst (λ (s : String). (g : Grant ctx req header s) × (token_ttl g.aws ≡ ttl)) t (g, l)
    | inr (r, e) ↦
        absurd (try_mint-Errs r e (ap (λ (a : Response). a.status) (sym (mint-err e) ∙ h)))
  ]

  -- The federation service answers with a token exactly when the bearer token is authenticated as
  -- the very ServiceAccount that is asked for, its binding has an AWS block and the hash that the
  -- caller sent, and the signer signs the claims; the lifetime is the binding's.
  pub mint-Grant_iff :
      (token : String) (ttl : ℕ)
      → (mint ctx req header ≡ granted ctx req header token ttl)
        ↔ ((g : Grant ctx req header token) × (token_ttl g.aws ≡ ttl))
  mint-Grant_iff token ttl = (
    Grant-of_mint token ttl,
    λ (g, l). mint_of_Grant ctx req header token g ∙ ap (granted ctx req header token) l,
  )

  -- A success carries a token.
  pub mint-status_ok :
      (mint ctx req header).status ≡ status_ok
      → (token : String) × (ttl : ℕ) × (mint ctx req header ≡ granted ctx req header token ttl)
  mint-status_ok h = elim (Result-cases (try_mint ctx req header)) [
    | inl (r, e) ↦
        let (token, g, same) = try_mint-Grant ctx req header r e in
        (token, token_ttl g.aws, mint-ok e ∙ same)
    | inr (r, e) ↦
        absurd (try_mint-Errs r e (ap (λ (a : Response). a.status) (sym (mint-err e)) ∙ h))
  ]

  configuration-conflict :
      (resolved : ResolvedCloudRoleBinding) (r : Response)
      → configuration ctx req resolved ≡ err r
      → r.status ≡ status_conflict
      → Outdated req resolved
  unfolding configuration
  configuration-conflict resolved r h e = elim (Option-cases resolved.spec.providers.aws) [
    | inl missing ↦ absurd (ground arith)
    | inr (aws, configured) ↦ elim (Option-cases (and_then resolved.status (λ s. s.config_hash))) [
      | inl missing ↦ absurd (ground arith)
      | inr (hash, present) ↦
          let (status, recorded, hashed) =
            and_then-eq-some resolved.status (λ s. s.config_hash) present in
          record {
            aws = aws;
            status = status;
            hash = hash;
            configured = configured;
            recorded = recorded;
            hashed = hashed;
            differs = λ same. ground (arith, eq_iff hash req.config_hash);
          }
    ]
  ]

  -- The early response of a chain that reports a conflict.
  try_mint-conflict :
      (r : Response)
      → try_mint ctx req header ≡ err r
      → r.status ≡ status_conflict
      → (resolved : ResolvedCloudRoleBinding) × (ctx.get_resolved req.namespace
            req.service_account_name
          ≡ ok resolved)
        × Outdated req resolved
        × (username : String) × (authenticate ctx req header ≡ ok username)
        × (parse_service_account_username username ≡ some (req.namespace, req.service_account_name))
  unfolding try_mint
  try_mint-conflict r h s =
      let P : StatusCode → Type 0 = λ t. t ≢ status_conflict in
      elim (>>=-eq-err (authenticate ctx req header) _ h) [
        | inl e ↦ absurd (authenticate-Errs ctx req header P (λ t. cc) r e s)
        | inr (username, a, h₁) ↦ elim (>>=-eq-err (authorize ctx req username) _ h₁) [
          | inl e ↦ absurd (authorize-Errs ctx req header P username (λ t. cc) (λ t. cc) r e s)
          | inr (u, b, h₂) ↦
              elim (>>=-eq-err (map_err _ (ctx.get_resolved req.namespace req.service_account_name))
                _ h₂) [
                  | inl e ↦ absurd (
                      Errs-map_err P (ctx.get_resolved req.namespace req.service_account_name)
                        not_found _ (λ t. cc) r e s)
                  | inr (resolved, c, h₃) ↦
                      elim (>>=-eq-err (configuration ctx req resolved) _ h₃) [
                        | inl e ↦ (
                          resolved,
                          map_err-eq-ok _ _ c,
                          configuration-conflict resolved r e s,
                          username,
                          a,
                          authorize-ok ctx req header username {u = u} b,
                        )
                        | inr (aws, d, h₄) ↦
                            elim (>>=-eq-err
                              (map_err _ (ctx.sign (claims_for ctx req username aws resolved))) _
                              h₄) [
                                | inl e ↦ absurd (
                                    Errs-map_err P
                                      (ctx.sign (claims_for ctx req username aws resolved))
                                      internal_server_error _ (λ t. cc) r e s)
                                | inr (token, f, h₅) ↦ absurd (ground arith)
                              ]
                      ]
                ]
        ]
      ]

  -- A conflict is reported only to a caller that is authenticated as the ServiceAccount that is
  -- asked for, and only where its binding has an AWS block and another hash than the one sent.
  pub mint-conflict :
      (mint ctx req header).status ≡ status_conflict
      → (resolved : ResolvedCloudRoleBinding) × (ctx.get_resolved req.namespace
            req.service_account_name
          ≡ ok resolved)
        × Outdated req resolved
        × (username : String) × (authenticate ctx req header ≡ ok username)
        × (parse_service_account_username username ≡ some (req.namespace, req.service_account_name))
  mint-conflict h = elim (Result-cases (try_mint ctx req header)) [
    | inl (r, e) ↦
        let (token, g, same) = try_mint-Grant ctx req header r e in
        absurd (cc (ap (λ (a : Response). a.status) (sym same ∙ sym (mint-ok e)), h))
    | inr (r, e) ↦ try_mint-conflict r e (ap (λ (a : Response). a.status) (sym (mint-err e)) ∙ h)
  ]
