-- ===== src/Federation/Mint/Grant.antt =====
-- http.rs: when `mint` gives out a token, and for whom.
use kubernetes_identity_fede.Base.{
  ℕ, String, ◌≡◌, refl, sym, ◌∙◌, Option, some, ok, ok_or, map_err, and_then, and_then-eq-some,
  arith, eq_iff, >>=-eq-ok, ok_or-eq-ok, ok-injective, ensure-eq-ok, ensure, ◌==◌, string_has_eq,
  ◌&&◌, ap, map_err-eq-ok,
}
use kubernetes_identity_fede.Base.Text.{strip_prefix}
use kubernetes_identity_fede.Api.Bindings.{AwsProviderSpec}
use kubernetes_identity_fede.Api.Status.{ResolvedCloudRoleBinding, ResolvedCloudRoleBindingStatus}
use kubernetes_identity_fede.Federation.Subject.{token_review, parse_service_account_username}
use kubernetes_identity_fede.Federation.Mint.{
  MintContext, MintRequest, Response, json, status_ok, token_ttl, claims_for, authenticate,
  authorize, configuration, try_mint, mint,
}

module _ (ctx : MintContext) (req : MintRequest) (header : Option String) where
  -- All that must hold for a token to be given out.
  pub record Grant (token : String) : Type 0 where
    pub bearer : String
    pub username : String
    pub resolved : ResolvedCloudRoleBinding
    pub status : ResolvedCloudRoleBindingStatus
    pub aws : AwsProviderSpec
    pub carried : and_then header (strip_prefix "Bearer ") ≡ some bearer
    pub authentic : token_review ctx.review bearer ≡ ok username
    pub own :
        parse_service_account_username username ≡ some (req.namespace, req.service_account_name)
    pub found : ctx.get_resolved req.namespace req.service_account_name ≡ ok resolved
    pub configured : resolved.spec.providers.aws ≡ some aws
    pub recorded : resolved.status ≡ some status
    pub current : status.config_hash ≡ some req.config_hash
    pub signed : ctx.sign (claims_for ctx req username aws resolved) ≡ ok token

  -- The response with a token.
  abbrev pub granted : String → ℕ → Response
  granted token ttl = record {
    status = status_ok;
    body = json (record { aws = some (record { token = token; expires_in_seconds = ttl }) });
  }

  pub authenticate-ok :
      (username : String)
      → authenticate ctx req header ≡ ok username
      → (bearer : String) × (and_then header (strip_prefix "Bearer ") ≡ some bearer)
        × (token_review ctx.review bearer ≡ ok username)
  unfolding authenticate
  authenticate-ok username h =
      let (bearer, carried, h') =
        >>=-eq-ok (ok_or (and_then header (strip_prefix "Bearer ")) _) _ h in
      (bearer, ok_or-eq-ok _ _ carried, map_err-eq-ok _ _ h')

  pub authorize-ok :
      (username : String) {u : Unit {0}}
      → authorize ctx req username ≡ ok u
      → parse_service_account_username username ≡ some (req.namespace, req.service_account_name)
  unfolding authorize
  authorize-ok username h =
      let (subject, parsed, h') =
        >>=-eq-ok (ok_or (parse_service_account_username username) _) _ h in
      let both =
        ensure-eq-ok (subject.0 == req.namespace && subject.1 == req.service_account_name) _ h' in
      ok_or-eq-ok _ _ parsed
      ∙ ground (arith, eq_iff subject.0 req.namespace, eq_iff subject.1 req.service_account_name)

  pub configuration-ok :
      (resolved : ResolvedCloudRoleBinding) (aws : AwsProviderSpec)
      → configuration ctx req resolved ≡ ok aws
      → (status : ResolvedCloudRoleBindingStatus) × (resolved.spec.providers.aws ≡ some aws)
        × (resolved.status ≡ some status)
        × (status.config_hash ≡ some req.config_hash)
  unfolding configuration
  configuration-ok resolved aws h =
      let (a, configured, h₁) = >>=-eq-ok (ok_or resolved.spec.providers.aws _) _ h in
      let (hash, hashed, h₂) =
        >>=-eq-ok (ok_or (and_then resolved.status (λ s. s.config_hash)) _) _ h₁ in
      let (status, recorded, has) =
        and_then-eq-some resolved.status (λ s. s.config_hash) (ok_or-eq-ok _ _ hashed) in
      let (u, same, h₃) = >>=-eq-ok (ensure (hash == req.config_hash) _) _ h₂ in
      let current =
        (eq_iff hash req.config_hash).0 (ensure-eq-ok (hash == req.config_hash) _ same) in
      (
        status,
        ok_or-eq-ok _ _ configured ∙ ap some (ok-injective h₃),
        recorded,
        has ∙ ap some current,
      )

  pub try_mint-Grant :
      (r : Response)
      → try_mint ctx req header ≡ ok r
      → (token : String) × (g : Grant token) × (r ≡ granted token (token_ttl g.aws))
  unfolding try_mint
  try_mint-Grant r h =
      let (username, authentic, h₁) = >>=-eq-ok (authenticate ctx req header) _ h in
      let (u, own, h₂) = >>=-eq-ok (authorize ctx req username) _ h₁ in
      let (resolved, looked, h₃) =
        >>=-eq-ok (map_err _ (ctx.get_resolved req.namespace req.service_account_name)) _ h₂ in
      let (aws, configured, h₄) = >>=-eq-ok (configuration ctx req resolved) _ h₃ in
      let (token, signed, h₅) =
        >>=-eq-ok (map_err _ (ctx.sign (claims_for ctx req username aws resolved))) _ h₄ in
      let (bearer, carried, reviewed) = authenticate-ok username authentic in
      let (status, has_aws, recorded, current) = configuration-ok resolved aws configured in
      (
        token,
        record {
          bearer = bearer;
          username = username;
          resolved = resolved;
          status = status;
          aws = aws;
          carried = carried;
          authentic = reviewed;
          own = authorize-ok username {u = u} own;
          found = map_err-eq-ok _ _ looked;
          configured = has_aws;
          recorded = recorded;
          current = current;
          signed = map_err-eq-ok _ _ signed;
        },
        sym (ok-injective h₅),
      )

  pub authenticate_of :
      (bearer username : String)
      → and_then header (strip_prefix "Bearer ") ≡ some bearer
      → token_review ctx.review bearer ≡ ok username
      → authenticate ctx req header ≡ ok username
  unfolding authenticate
  authenticate_of bearer username carried authentic = rw carried (rw authentic refl)

  pub authorize_of :
      (username : String)
      → parse_service_account_username username ≡ some (req.namespace, req.service_account_name)
      → authorize ctx req username ≡ ok tt
  unfolding authorize
  authorize_of username own = rw own (
      ground (
        arith,
        eq_iff req.namespace req.namespace,
        eq_iff req.service_account_name req.service_account_name,
      ))

  configuration_of_Grant :
      (token : String) (g : Grant token) → configuration ctx req g.resolved ≡ ok g.aws
  unfolding configuration
  configuration_of_Grant token g =
      rw (g.configured, g.recorded)
        (rw g.current (ground (arith, eq_iff req.config_hash req.config_hash)))

  -- Whatever is needed for a token suffices.
  pub mint_of_Grant :
      (token : String) (g : Grant token) → mint ctx req header ≡ granted token (token_ttl g.aws)
  unfolding mint
  mint_of_Grant token g =
      rw (try_mint, authenticate_of g.bearer g.username g.carried g.authentic)
        (rw (authorize_of g.username g.own)
          (rw g.found (rw (configuration_of_Grant token g) (rw g.signed refl))))
