-- ===== src/Federation/Mint/Conflict.antt =====
-- http.rs: exactly when `mint` tells its caller that the binding's configuration has changed.
use kubernetes_identity_fede.Base.{
  arith, String, ◌≡◌, refl, ap, ◌∙◌, ◌↔◌, Option, some, ok, err, and_then, eq_iff, Result-cases,
  inl, inr, string_has_eq,
}
use kubernetes_identity_fede.Base.Text.{strip_prefix}
use kubernetes_identity_fede.Api.Status.{ResolvedCloudRoleBinding}
use kubernetes_identity_fede.Federation.Subject.{token_review, parse_service_account_username}
use kubernetes_identity_fede.Federation.Mint.{
  MintContext, MintRequest, Response, status_conflict, configuration, try_mint, mint,
}
use kubernetes_identity_fede.Federation.Mint.Grant.{authenticate_of, authorize_of, authenticate-ok}
use kubernetes_identity_fede.Federation.Mint.Refusal.{Outdated, mint-err, mint-conflict}

module _ (ctx : MintContext) (req : MintRequest) (header : Option String) where
  -- A caller that is authenticated as the ServiceAccount that it asks for, and whose binding has
  -- another hash than the one that it sent.
  pub record OutdatedCall : Type 0 where
    pub bearer : String
    pub username : String
    pub resolved : ResolvedCloudRoleBinding
    pub carried : and_then header (strip_prefix "Bearer ") ≡ some bearer
    pub authentic : token_review ctx.review bearer ≡ ok username
    pub own :
        parse_service_account_username username ≡ some (req.namespace, req.service_account_name)
    pub found : ctx.get_resolved req.namespace req.service_account_name ≡ ok resolved
    pub outdated : Outdated req resolved

  OutdatedCall-of_mint : (mint ctx req header).status ≡ status_conflict → OutdatedCall
  OutdatedCall-of_mint h =
      let (resolved, found, outdated, username, reviewed, own) = mint-conflict ctx req header h in
      let (bearer, carried, authentic) = authenticate-ok ctx req header username reviewed in
      record {
        bearer = bearer;
        username = username;
        resolved = resolved;
        carried = carried;
        authentic = authentic;
        own = own;
        found = found;
        outdated = outdated;
      }

  configuration_of_Outdated :
      {resolved : ResolvedCloudRoleBinding}
      → Outdated req resolved
      → (r : Response) × (configuration ctx req resolved ≡ err r) × (r.status ≡ status_conflict)
  unfolding configuration
  configuration_of_Outdated {resolved} o =
      let configured = o.configured in
      let recorded = o.recorded in
      let hashed = o.hashed in
      let differs = o.differs in
      elim (Result-cases (configuration ctx req resolved)) [
        | inl (aws, e) ↦ absurd (ground (arith, eq_iff o.hash req.config_hash))
        | inr (r, e) ↦ (r, e, ground (arith, eq_iff o.hash req.config_hash))
      ]

  conflict_of_OutdatedCall : OutdatedCall → (mint ctx req header).status ≡ status_conflict
  unfolding mint try_mint
  conflict_of_OutdatedCall o =
      let (r, refused, status) = configuration_of_Outdated o.outdated in
      let failed : try_mint ctx req header ≡ err r =
        rw (authenticate_of ctx req header o.bearer o.username o.carried o.authentic)
          (rw (authorize_of ctx req header o.username o.own) (rw o.found (rw refused refl))) in
      ap (λ (a : Response). a.status) (mint-err ctx req header failed) ∙ status

  -- The service reports a conflict exactly to a caller that is authenticated as the ServiceAccount
  -- that it asks for, and whose binding has an AWS block and another hash than the one sent.
  pub mint-conflict_iff : ((mint ctx req header).status ≡ status_conflict) ↔ OutdatedCall
  mint-conflict_iff = (OutdatedCall-of_mint, conflict_of_OutdatedCall)
