-- ===== src/Federation/Mint.antt =====
-- app/crates/kif-federation/src/http.rs: the handler `mint`. An early `return` is an `err` that
-- carries the response; a text in a response stands for the body that is sent.
pub mod Grant
pub mod Errs
pub mod Refusal
pub mod Conflict
pub mod Tests
use kubernetes_identity_fede.Base.{
  ℕ, String, ◌<>◌, Bool, true, not, ◌&&◌, ◌||◌, Option, none, some, Result, ok, err, ◌>>=◌, ◌>>◌,
  ensure, ok_or, map_err, unwrap_or, and_then, if◌then◌else◌, ◌==◌, string_has_eq,
}
use kubernetes_identity_fede.Base.Text.{strip_prefix}
use kubernetes_identity_fede.Base.BTreeMap.{BTreeMap}
use kubernetes_identity_fede.Api.Bindings.{AttributesSpec, AwsProviderSpec}
use kubernetes_identity_fede.Api.Status.{ResolvedCloudRoleBinding}
use kubernetes_identity_fede.Federation.Subject.{
  TokenReviewStatus, token_review, parse_service_account_username,
}
use kubernetes_identity_fede.Federation.Claims.{AwsClaims, Clock, new_claims}

pub record MintRequest : Type 0 where
  pub namespace : String
  pub service_account_name : String
  pub config_hash : String
  pub pod_name : Option String

pub record MintedToken : Type 0 where
  pub token : String
  pub expires_in_seconds : ℕ

pub record MintResponse : Type 0 where
  pub aws : Option MintedToken

pub data StatusCode : Type 0 where
  status_ok bad_request unauthorized forbidden not_found status_conflict internal_server_error
        not_implemented service_unavailable :
      StatusCode

pub data Body : Type 0 where
  text : String → Body
  json : MintResponse → Body

pub record Response : Type 0 where
  pub status : StatusCode
  pub body : Body

abbrev pub refuse : StatusCode → String → Response
refuse status message = record { status = status; body = text message }

-- What the handler takes from its state: the API server, the signing key behind the lock, the
-- issuer's URL, and the clock.
pub record MintContext : Type 0 where
  pub review : String → Result (Option TokenReviewStatus) String
  pub get_resolved : String → String → Result ResolvedCloudRoleBinding String
  pub sign : AwsClaims → Result String String
  pub issuer_url : String
  pub clock : Clock

-- `includeProvenance` and `extra` of the binding, with their defaults.
abbrev pub provenance : Option AttributesSpec → Bool × Option (BTreeMap String)
provenance none = (true, none)
provenance (some a) = (unwrap_or a.include_provenance true, a.extra)

abbrev pub token_ttl : AwsProviderSpec → ℕ
token_ttl aws = unwrap_or aws.max_session_duration_seconds 3600

module _ (ctx : MintContext) (req : MintRequest) where
  abbrev target : String
  target = req.namespace <> ("/" <> req.service_account_name)

  abbrev pub claims_for : String → AwsProviderSpec → ResolvedCloudRoleBinding → AwsClaims
  claims_for username aws resolved =
      new_claims ctx.clock ctx.issuer_url username (unwrap_or aws.audience "sts.amazonaws.com")
        (token_ttl aws) (provenance resolved.spec.attributes).0 req.namespace
        req.service_account_name req.pod_name (provenance resolved.spec.attributes).1

  -- The token of the Authorization header, and the subject that the API server names for it.
  unfoldable pub authenticate : Option String → Result String Response
  unfolding token_review
  authenticate header = do
    bearer ←
        ok_or (and_then header (strip_prefix "Bearer "))
          (refuse unauthorized "missing bearer token\n")
    map_err (λ e. refuse unauthorized ("token review failed: " <> (e <> "\n")))
        (token_review ctx.review bearer)

  -- The subject must be the ServiceAccount that is asked for.
  unfoldable pub authorize : String → Result (Unit {0}) Response
  unfolding parse_service_account_username
  authorize username = do
    subject ←
        ok_or (parse_service_account_username username)
          (refuse unauthorized "not a valid ServiceAccount token\n")
    ensure (subject.0 == req.namespace && subject.1 == req.service_account_name) (
        refuse forbidden (
          "subject mismatch: token is "
          <> (subject.0 <> ("/" <> (subject.1 <> (" requested " <> (target <> "\n")))))))

  -- The AWS block of the binding, if the caller knows the binding's configuration.
  unfoldable pub configuration : ResolvedCloudRoleBinding → Result AwsProviderSpec Response
  configuration resolved = do
    aws ← ok_or resolved.spec.providers.aws (refuse bad_request "no AWS provider configured\n")
    hash ←
        ok_or (and_then resolved.status (λ s. s.config_hash))
          (refuse internal_server_error "ResolvedCloudRoleBinding missing config hash in status\n")
    ensure (hash == req.config_hash) (
        refuse status_conflict (
          "config hash mismatch: client sent "
          <> (req.config_hash <> (", but resolved binding has " <> (hash <> "\n")))))
    ok aws

  unfoldable pub try_mint : Option String → Result Response Response
  unfolding authenticate authorize configuration new_claims
  try_mint header = do
    username ← authenticate header
    authorize username
    resolved ←
        map_err
          (λ e.
            refuse not_found
              ("no ResolvedCloudRoleBinding found for " <> (target <> (": " <> (e <> "\n")))))
          (ctx.get_resolved req.namespace req.service_account_name)
    aws ← configuration resolved
    token ←
        map_err (λ e. refuse internal_server_error ("failed to sign token: " <> (e <> "\n")))
          (ctx.sign (claims_for username aws resolved))
    ok (record {
      status = status_ok;
      body =
          json
            (record { aws = some (record { token = token; expires_in_seconds = token_ttl aws }) });
    })

  abbrev sent : Result Response Response → Response
  sent (ok r) = r
  sent (err r) = r

  unfoldable pub mint : Option String → Response
  unfolding try_mint
  mint header = sent (try_mint header)

-- The handler `rotate_keys`.
unfoldable pub rotate_keys : StatusCode
rotate_keys = not_implemented
