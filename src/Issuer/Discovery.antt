-- ===== src/Issuer/Discovery.antt =====
-- app/crates/kif-issuer/src/http.rs: `openid_discovery_doc`. The parsers of openidconnect's URLs and
-- the serializer are arguments.
use kubernetes_identity_fede.Base.{String, ◌<>◌, some, Result, ok, err}
use kubernetes_identity_fede.Federation.Mint.{status_ok, internal_server_error}
use kubernetes_identity_fede.Issuer.Serve.{Reply, bare}

-- The types of openidconnect; `show` prints an issuer URL.
pub record Oidc : Type 1 where
  pub IssuerUrl : Type 0
  pub AuthUrl : Type 0
  pub JsonWebKeySetUrl : Type 0
  pub show : IssuerUrl → String
  pub auth_url : String → Result AuthUrl String
  pub jwks_url : String → Result JsonWebKeySetUrl String

-- `CoreProviderMetadata::new`, whose further arguments are constant: the response type `id_token`, the
-- subject type `pairwise`, and the algorithm `RS256`.
pub record Metadata (oidc : Oidc) : Type 0 where
  pub issuer : oidc.IssuerUrl
  pub authorization_endpoint : oidc.AuthUrl
  pub jwks_uri : oidc.JsonWebKeySetUrl

module _ (oidc : Oidc) (to_json : Metadata oidc → String) (issuer_url : oidc.IssuerUrl) where
  abbrev pub described : oidc.AuthUrl → oidc.JsonWebKeySetUrl → Reply
  described auth jwks = record {
    status = status_ok;
    cache_control = some "public, max-age=3600";
    body =
        some (
          to_json (record { issuer = issuer_url; authorization_endpoint = auth; jwks_uri = jwks }));
  }

  abbrev with_auth : Result oidc.AuthUrl String → Result oidc.JsonWebKeySetUrl String → Reply
  with_auth (err e) jwks = bare internal_server_error
  with_auth (ok auth) (err e) = bare internal_server_error
  with_auth (ok auth) (ok jwks) = described auth jwks

  unfoldable pub openid_discovery_doc : Reply
  openid_discovery_doc =
      with_auth (oidc.auth_url (oidc.show issuer_url <> "/authorize"))
        (oidc.jwks_url (oidc.show issuer_url <> "/jwks.json"))
