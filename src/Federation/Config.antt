-- ===== src/Federation/Config.antt =====
-- app/crates/kif-federation/src/config.rs: the start of the service, from the environment to the
-- signing key; and the probe of http.rs. Parsing an issuer URL is an argument.
use kubernetes_identity_fede.Base.{ℕ, String, Result, ok, ok_or, map_err, unwrap_or}
use kubernetes_identity_fede.Base.Calls.{Calls, ◌>>=◌, lift}
use kubernetes_identity_fede.Base.Parse.{Env, uint_or, u16_mod}
use kubernetes_identity_fede.Api.Shared.{pod_namespace}
use kubernetes_identity_fede.Federation.Claims.{Crypto, SigningMaterial}
use kubernetes_identity_fede.Federation.Keys.{Server, ensure_signing_and_jwks}
use kubernetes_identity_fede.Federation.Mint.{StatusCode, status_ok}

pub record AppState (IssuerUrl : Type 0) : Type 0 where
  pub issuer_url : IssuerUrl
  pub port : ℕ
  pub signing : SigningMaterial

-- What stands around `from_env`: the files, the URLs, and the API server of a namespace.
pub record Startup : Type 1 where
  pub IssuerUrl : Type 0
  pub issuer_url : String → Result IssuerUrl String
  pub read_to_string : String → Result String String
  pub server : Server
  pub crypto : Crypto
  -- `Client::try_default`
  pub try_default : Result (Unit {0}) String

-- A failing call gets the message of its context.
abbrev context : {S A : Type 0} → String → Calls S A → Calls S A
context message m s = let (r, s') = m s in (map_err (λ e. message) r, s')

abbrev pub signing_secret_name : Env → String
signing_secret_name env = unwrap_or (env "SIGNING_SECRET_NAME") "kif-signing"

abbrev pub jwks_secret_name : Env → String
jwks_secret_name env = unwrap_or (env "JWKS_SECRET_NAME") "kif-jwks"

module _ (startup : Startup) (env : Env) where
  open startup use {IssuerUrl, issuer_url, read_to_string, server, crypto, try_default}

  unfoldable pub from_env : Calls server.State (AppState IssuerUrl)
  unfolding uint_or pod_namespace ensure_signing_and_jwks
  from_env = do
    text ← lift (ok_or (env "ISSUER_URL") "ISSUER_URL is required")
    url ← lift (map_err (λ e. "invalid ISSUER_URL") (issuer_url text))
    namespace ← lift (pod_namespace read_to_string)
    client ← lift try_default
    material ←
        context "failed to ensure signing/jwks secrets"
          (ensure_signing_and_jwks server crypto (signing_secret_name env) (jwks_secret_name env))
    lift (
        ok
          (record { issuer_url = url; port = uint_or env u16_mod "PORT" 5001; signing = material }))

unfoldable pub livez : StatusCode
livez = status_ok
