-- ===== src/Issuer/Config.antt =====
-- app/crates/kif-issuer/src/config.rs. The environment is a function, and parsing an issuer URL an
-- argument.
use kubernetes_identity_fede.Base.{
  ℕ, String, Bool, true, false, Option, none, some, Result, ok, ◌>>=◌, ok_or, map_err, unwrap_or,
  and_then, if◌then◌else◌, ◌==◌, string_has_eq,
}
use kubernetes_identity_fede.Base.Parse.{Env, uint_or, u16_mod}

pub record IssuerConfig (IssuerUrl : Type 0) : Type 0 where
  pub issuer_url : IssuerUrl
  pub running_in_cluster : Bool
  pub port : ℕ
  pub jwks_secret_name : String
  pub jwks_file_path : String

-- `str::parse::<bool>`
abbrev parse_bool : String → Option Bool
parse_bool s = if s == "true" then some true else if s == "false" then some false else none

unfoldable pub from_env :
    {IssuerUrl : Type 0}
    → (String → Result IssuerUrl String)
    → Env
    → Result (IssuerConfig IssuerUrl) String
unfolding uint_or
from_env issuer_url env = do
  text ← ok_or (env "ISSUER_URL") "ISSUER_URL is required"
  url ← map_err (λ e. "invalid ISSUER_URL") (issuer_url text)
  jwks_file_path ← ok_or (env "JWKS_FILE_PATH") "JWKS_FILE_PATH is required"
  ok (record {
    issuer_url = url;
    running_in_cluster = unwrap_or (and_then (env "RUNNING_IN_CLUSTER") parse_bool) false;
    port = uint_or env u16_mod "PORT" 5002;
    jwks_secret_name = unwrap_or (env "JWKS_SECRET_NAME") "kif-jwks";
    jwks_file_path = jwks_file_path;
  })
