-- ===== src/Agent/Config.antt =====
-- app/crates/kif-agent/src/config.rs, and the probes of app/crates/kif-agent/src/http.rs.
use kubernetes_identity_fede.Base.{
  ℕ, String, Bool, Option, Result, ◌>>=◌, ok, ok_or, unwrap_or, if◌then◌else◌,
}
use kubernetes_identity_fede.Base.Parse.{Env, uint_or, u16_mod, u64_mod}
use kubernetes_identity_fede.Api.Shared.{pod_namespace}
use kubernetes_identity_fede.Federation.Mint.{StatusCode, status_ok, service_unavailable}

pub record AgentConfig : Type 0 where
  pub port : ℕ
  pub federation_url : String
  pub service_account_name : String
  pub config_hash : String
  pub namespace : String
  pub pod_name : Option String
  pub sa_token_path : String
  pub aws_token_path : String
  pub refresh_skew_seconds : ℕ
  pub min_refresh_seconds : ℕ
  pub max_jitter_seconds : ℕ

unfoldable pub from_env : (String → Result String String) → Env → Result AgentConfig String
unfolding uint_or pod_namespace
from_env read_to_string env = do
  service_account_name ← ok_or (env "SERVICE_ACCOUNT_NAME") "SERVICE_ACCOUNT_NAME is required"
  config_hash ← ok_or (env "CONFIG_HASH") "CONFIG_HASH is required"
  namespace ← pod_namespace read_to_string
  ok (record {
    port = uint_or env u16_mod "PORT" 5004;
    federation_url = unwrap_or (env "FEDERATION_URL") "http://kif-federation:5001";
    service_account_name = service_account_name;
    config_hash = config_hash;
    namespace = namespace;
    pod_name = env "POD_NAME";
    sa_token_path =
        unwrap_or (env "SA_TOKEN_PATH") "/var/run/secrets/kubernetes.io/serviceaccount/token";
    aws_token_path = unwrap_or (env "AWS_TOKEN_PATH") "/var/run/kif/aws/token";
    refresh_skew_seconds = uint_or env u64_mod "REFRESH_SKEW_SECONDS" 300;
    min_refresh_seconds = uint_or env u64_mod "MIN_REFRESH_SECONDS" 30;
    max_jitter_seconds = uint_or env u64_mod "MAX_JITTER_SECONDS" 60;
  })

-- The probes, with the flag `ready`.
unfoldable pub livez : StatusCode
livez = status_ok

unfoldable pub startupz : Bool → StatusCode
startupz ready = if ready then status_ok else service_unavailable
