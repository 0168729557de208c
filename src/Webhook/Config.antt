-- ===== src/Webhook/Config.antt =====
-- app/crates/kif-webhook/src/config.rs. The environment is a function; `str::to_lowercase`, whose
-- tables are Unicode's, is an argument.
pub mod Bounds
use kubernetes_identity_fede.Base.{
  ℕ, String, ◌<>◌, Result, ok, err, ◌>>=◌, unwrap_or, if◌then◌else◌, ◌==◌, string_has_eq,
}
use kubernetes_identity_fede.Base.Parse.{Env, uint_or, u16_mod, u64_mod}

pub data AdmissionFailureMode : Type 0 where
  fail ignore : AdmissionFailureMode

pub record WebhookConfig : Type 0 where
  pub https_port : ℕ
  pub health_port : ℕ
  pub tls_cert_path : String
  pub tls_key_path : String
  pub admission_failure_mode : AdmissionFailureMode
  pub agent_image : String
  pub agent_image_pull_policy : String
  pub agent_port : ℕ
  pub federation_url : String
  pub reconcile_workers : ℕ

module _ (to_lowercase : String → String) (env : Env) where
  unfoldable pub failure_mode : Result AdmissionFailureMode String
  failure_mode =
      let v = to_lowercase (unwrap_or (env "ADMISSION_FAILURE_MODE") "fail") in
      if v == "fail"
      then ok fail
      else if v == "ignore"
      then ok ignore
      else err ("invalid ADMISSION_FAILURE_MODE: " <> (v <> " (expected Fail|Ignore)"))

  unfoldable pub from_env : Result WebhookConfig String
  unfolding failure_mode uint_or
  from_env = do
    mode ← failure_mode
    ok (record {
      https_port = uint_or env u16_mod "HTTPS_PORT" 9443;
      health_port = uint_or env u16_mod "HEALTH_PORT" 5003;
      tls_cert_path = unwrap_or (env "TLS_CERT_PATH") "/tls/tls.crt";
      tls_key_path = unwrap_or (env "TLS_KEY_PATH") "/tls/tls.key";
      admission_failure_mode = mode;
      agent_image =
          unwrap_or (env "AGENT_IMAGE")
            ("kif-agent:" <> unwrap_or (env "AGENT_IMAGE_TAG") "latest");
      agent_image_pull_policy = unwrap_or (env "AGENT_IMAGE_PULL_POLICY") "IfNotPresent";
      agent_port = uint_or env u16_mod "AGENT_PORT" 5004;
      federation_url =
          unwrap_or (env "FEDERATION_SERVICE_HOST") "http://kif-federation"
          <> (":" <> unwrap_or (env "FEDERATION_SERVICE_PORT") "5001");
      reconcile_workers = uint_or env u64_mod "RECONCILE_WORKERS" 4;
    })
