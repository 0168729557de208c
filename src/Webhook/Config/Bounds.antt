-- ===== src/Webhook/Config/Bounds.antt =====
-- config.rs: what a configuration that is accepted holds.
use kubernetes_identity_fede.Base.{◌<◌, String, ◌≡◌, subst, ok, ok-injective, >>=-eq-ok, arith}
use kubernetes_identity_fede.Base.Parse.{Env, u16_mod, u64_mod}
use kubernetes_identity_fede.Base.Bounds.{uint_or-lt}
use kubernetes_identity_fede.Webhook.Config.{WebhookConfig, failure_mode, from_env}

-- The ports are ports, and the number of workers fits into its type.
pub record IsBounded (cfg : WebhookConfig) : Type 0 where
  pub https_port : cfg.https_port < u16_mod
  pub health_port : cfg.health_port < u16_mod
  pub agent_port : cfg.agent_port < u16_mod
  pub reconcile_workers : cfg.reconcile_workers < u64_mod

pub from_env-IsBounded :
    (to_lowercase : String → String) (env : Env) {cfg : WebhookConfig}
    → from_env to_lowercase env ≡ ok cfg
    → IsBounded cfg
unfolding from_env
from_env-IsBounded to_lowercase env h =
    let (mode, chosen, built) = >>=-eq-ok (failure_mode to_lowercase env) _ h in
    subst IsBounded (ok-injective built) (record {
      https_port = uint_or-lt u16_mod 9443 (omega arith) env "HTTPS_PORT";
      health_port = uint_or-lt u16_mod 5003 (omega arith) env "HEALTH_PORT";
      agent_port = uint_or-lt u16_mod 5004 (omega arith) env "AGENT_PORT";
      reconcile_workers = uint_or-lt u64_mod 4 (omega arith) env "RECONCILE_WORKERS";
    })
