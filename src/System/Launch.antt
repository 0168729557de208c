-- ===== src/System/Launch.antt =====
-- app/crates/kif-webhook/src/mutate.rs and app/crates/kif-agent/src/config.rs: the agent reads back
-- what the webhook has written into its container. The kubelet stands between the two.
use kubernetes_identity_fede.Base.{
  ℕ, ◌<◌, String, ◌≡◌, refl, none, some, ok, Result, or_nil, false, All, List, [], ◌∷◌,
}
use kubernetes_identity_fede.Base.Parse.{Env, u16_mod}
use kubernetes_identity_fede.Base.RoundTrip.{parse_uint-to_string}
use kubernetes_identity_fede.Base.Decimal.{to_string}
use kubernetes_identity_fede.Base.Text.{trim, is_empty}
use kubernetes_identity_fede.Api.Shared.{namespace_path, pod_namespace}
use kubernetes_identity_fede.Webhook.Mutate.Pod.{EnvVar, Container}
use kubernetes_identity_fede.Webhook.Mutate.{env_value, build_agent_container}
use kubernetes_identity_fede.Webhook.Mutate.Env.{find_env}
use kubernetes_identity_fede.Agent.Config.{AgentConfig, from_env}

-- A variable that names a field of the pod.
abbrev field_env : String → String → EnvVar
field_env name field_path = record {
  name = name;
  value = none;
  value_from =
      some
        (record { field_ref = some (record { field_path = field_path; api_version = some "v1" }) });
}

-- The arguments that the webhook builds an agent from, and what the cluster knows of the pod.
pub record Deployed : Type 0 where
  pub agent_image : String
  pub agent_image_pull_policy : String
  pub agent_port : ℕ
  pub federation_url : String
  pub service_account_name : String
  pub config_hash : String
  pub pod_name : String
  pub namespace : String

abbrev pub agent : Deployed → Container
agent d =
    build_agent_container d.agent_image d.agent_image_pull_policy d.agent_port d.federation_url
      d.service_account_name d.config_hash

-- The settings that the webhook leaves to the agent's defaults.
abbrev pub defaulted : List String
defaulted =
    "SA_TOKEN_PATH" ∷ "AWS_TOKEN_PATH" ∷ "REFRESH_SKEW_SECONDS" ∷ "MIN_REFRESH_SECONDS"
    ∷ "MAX_JITTER_SECONDS" ∷ []

-- What the kubelet does for the agent's container: a variable of the container has its value, in
-- which no `$(...)` is left to expand, whatever else the kubelet and the image set, and neither of them sets one of the agent's other settings.
pub record IsStarted (d : Deployed) (env : Env) (read_to_string : String → Result String String)
    : Type 0 where
  pub values :
      (name value : String)
      → find_env name (or_nil (agent d).env) ≡ some (env_value name value)
      → env name ≡ some value
  pub fields :
      (name : String)
      → find_env name (or_nil (agent d).env) ≡ some (field_env name "metadata.name")
      → env name ≡ some d.pod_name
  pub unset : All (λ name. env name ≡ none) defaulted
  pub projected : read_to_string namespace_path ≡ ok d.namespace

pod_namespace-ok :
    (read_to_string : String → Result String String) {text : String}
    → read_to_string namespace_path ≡ ok text
    → is_empty (trim text) ≡ false
    → pod_namespace read_to_string ≡ ok (trim text)
unfolding pod_namespace
pod_namespace-ok read_to_string h k = rw (h, pod_namespace) (rw k refl)

-- What the agent is told.
abbrev pub told : Deployed → AgentConfig
told d = record {
  port = d.agent_port;
  federation_url = d.federation_url;
  service_account_name = d.service_account_name;
  config_hash = d.config_hash;
  namespace = trim d.namespace;
  pod_name = some d.pod_name;
  sa_token_path = "/var/run/secrets/kubernetes.io/serviceaccount/token";
  aws_token_path = "/var/run/kif/aws/token";
  refresh_skew_seconds = 300;
  min_refresh_seconds = 30;
  max_jitter_seconds = 60;
}

-- An agent that is started in the container that the webhook builds for it, with none of its other
-- settings in its environment, with a port below 2^16 and in a namespace that is not blank, reads
-- back the webhook's settings as its configuration.
pub from_env-agent :
    (d : Deployed) {env : Env} {read_to_string : String → Result String String}
    → d.agent_port < u16_mod
    → is_empty (trim d.namespace) ≡ false
    → IsStarted d env read_to_string
    → from_env read_to_string env ≡ ok (told d)
unfolding from_env build_agent_container
from_env-agent d {env} {read_to_string} bound named s =
    let sa = s.values "SERVICE_ACCOUNT_NAME" d.service_account_name refl in
    let config_hash = s.values "CONFIG_HASH" d.config_hash refl in
    let federation = s.values "FEDERATION_URL" d.federation_url refl in
    let port_text = s.values "PORT" (to_string d.agent_port) refl in
    let pod = s.fields "POD_NAME" refl in
    let (sa_token, (aws_token, (skew, (min, (jitter, _))))) = s.unset in
    let parsed = parse_uint-to_string u16_mod d.agent_port bound in
    let ns = pod_namespace-ok read_to_string s.projected named in
    rw
      (
        sa, config_hash, ns, federation, port_text, pod, sa_token, aws_token, skew, min, jitter,
        parsed,
      )
      refl
