-- ===== src/Webhook/Mutate/Tests.antt =====
-- mutate.rs: a pod with two containers, and the theorems on it.
use kubernetes_identity_fede.Base.{
  String, ◌≡◌, ◌↔◌, refl, false, Option, none, some, List, [], ◌∷◌, ok,
}
use kubernetes_identity_fede.Webhook.Merge.Tests.{test_aws}
use kubernetes_identity_fede.Webhook.Mutate.Pod.{EnvVar, Container, PodSpec}
use kubernetes_identity_fede.Webhook.Mutate.{
  injected, inject_env, mutate_spec, env_value, build_agent_container, token_volume, aws_volume,
}
use kubernetes_identity_fede.Webhook.Mutate.Env.{NodupNames}
use kubernetes_identity_fede.Webhook.Mutate.Inject.{HasRole}
use kubernetes_identity_fede.Webhook.Mutate.Injection.{
  IsMutated, mutate_spec-IsMutated, mutate_spec-HasRole_iff,
}

abbrev pub own_env : List EnvVar
own_env = env_value "AWS_REGION" "us-east-1" ∷ env_value "LOG" "debug" ∷ []

abbrev pub container : String → Option (List EnvVar) → Container
container name env = record {
  name = name;
  image = some "img";
  image_pull_policy = none;
  restart_policy = none;
  startup_probe = none;
  env = env;
  volume_mounts = none;
}

abbrev pub agent : Container
agent =
    build_agent_container "kif-agent:latest" "IfNotPresent" 5004 "http://kif-federation:5001"
      "test-sa" "hash"

abbrev pub plain_spec : PodSpec
plain_spec = record {
  automount_service_account_token = none;
  volumes = none;
  init_containers = some (container "setup" none ∷ []);
  containers = container "app" (some own_env) ∷ container "sidecar" none ∷ [];
  service_account_name = some "test-sa";
}

abbrev pub mutated_spec : PodSpec
mutated_spec = record {
  automount_service_account_token = some false;
  volumes = some (token_volume ∷ aws_volume ∷ []);
  init_containers = some (agent ∷ injected test_aws (container "setup" none) ∷ []);
  containers =
      injected test_aws (container "app" (some own_env))
      ∷ injected test_aws (container "sidecar" none)
      ∷ [];
  service_account_name = some "test-sa";
}

plain_spec-mutates : mutate_spec agent test_aws plain_spec ≡ ok mutated_spec
unfolding mutate_spec build_agent_container
plain_spec-mutates = refl

-- The pod's own region is overwritten where it stands, the other variables come behind its own.
own_env-injected :
    inject_env test_aws own_env
    ≡ env_value "AWS_REGION" "eu-west-1"
      ∷ env_value "LOG" "debug"
      ∷ env_value "AWS_ROLE_ARN" "arn:aws:iam::123:role/test"
      ∷ env_value "AWS_WEB_IDENTITY_TOKEN_FILE" "/var/run/kif/aws/token"
      ∷ env_value "AWS_DEFAULT_REGION" "eu-west-1"
      ∷ env_value "AWS_STS_REGIONAL_ENDPOINTS" "regional"
      ∷ []
unfolding inject_env
own_env-injected = refl

agent-named : agent.name ≡ "kif-agent"
unfolding build_agent_container
agent-named = refl

own_env-NodupNames : NodupNames own_env
own_env-NodupNames = (refl, (refl, tt))

mutate_spec-IsMutated_example : IsMutated agent test_aws plain_spec mutated_spec
mutate_spec-IsMutated_example =
    mutate_spec-IsMutated agent test_aws plain_spec mutated_spec agent-named plain_spec-mutates

plain_spec-named :
    plain_spec.containers ≡ container "app" (some own_env) ∷ container "sidecar" none ∷ []
plain_spec-named = refl

mutate_spec-HasRole_iff_example :
    ((spec' : PodSpec) × (mutate_spec agent test_aws plain_spec ≡ ok spec')) ↔ HasRole test_aws
mutate_spec-HasRole_iff_example =
    mutate_spec-HasRole_iff agent test_aws plain_spec (container "app" (some own_env))
      (container "sidecar" none ∷ []) agent-named plain_spec-named
