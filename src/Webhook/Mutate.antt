-- ===== src/Webhook/Mutate.antt =====
-- app/crates/kif-webhook/src/mutate.rs: the agent, the volumes and the AWS settings that the webhook
-- puts into a pod. `serde_json::to_value` and `json_patch::diff` are arguments.
pub mod Pod
pub mod Env
pub mod Inject
pub mod Injection
pub mod Tests
use kubernetes_identity_fede.Base.{
  ℕ, String, Bool, true, false, not, ◌||◌, Option, none, some, List, [], ◌∷◌, ◌++◌, Result, ok,
  ◌>>=◌, ◌>>◌, ensure, ok_or, any, or_nil, if◌then◌else◌, ◌==◌, string_has_eq,
}
use kubernetes_identity_fede.Base.Text.{trim, is_empty}
use kubernetes_identity_fede.Base.Decimal.{to_string}
use kubernetes_identity_fede.Api.Bindings.{AwsProviderSpec}
use Pod.{
  ObjectFieldSelector, EnvVarSource, EnvVar, VolumeMount, Container, VolumeProjection,
  service_account_token, downward_api, config_map, EmptyDirVolumeSource, default_dir, Volume,
  PodSpec,
}
use Pod.{Pod as KubePod}

abbrev pub has_named : String → List Container → Bool
has_named name cs = any (λ c. c.name == name) cs

unfoldable pub pod_has_container : KubePod → String → Bool
pod_has_container pod name = elim pod.spec [
  | none ↦ false
  | some spec ↦ has_named name spec.containers || has_named name (or_nil spec.init_containers)
]

abbrev pub token_volume : Volume
token_volume = record {
  name = "kif-sa-token";
  projected = some (record {
    sources = some (
        service_account_token "token" none none
        ∷ downward_api "namespace"
            (record { api_version = some "v1"; field_path = "metadata.namespace" })
        ∷ config_map "kube-root-ca.crt" "ca.crt" "ca.crt" false
        ∷ []);
  });
  empty_dir = none;
}

abbrev pub aws_volume : Volume
aws_volume = record { name = "kif-aws"; projected = none; empty_dir = some default_dir }

-- Both functions below return `Ok(())` on every path, so they are modelled without the `Result`.
unfoldable pub ensure_sa_projected_token_volume : List Volume → List Volume
ensure_sa_projected_token_volume volumes =
    if any (λ v. v.name == "kif-sa-token") volumes then volumes else volumes ++ (token_volume ∷ [])

unfoldable pub ensure_aws_emptydir_volume : List Volume → List Volume
ensure_aws_emptydir_volume volumes =
    if any (λ v. v.name == "kif-aws") volumes then volumes else volumes ++ (aws_volume ∷ [])

abbrev pub env_value : String → String → EnvVar
env_value name value = record { name = name; value = some value; value_from = none }

-- Never fails in the source, so it is modelled without the `Result`.
unfoldable pub build_agent_container : String → String → ℕ → String → String → String → Container
unfolding to_string
build_agent_container agent_image agent_image_pull_policy agent_port federation_url
      service_account_name config_hash =
    record {
      name = "kif-agent";
      image = some agent_image;
      image_pull_policy = some agent_image_pull_policy;
      restart_policy = some "Always";
      startup_probe = some (record {
        http_get = some (record { path = some "/startupz"; port = agent_port });
        failure_threshold = some 30;
        period_seconds = some 10;
      });
      env = some (
          env_value "SERVICE_ACCOUNT_NAME" service_account_name
          ∷ env_value "CONFIG_HASH" config_hash
          ∷ env_value "FEDERATION_URL" federation_url
          ∷ env_value "PORT" (to_string agent_port)
          ∷ record {
            name = "POD_NAME";
            value = none;
            value_from = some (record {
              field_ref = some (record { field_path = "metadata.name"; api_version = some "v1" });
            });
          }
          ∷ []);
      volume_mounts = some (
          record {
            name = "kif-sa-token";
            mount_path = "/var/run/secrets/kubernetes.io/serviceaccount";
            read_only = some true;
          }
          ∷ record { name = "kif-aws"; mount_path = "/var/run/kif/aws"; read_only = some false }
          ∷ []);
    }

-- The first variable of the name is overwritten; a new one goes to the end.
unfoldable pub upsert_env : String → String → List EnvVar → List EnvVar
upsert_env name value [] = env_value name value ∷ []
upsert_env name value (e ∷ env) =
    let rest = upsert_env name value env in
    if e.name == name then record e { value = some value; value_from = none } ∷ env else e ∷ rest

unfoldable pub ensure_mount : List VolumeMount → List VolumeMount
ensure_mount vms =
    if any (λ m. m.name == "kif-aws") vms
    then vms
    else vms
      ++ (record { name = "kif-aws"; mount_path = "/var/run/kif/aws"; read_only = some true } ∷ [])

abbrev upsert_region : Option String → List EnvVar → List EnvVar
upsert_region none env = env
upsert_region (some region) env =
    upsert_env "AWS_DEFAULT_REGION" region (upsert_env "AWS_REGION" region env)

abbrev upsert_sts : Bool → List EnvVar → List EnvVar
upsert_sts true env = upsert_env "AWS_STS_REGIONAL_ENDPOINTS" "regional" env
upsert_sts false env = env

unfoldable pub inject_env : AwsProviderSpec → List EnvVar → List EnvVar
unfolding upsert_env
inject_env aws env = upsert_sts aws.sts_regional_endpoints (
    upsert_region aws.region (
      upsert_env "AWS_WEB_IDENTITY_TOKEN_FILE" "/var/run/kif/aws/token"
        (upsert_env "AWS_ROLE_ARN" aws.role_arn env)))

abbrev injected : AwsProviderSpec → Container → Container
injected aws c = record c {
  env = some (inject_env aws (or_nil c.env));
  volume_mounts = some (ensure_mount (or_nil c.volume_mounts));
}

unfoldable pub inject_aws_into_app_container : Container → AwsProviderSpec → Result Container String
unfolding inject_env ensure_mount trim
inject_aws_into_app_container c aws = do
  ensure (not (is_empty (trim aws.role_arn))) "aws.role_arn is empty in resolved binding"
  ok (injected aws c)

-- The loop over the init containers, which leaves out the agent.
unfoldable pub inject_init : AwsProviderSpec → List Container → Result (List Container) String
unfolding inject_aws_into_app_container
inject_init aws [] = ok []
inject_init aws (c ∷ cs) = do
  c' ← if c.name == "kif-agent" then ok c else inject_aws_into_app_container c aws
  cs' ← inject_init aws cs
  ok (c' ∷ cs')

-- The loop over the main containers.
unfoldable pub inject_main : AwsProviderSpec → List Container → Result (List Container) String
unfolding inject_aws_into_app_container
inject_main aws [] = ok []
inject_main aws (c ∷ cs) = do
  c' ← inject_aws_into_app_container c aws
  cs' ← inject_main aws cs
  ok (c' ∷ cs')

abbrev with_volumes : List Volume → List Volume
with_volumes volumes = ensure_aws_emptydir_volume (ensure_sa_projected_token_volume volumes)

-- The changes that `build_pod_patch` makes to the pod's spec.
unfoldable pub mutate_spec : Container → AwsProviderSpec → PodSpec → Result PodSpec String
unfolding inject_init inject_main ensure_sa_projected_token_volume ensure_aws_emptydir_volume
mutate_spec agent aws spec = do
  init_containers ← inject_init aws (agent ∷ or_nil spec.init_containers)
  containers ← inject_main aws spec.containers
  ok (record spec {
    automount_service_account_token = some false;
    volumes = some (with_volumes (or_nil spec.volumes));
    init_containers = some init_containers;
    containers = containers;
  })

module _ {Value Patch : Type 0} (to_value : KubePod → Result Value String)
    (diff : Value → Value → Patch) where
  unfoldable pub build_pod_patch :
      KubePod
      → String
      → String
      → ℕ
      → String
      → String
      → String
      → AwsProviderSpec
      → Result Patch String
  unfolding mutate_spec build_agent_container
  build_pod_patch pod agent_image agent_image_pull_policy agent_port federation_url
        service_account_name config_hash aws =
      do
        original ← to_value pod
        spec ← ok_or pod.spec "pod.spec missing"
        spec' ←
            mutate_spec
              (build_agent_container agent_image agent_image_pull_policy agent_port federation_url
                service_account_name config_hash)
              aws spec
        modified ← to_value (record pod { spec = some spec' })
        ok (diff original modified)
