-- ===== src/Webhook/Admission/Tests.antt =====
-- admission.rs: requests to a webhook that knows one binding, and the theorems on them.
use kubernetes_identity_fede.Base.{
  ◌≡◌, ap, sym, ok-injective, refl, true, false, none, some, List, [], ◌∷◌, ok, if◌then◌else◌, ◌==◌,
  string_has_eq,
}
use kubernetes_identity_fede.Base.Signed.{pos}
use kubernetes_identity_fede.Api.Status.{
  ConditionStatus, is_true, is_false, ready, validated, ResolvedCloudRoleBinding,
  ResolvedCloudRoleBindingStatus,
}
use kubernetes_identity_fede.Webhook.Config.{WebhookConfig, fail}
use kubernetes_identity_fede.Webhook.Merge.Tests.{two_merged}
use kubernetes_identity_fede.Webhook.Mutate.{build_agent_container}
use kubernetes_identity_fede.Webhook.Mutate.Pod.{PodSpec}
use kubernetes_identity_fede.Webhook.Mutate.Pod.{Pod as KubePod}
use kubernetes_identity_fede.Webhook.Mutate.Tests.{plain_spec, mutated_spec}
use kubernetes_identity_fede.Webhook.Admission.{
  Operation, create, delete, AdmissionRequest, AdmissionResponse, PodEvent, allowed, Platform,
  handle,
}
use kubernetes_identity_fede.Webhook.Admission.Applied.{Applied, handle-Applied, handle_again}
use kubernetes_identity_fede.Webhook.Admission.Patching.{Patching}
use kubernetes_identity_fede.Webhook.Admission.Decision.{Decides, handle-Decides}

abbrev pub status : ConditionStatus → ResolvedCloudRoleBindingStatus
status is_so = record {
  providers = "aws";
  conditions =
      record {
        type = ready;
        status = is_so;
        observed_generation = pos 1;
        reason = validated;
        message = "resolved and validated";
        last_transition_time = 0;
      }
      ∷ [];
  sources = [];
  config_hash = some "hash";
  last_error = none;
}

abbrev pub binding : ConditionStatus → ResolvedCloudRoleBinding
binding is_so = record {
  metadata = record { name = some "test-sa"; namespace = some "default"; generation = none };
  spec = two_merged;
  status = some (status is_so);
}

-- A review is its request, and a patch the pod before and the pod after.
abbrev pub platform : ConditionStatus → Platform
platform is_so = record {
  Review = AdmissionRequest;
  Value = KubePod;
  Patch = KubePod × KubePod;
  try_into = λ review. ok review;
  get_opt = λ ns name. if name == "test-sa" then ok (some (binding is_so)) else ok none;
  to_value = λ pod. ok pod;
  diff = λ original modified. (original, modified);
  serialize_patch = λ patch. ok tt;
}

abbrev pub cfg : WebhookConfig
cfg = record {
  https_port = 9443;
  health_port = 5003;
  tls_cert_path = "/tls/tls.crt";
  tls_key_path = "/tls/tls.key";
  admission_failure_mode = fail;
  agent_image = "kif-agent:latest";
  agent_image_pull_policy = "IfNotPresent";
  agent_port = 5004;
  federation_url = "http://kif-federation:5001";
  reconcile_workers = 4;
}

abbrev pub pod : PodSpec → KubePod
pod spec = record {
  metadata = record { name = some "pod"; namespace = some "default"; generation = none };
  spec = some spec;
}

abbrev pub request : Operation → PodSpec → AdmissionRequest
request operation spec = record {
  operation = operation;
  object = some (pod spec);
  namespace = some "default";
}

abbrev pub answer : AdmissionResponse (KubePod × KubePod) × List PodEvent
answer =
    (record { allowed = true; reason = none; patch = some (pod plain_spec, pod mutated_spec) }, [])

patches : handle (platform is_true) cfg (request create plain_spec) ≡ ok answer
unfolding handle build_agent_container
patches = refl

denies :
    handle (platform is_false) cfg (request create plain_spec)
    ≡ ok (
      record {
        allowed = false;
        reason = some "ResolvedCloudRoleBinding not Ready for default/test-sa";
        patch = none;
      },
      [],
    )
unfolding handle
denies = refl

-- A ServiceAccount without a binding, a pod that has the agent, and a deletion are let through.
lets_through :
    (handle
        (platform is_false)
        cfg
        (request create (record plain_spec { service_account_name = none }))
      ≡ ok (allowed, []))
    × (handle (platform is_false) cfg (request create mutated_spec) ≡ ok (allowed, []))
    × (handle (platform is_false) cfg (request delete plain_spec) ≡ ok (allowed, []))
unfolding handle build_agent_container
lets_through = (refl, refl, refl)

handle-Decides_example : Decides (platform is_true) cfg (request create plain_spec) answer
handle-Decides_example =
    handle-Decides (platform is_true) cfg (request create plain_spec) answer patches

-- A patch is applied by taking the pod behind it.
abbrev pub patching : Patching (platform is_true)
patching = record {
  apply = λ (original, modified) v. some modified;
  from_value = λ pod. some pod;
  apply-diff = λ a b. refl;
  from_value-to_value = λ pod v e. ap some (sym (ok-injective e));
}

handle-Applied_example :
    Applied
      (platform is_true)
      cfg
      patching
      (request create plain_spec)
      (pod plain_spec, pod mutated_spec)
handle-Applied_example =
    handle-Applied (platform is_true) cfg patching (request create plain_spec) answer
      (pod plain_spec, pod mutated_spec) patches refl

handle_again_example :
    handle (platform is_true) cfg (request create mutated_spec) ≡ ok (allowed, [])
handle_again_example =
    handle_again (platform is_true) cfg patching (request create plain_spec)
      (request create mutated_spec) answer (pod plain_spec, pod mutated_spec) patches refl
      (request create mutated_spec) refl refl
