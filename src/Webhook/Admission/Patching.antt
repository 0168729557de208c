-- ===== src/Webhook/Admission/Patching.antt =====
-- admission.rs and mutate.rs: what the API server makes of the patch of `build_pod_patch`. The patch
-- format is that of json_patch.
use kubernetes_identity_fede.Base.{
  String, ◌≡◌, refl, sym, ap, ◌∙◌, Option, some, ok, and_then, to_option, ok_or, >>=-eq-ok,
  ok_or-eq-ok, ok-injective, string_has_eq,
}
use kubernetes_identity_fede.Api.Bindings.{AwsProviderSpec}
use kubernetes_identity_fede.Webhook.Config.{WebhookConfig}
use kubernetes_identity_fede.Webhook.Mutate.Pod.{Container, Pod, PodSpec}
use kubernetes_identity_fede.Webhook.Mutate.{build_agent_container, mutate_spec, build_pod_patch}
use kubernetes_identity_fede.Webhook.Admission.{Platform}

-- What serde and json_patch promise: a value is read back as the pod that it was made of, and the
-- difference of two values makes the second of the first.
pub record Patching (platform : Platform) : Type 0 where
  pub apply : platform.Patch → platform.Value → Option platform.Value
  pub from_value : platform.Value → Option Pod
  pub apply-diff : (a b : platform.Value) → apply (platform.diff a b) a ≡ some b
  pub from_value-to_value :
      (pod : Pod) (v : platform.Value) → platform.to_value pod ≡ ok v → from_value v ≡ some pod

module _ (platform : Platform) (cfg : WebhookConfig) (patching : Patching platform) where
  open platform use {Review, Value, Patch, try_into, to_value, diff}

  -- The agent of the webhook's configuration.
  abbrev pub agent_of : String → String → Container
  agent_of =
      build_agent_container cfg.agent_image cfg.agent_image_pull_policy cfg.agent_port
        cfg.federation_url

  -- The pod with the patch.
  abbrev pub patched_pod : Patch → Pod → Option Pod
  patched_pod patch pod =
      and_then (to_option (to_value pod)) λ v. and_then (patching.apply patch v) patching.from_value

  -- What building a patch has done, and what the API server makes of it.
  pub record Built (pod : Pod) (agent : Container) (aws : AwsProviderSpec) (patch : Patch)
      : Type 0 where
    pub spec : PodSpec
    pub spec' : PodSpec
    pub had : pod.spec ≡ some spec
    pub changed : mutate_spec agent aws spec ≡ ok spec'
    pub applied : patched_pod patch pod ≡ some (record pod { spec = some spec' })

  pub build_pod_patch-Built :
      (pod : Pod) (sa_name hash : String) (aws : AwsProviderSpec) (patch : Patch)
      → build_pod_patch to_value diff pod cfg.agent_image cfg.agent_image_pull_policy cfg.agent_port
          cfg.federation_url sa_name hash aws
        ≡ ok patch
      → Built pod (agent_of sa_name hash) aws patch
  unfolding build_pod_patch
  build_pod_patch-Built pod sa_name hash aws patch h =
      let (original, before, h₁) = >>=-eq-ok (to_value pod) _ h in
      let (spec, had, h₂) = >>=-eq-ok (ok_or pod.spec "pod.spec missing") _ h₁ in
      let (spec', changed, h₃) = >>=-eq-ok (mutate_spec (agent_of sa_name hash) aws spec) _ h₂ in
      let after : Pod = record pod { spec = some spec' } in
      let (modified, behind, h₄) = >>=-eq-ok (to_value after) _ h₃ in
      record {
        spec = spec;
        spec' = spec';
        had = ok_or-eq-ok pod.spec _ had;
        changed = changed;
        applied =
            ap
              (λ r.
                and_then (to_option r) λ v. and_then (patching.apply patch v) patching.from_value)
              before
            ∙ ap (λ p. and_then (patching.apply p original) patching.from_value)
                (sym (ok-injective h₄))
            ∙ ap (λ o. and_then o patching.from_value) (patching.apply-diff original modified)
            ∙ patching.from_value-to_value after modified behind;
      }

  pub agent_of-named : (sa_name hash : String) → (agent_of sa_name hash).name ≡ "kif-agent"
  unfolding build_agent_container
  agent_of-named sa_name hash = refl
