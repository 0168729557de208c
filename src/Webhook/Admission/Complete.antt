-- ===== src/Webhook/Admission/Complete.antt =====
-- admission.rs and mutate.rs: what the handler does with a pod that has a binding, without an error.
use kubernetes_identity_fede.Base.{
  String, ◌<>◌, ◌≡◌, refl, ap, ◌∙◌, inl, inr, true, false, none, some, List, [], ◌∷◌, ok, unwrap_or,
  and_then, Bool-cases,
}
use kubernetes_identity_fede.Api.Bindings.{AwsProviderSpec}
use kubernetes_identity_fede.Api.Status.{ResolvedCloudRoleBinding}
use kubernetes_identity_fede.Webhook.Config.{WebhookConfig}
use kubernetes_identity_fede.Webhook.Mutate.Pod.{Container, Pod, PodSpec}
use kubernetes_identity_fede.Webhook.Mutate.{
  pod_has_container, build_pod_patch, build_agent_container,
}
use kubernetes_identity_fede.Webhook.Mutate.Inject.{HasRole}
use kubernetes_identity_fede.Webhook.Mutate.Injection.{mutate_spec-HasRole_iff}
use kubernetes_identity_fede.Webhook.Admission.{
  Platform, AdmissionRequest, create, is_ready, fail_or_skip, inject, admit_bound, look_up,
  admit_create, handle,
}
use kubernetes_identity_fede.Webhook.Admission.Ready.{IsReady, is_ready_iff}
use kubernetes_identity_fede.Webhook.Queue.{Key}

module _ (platform : Platform) where
  open platform use {Review, Value, Patch, try_into, to_value, serialize_patch}

  -- What the webhook writes is written.
  pub record Serializes : Type 0 where
    pub values : (pod : Pod) → (v : Value) × (to_value pod ≡ ok v)
    pub patches : (patch : Patch) → serialize_patch patch ≡ ok tt

  -- A pod of the key's ServiceAccount is created. It has a main container and no agent yet.
  pub record Comes (review : Review) (key : Key) : Type 0 where
    pub req : AdmissionRequest
    pub pod : Pod
    pub spec : PodSpec
    pub first : Container
    pub others : List Container
    pub asked : try_into review ≡ ok req
    pub creates : req.operation ≡ create
    pub given : req.object ≡ some pod
    pub had : pod.spec ≡ some spec
    pub runs : spec.containers ≡ first ∷ others
    pub agentless : pod_has_container pod "kif-agent" ≡ false
    pub namespace : unwrap_or req.namespace "default" ≡ key.namespace
    pub account :
        unwrap_or (and_then pod.spec (λ s. s.service_account_name)) "default"
        ≡ key.service_account_name

module _ (platform : Platform) (cfg : WebhookConfig) (review : platform.Review) (key : Key)
    (comes : Comes platform review key) where
  open platform use {Value, Patch, get_opt, to_value, diff}

  abbrev pub pod_name : String
  pod_name = unwrap_or comes.pod.metadata.name "unknown"

  handle-look_up :
      handle platform cfg review
      ≡ look_up platform cfg comes.req comes.pod key.namespace pod_name key.service_account_name
  unfolding handle admit_create
  handle-look_up =
      let asks = look_up platform cfg comes.req comes.pod in
      let account = unwrap_or (and_then comes.pod.spec (λ s. s.service_account_name)) "default" in
      rw (comes.asked, comes.creates, comes.given, comes.agentless) refl
      ∙ ap (λ ns. asks ns pod_name account) comes.namespace
      ∙ ap (λ sa. asks key.namespace pod_name sa) comes.account

  handle-bound :
      (o : ResolvedCloudRoleBinding)
      → get_opt key.namespace key.service_account_name ≡ ok (some o)
      → handle platform cfg review
        ≡ admit_bound platform cfg comes.req comes.pod key.namespace pod_name
            key.service_account_name o
  unfolding look_up
  handle-bound o found = handle-look_up ∙ rw found refl

  -- A pod whose binding is ready gets its patch.
  pub handle_ready :
      (o : ResolvedCloudRoleBinding)
      → get_opt key.namespace key.service_account_name ≡ ok (some o)
      → IsReady o
      → handle platform cfg review ≡ inject platform cfg comes.pod key.service_account_name o
  unfolding admit_bound
  handle_ready o found is_so = handle-bound o found ∙ rw ((is_ready_iff o).1 is_so) refl

  -- A pod whose binding is not ready is failed or passed over.
  pub handle_unready :
      (o : ResolvedCloudRoleBinding)
      → get_opt key.namespace key.service_account_name ≡ ok (some o)
      → ¬ IsReady o
      → handle platform cfg review
        ≡ fail_or_skip cfg.admission_failure_mode comes.req pod_name (
            "ResolvedCloudRoleBinding not Ready for "
            <> (key.namespace <> ("/" <> key.service_account_name)))
  unfolding admit_bound
  handle_unready o found not_so = elim (Bool-cases (is_ready o)) [
    | inl is_so ↦ absurd (not_so ((is_ready_iff o).0 is_so))
    | inr unready ↦ handle-bound o found ∙ rw unready refl
  ]

  build_ok :
      (serializes : Serializes platform) (hash : String) (aws : AwsProviderSpec)
      → HasRole aws
      → (patch : Patch) × (build_pod_patch to_value diff comes.pod cfg.agent_image
            cfg.agent_image_pull_policy cfg.agent_port cfg.federation_url key.service_account_name
            hash aws
          ≡ ok patch)
  unfolding build_pod_patch build_agent_container
  build_ok serializes hash aws role =
      let agent =
        build_agent_container cfg.agent_image cfg.agent_image_pull_policy cfg.agent_port
          cfg.federation_url key.service_account_name hash in
      let (spec', changed) =
        (mutate_spec-HasRole_iff agent aws comes.spec comes.first comes.others refl comes.runs).1
          role in
      let (v, before) = serializes.values comes.pod in
      let (v', behind) = serializes.values (record comes.pod { spec = some spec' }) in
      (diff v v', rw before (rw comes.had (rw changed (rw behind refl))))

  pub inject_ok :
      (serializes : Serializes platform) (o : ResolvedCloudRoleBinding) (hash : String)
      (aws : AwsProviderSpec)
      → and_then o.status (λ s. s.config_hash) ≡ some hash
      → o.spec.providers.aws ≡ some aws
      → HasRole aws
      → (patch : Patch) × (build_pod_patch to_value diff comes.pod cfg.agent_image
            cfg.agent_image_pull_policy cfg.agent_port cfg.federation_url key.service_account_name
            hash aws
          ≡ ok patch)
        × (inject platform cfg comes.pod key.service_account_name o
            ≡ ok (record { allowed = true; reason = none; patch = some patch }, []))
  unfolding inject
  inject_ok serializes o hash aws hashed configured role =
      let (patch, built) = build_ok serializes hash aws role in
      (patch, built, rw hashed (rw configured (rw built (rw (serializes.patches patch) refl))))
