-- ===== src/Webhook/Admission/Applied.antt =====
-- admission.rs and mutate.rs: the pod that the API server makes of a patch, and what the webhook says
-- to that pod.
use kubernetes_identity_fede.Base.{
  String, ◌≡◌, ◌≢◌, refl, sym, ap, ◌∙◌, true, Option, none, some, List, [], ◌∷◌, ok, and_then,
  to_option, arith, string_has_eq, Bool-cases, inl, inr,
}
use kubernetes_identity_fede.Api.Bindings.{AwsProviderSpec}
use kubernetes_identity_fede.Api.Status.{ResolvedCloudRoleBinding, ResolvedCloudRoleBindingStatus}
use kubernetes_identity_fede.Webhook.Config.{WebhookConfig}
use kubernetes_identity_fede.Webhook.Mutate.Pod.{Container, Pod, PodSpec}
use kubernetes_identity_fede.Webhook.Mutate.{pod_has_container, build_pod_patch}
use kubernetes_identity_fede.Webhook.Mutate.Injection.{IsMutated, mutate_spec-IsMutated}
use kubernetes_identity_fede.Webhook.Admission.{
  Platform, AdmissionRequest, AdmissionResponse, PodEvent, allowed, admit_create, is_create, handle,
}
use kubernetes_identity_fede.Webhook.Admission.Decision.{
  Bound, Decides, not_create, has_agent, unbound, denied, skipped, patched, handle-Decides,
}
use kubernetes_identity_fede.Webhook.Admission.Patching.{
  Patching, agent_of, patched_pod, build_pod_patch-Built, agent_of-named,
}

module _ (platform : Platform) (cfg : WebhookConfig) (patching : Patching platform) where
  open platform use {Review, Value, Patch, try_into, to_value, diff}

  agent_first-found :
      (pod : Pod) (spec : PodSpec) (agent : Container) (inits : List Container)
      → agent.name ≡ "kif-agent"
      → spec.init_containers ≡ some (agent ∷ inits)
      → pod_has_container (record pod { spec = some spec }) "kif-agent" ≡ true
  unfolding pod_has_container
  agent_first-found pod spec agent inits named first = rw first (rw named (ground arith))

  -- The pod that the patch makes of the reviewed one, for the binding of its ServiceAccount.
  pub record Applied (review : Review) (patch : Patch) : Type 0 where
    pub resolved : ResolvedCloudRoleBinding
    pub bound : Bound platform cfg review resolved
    pub status : ResolvedCloudRoleBindingStatus
    pub hash : String
    pub aws : AwsProviderSpec
    pub spec : PodSpec
    pub spec' : PodSpec
    pub recorded : resolved.status ≡ some status
    pub hashed : status.config_hash ≡ some hash
    pub configured : resolved.spec.providers.aws ≡ some aws
    pub had : bound.pod.spec ≡ some spec
    pub applied :
        patched_pod platform cfg patching patch bound.pod
        ≡ some (record bound.pod { spec = some spec' })
    pub mutated : IsMutated (agent_of platform cfg patching bound.sa_name hash) aws spec spec'

  -- What a patch that is built for the binding makes of the pod.
  abbrev pub applied_of :
      (review : Review) (patch : Patch) (resolved : ResolvedCloudRoleBinding)
      (b : Bound platform cfg review resolved) (status : ResolvedCloudRoleBindingStatus)
      (hash : String) (aws : AwsProviderSpec)
      → resolved.status ≡ some status
      → status.config_hash ≡ some hash
      → resolved.spec.providers.aws ≡ some aws
      → build_pod_patch to_value diff b.pod cfg.agent_image cfg.agent_image_pull_policy
          cfg.agent_port cfg.federation_url b.sa_name hash aws
        ≡ ok patch
      → Applied review patch
  applied_of review patch resolved b status hash aws recorded hashed configured built =
      let built' =
        build_pod_patch-Built platform cfg patching b.pod b.sa_name hash aws patch built in
      record {
        resolved = resolved;
        bound = b;
        status = status;
        hash = hash;
        aws = aws;
        spec = built'.spec;
        spec' = built'.spec';
        recorded = recorded;
        hashed = hashed;
        configured = configured;
        had = built'.had;
        applied = built'.applied;
        mutated =
            mutate_spec-IsMutated (agent_of platform cfg patching b.sa_name hash) aws built'.spec
              built'.spec' (agent_of-named platform cfg patching b.sa_name hash) built'.changed;
      }

  unpatched :
      (answer other : AdmissionResponse Patch × List PodEvent) {patch : Patch}
      → other.0.patch ≡ none
      → answer ≡ other
      → answer.0.patch ≢ some patch
  unpatched answer other missing e h =
      let same = sym (ap (λ (a : AdmissionResponse Patch × List PodEvent). a.0.patch) e) ∙ h in
      cc (missing, same)

  patched-Applied :
      (review : Review) (answer : AdmissionResponse Patch × List PodEvent) (patch : Patch)
      → Decides platform cfg review answer
      → answer.0.patch ≡ some patch
      → Applied review patch
  patched-Applied review answer patch (not_create req asked other e) h =
      absurd (unpatched answer _ refl e h)
  patched-Applied review answer patch (has_agent req pod asked given has e) h =
      absurd (unpatched answer _ refl e h)
  patched-Applied review answer patch (unbound req pod asked given missing e) h =
      absurd (unpatched answer _ refl e h)
  patched-Applied review answer patch (denied resolved b not_ready mode message e) h =
      absurd (unpatched answer _ refl e h)
  patched-Applied review answer patch (skipped resolved b not_ready mode message e) h =
      absurd (unpatched answer _ refl e h)
  patched-Applied review answer patch
        (patched resolved b status hash aws patch' is_so recorded hashed configured built e) h =
      let got = sym (ap (λ (a : AdmissionResponse Patch × List PodEvent). a.0.patch) e) ∙ h in
      let same : patch' ≡ patch = cc got in
      applied_of review patch resolved b status hash aws recorded hashed configured
        (built ∙ ap (λ p. ok p) same)

  -- If serde reads back what it writes and json_patch makes the second value of the first,
  -- whenever the handler answers with a patch, the patch makes of the reviewed pod one whose spec
  -- is mutated for the binding of its ServiceAccount, with the agent of the webhook's
  -- configuration and the binding's hash.
  pub handle-Applied :
      (review : Review) (answer : AdmissionResponse Patch × List PodEvent) (patch : Patch)
      → handle platform cfg review ≡ ok answer
      → answer.0.patch ≡ some patch
      → Applied review patch
  handle-Applied review answer patch h p =
      patched-Applied review answer patch (handle-Decides platform cfg review answer h) p

  -- The pod of a review, and what the patch makes of it.
  abbrev pub reviewed : Review → Option Pod
  reviewed review = and_then (to_option (try_into review)) (λ req. req.object)

  handle-has_agent :
      (review : Review) (req : AdmissionRequest) (pod : Pod)
      → try_into review ≡ ok req
      → req.object ≡ some pod
      → pod_has_container pod "kif-agent" ≡ true
      → handle platform cfg review ≡ ok (allowed, [])
  unfolding handle admit_create
  handle-has_agent review req pod asked given has = elim (Bool-cases (is_create req.operation)) [
    | inl creates ↦ rw asked (rw creates (rw given (rw has refl)))
    | inr other ↦ rw asked (rw other refl)
  ]

  -- If serde reads back what it writes and json_patch makes the second value of the first, a later
  -- review of the pod that a patch has made is allowed without a patch.
  pub handle_again :
      (review again : Review) (answer : AdmissionResponse Patch × List PodEvent) (patch : Patch)
      → handle platform cfg review ≡ ok answer
      → answer.0.patch ≡ some patch
      → (req : AdmissionRequest) → try_into again ≡ ok req
      → req.object ≡ and_then (reviewed review) (patched_pod platform cfg patching patch)
      → handle platform cfg again ≡ ok (allowed, [])
  handle_again review again answer patch h p req asked given =
      let a = handle-Applied review answer patch h p in
      let pod' : Pod = record a.bound.pod { spec = some a.spec' } in
      let same : reviewed review ≡ some a.bound.pod =
        ap (λ r. and_then (to_option r) (λ q. q.object)) a.bound.asked ∙ a.bound.given in
      handle-has_agent again req pod' asked
        (given ∙ ap (λ o. and_then o (patched_pod platform cfg patching patch)) same ∙ a.applied)
        (agent_first-found a.bound.pod a.spec'
          (agent_of platform cfg patching a.bound.sa_name a.hash) a.mutated.inits
          (agent_of-named platform cfg patching a.bound.sa_name a.hash) a.mutated.agent_first)
