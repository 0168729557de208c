-- ===== src/Webhook/Admission/Decision.antt =====
-- admission.rs: every answer of `handle`, with the reason for it.
use kubernetes_identity_fede.Base.{
  String, ◌<>◌, ◌≡◌, ◌≢◌, refl, ◌⊎◌, inl, inr, true, false, none, some, List, [], ◌∷◌, ok, ok_or,
  map_err, unwrap_or, and_then, arith, Bool-cases, Option-cases, >>=-eq-ok, ok_or-eq-ok,
  ok-injective, map_err-eq-ok, and_then-eq-some, sym,
}
use kubernetes_identity_fede.Api.Bindings.{AwsProviderSpec}
use kubernetes_identity_fede.Api.Status.{ResolvedCloudRoleBinding, ResolvedCloudRoleBindingStatus}
use kubernetes_identity_fede.Webhook.Config.{AdmissionFailureMode, fail, ignore, WebhookConfig}
use kubernetes_identity_fede.Webhook.Mutate.Pod.{Pod}
use kubernetes_identity_fede.Webhook.Mutate.{pod_has_container, build_pod_patch}
use kubernetes_identity_fede.Webhook.Admission.{
  Platform, Operation, create, AdmissionRequest, AdmissionResponse, PodEvent, is_ready, allowed,
  fail_or_skip, emit_pod_event, inject, admit_bound, look_up, admit_create, is_create, handle,
}
use kubernetes_identity_fede.Webhook.Admission.Ready.{IsReady, is_ready_iff}

is_create-eq : (o : Operation) → is_create o ≡ true → o ≡ create
is_create-eq create h = refl
is_create-eq _ h = cc

is_create-ne : (o : Operation) → is_create o ≡ false → o ≢ create
is_create-ne create h e = cc
is_create-ne _ h e = cc

mode-cases : (m : AdmissionFailureMode) → (m ≡ fail) ⊎ (m ≡ ignore)
mode-cases fail = inl refl
mode-cases ignore = inr refl

module _ (platform : Platform) (cfg : WebhookConfig) where
  open platform use {Review, Value, Patch, try_into, get_opt, to_value, diff, serialize_patch}

  -- A new pod that has no agent yet, and the binding that is stored for its ServiceAccount.
  pub record Bound (review : Review) (resolved : ResolvedCloudRoleBinding) : Type 0 where
    pub req : AdmissionRequest
    pub pod : Pod
    pub sa_name : String
    pub asked : try_into review ≡ ok req
    pub creates : req.operation ≡ create
    pub given : req.object ≡ some pod
    pub agentless : pod_has_container pod "kif-agent" ≡ false
    pub account : sa_name ≡ unwrap_or (and_then pod.spec (λ s. s.service_account_name)) "default"
    pub found : get_opt (unwrap_or req.namespace "default") sa_name ≡ ok (some resolved)

  -- The reasons for an answer.
  pub data Decides (review : Review) (answer : AdmissionResponse Patch × List PodEvent)
      : Type 0 where
    not_create :
        (req : AdmissionRequest)
        → try_into review ≡ ok req
        → req.operation ≢ create
        → answer ≡ (allowed, [])
        → Decides review answer
    has_agent :
        (req : AdmissionRequest) (pod : Pod)
        → try_into review ≡ ok req
        → req.object ≡ some pod
        → pod_has_container pod "kif-agent" ≡ true
        → answer ≡ (allowed, [])
        → Decides review answer
    unbound :
        (req : AdmissionRequest) (pod : Pod)
        → try_into review ≡ ok req
        → req.object ≡ some pod
        → get_opt
            (unwrap_or req.namespace "default")
            (unwrap_or (and_then pod.spec (λ s. s.service_account_name)) "default")
          ≡ ok none
        → answer ≡ (allowed, [])
        → Decides review answer
    denied :
        (resolved : ResolvedCloudRoleBinding)
        → Bound review resolved
        → ¬ IsReady resolved
        → cfg.admission_failure_mode ≡ fail
        → (message : String)
        → answer ≡ (record { allowed = false; reason = some message; patch = none }, [])
        → Decides review answer
    skipped :
        (resolved : ResolvedCloudRoleBinding) (b : Bound review resolved)
        → ¬ IsReady resolved
        → cfg.admission_failure_mode ≡ ignore
        → (message : String)
        → answer ≡ (
          allowed,
          emit_pod_event
                (unwrap_or b.req.namespace "default")
                (unwrap_or b.pod.metadata.name "unknown")
                "InjectionSkipped"
                "Warning"
                message
              ∷ [],
        )
        → Decides review answer
    patched :
        (resolved : ResolvedCloudRoleBinding) (b : Bound review resolved)
        (status : ResolvedCloudRoleBindingStatus) (config_hash : String) (aws : AwsProviderSpec)
        (patch : Patch)
        → IsReady resolved
        → resolved.status ≡ some status
        → status.config_hash ≡ some config_hash
        → resolved.spec.providers.aws ≡ some aws
        → build_pod_patch to_value diff b.pod cfg.agent_image cfg.agent_image_pull_policy
            cfg.agent_port cfg.federation_url b.sa_name config_hash aws
          ≡ ok patch
        → answer ≡ (record { allowed = true; reason = none; patch = some patch }, [])
        → Decides review answer

  module _ (review : Review) (answer : AdmissionResponse Patch × List PodEvent) where
    admit_bound-Decides :
        (resolved : ResolvedCloudRoleBinding) (b : Bound review resolved)
        → admit_bound platform cfg b.req b.pod
            (unwrap_or b.req.namespace "default")
            (unwrap_or b.pod.metadata.name "unknown")
            b.sa_name
            resolved
          ≡ ok answer
        → Decides review answer
    unfolding admit_bound inject fail_or_skip
    admit_bound-Decides resolved b h = elim (Bool-cases (is_ready resolved)) [
      | inr unready ↦
          let not_ready : ¬ IsReady resolved = λ r. cc ((is_ready_iff resolved).1 r) in
          let message =
            "ResolvedCloudRoleBinding not Ready for "
            <> (unwrap_or b.req.namespace "default" <> ("/" <> b.sa_name)) in
          elim (mode-cases cfg.admission_failure_mode) [
            | inl fails ↦ denied resolved b not_ready fails message (ground arith)
            | inr ignores ↦
                skipped resolved b not_ready ignores
                  ("Injection skipped (ADMISSION_FAILURE_MODE=Ignore): " <> message) (ground arith)
          ]
      | inl is_so ↦
          let h₀ : inject platform cfg b.pod b.sa_name resolved ≡ ok answer = ground arith in
          let (config_hash, hashed, h₁) =
            >>=-eq-ok (ok_or (and_then resolved.status (λ s. s.config_hash)) _) _ h₀ in
          let (status, stated, recorded) =
            and_then-eq-some resolved.status (λ s. s.config_hash) (ok_or-eq-ok _ _ hashed) in
          let (aws, configured, h₂) = >>=-eq-ok (ok_or resolved.spec.providers.aws _) _ h₁ in
          let (patch, built, h₃) =
            >>=-eq-ok
              (build_pod_patch to_value diff b.pod cfg.agent_image cfg.agent_image_pull_policy
                cfg.agent_port cfg.federation_url b.sa_name config_hash aws)
              _ h₂ in
          let (written, serialized, h₄) =
            >>=-eq-ok (map_err (λ e. "failed to set patch") (serialize_patch patch)) _ h₃ in
          patched resolved b status config_hash aws patch ((is_ready_iff resolved).0 is_so) stated
            recorded (ok_or-eq-ok _ _ configured) built (sym (ok-injective h₄))
    ]

    admit_create-Decides :
        (req : AdmissionRequest)
        → try_into review ≡ ok req
        → req.operation ≡ create
        → admit_create platform cfg req ≡ ok answer
        → Decides review answer
    unfolding admit_create look_up
    admit_create-Decides req asked creates h =
        let (pod, given, h') = >>=-eq-ok (ok_or req.object _) _ h in
        let given' = ok_or-eq-ok req.object _ given in
        let ns = unwrap_or req.namespace "default" in
        let sa_name = unwrap_or (and_then pod.spec (λ s. s.service_account_name)) "default" in
        elim (Bool-cases (pod_has_container pod "kif-agent")) [
          | inl there_ ↦ has_agent req pod asked given' there_ (ground arith)
          | inr agentless ↦
              let h₁ : look_up platform cfg req pod ns (unwrap_or pod.metadata.name "unknown")
                    sa_name
                  ≡ ok answer =
                ground arith in
              let (found, looked, h₂) = >>=-eq-ok (get_opt ns sa_name) _ h₁ in
              elim (Option-cases found) [
                | inl missing ↦ unbound req pod asked given' (ground arith) (ground arith)
                | inr (resolved, stored) ↦
                    admit_bound-Decides resolved
                      (record {
                        req = req;
                        pod = pod;
                        sa_name = sa_name;
                        asked = asked;
                        creates = creates;
                        given = given';
                        agentless = agentless;
                        account = refl;
                        found = ground arith;
                      })
                      (ground arith)
              ]
        ]

    -- Every answer of the admission handler has its reason: a pod is patched only for a ready
    -- binding with a hash and an AWS block, denied only in Fail mode and passed over with a
    -- warning event only in Ignore mode for a binding that is not ready, and allowed unchanged
    -- only if it is no creation, has the agent already, or has no binding.
    pub handle-Decides : handle platform cfg review ≡ ok answer → Decides review answer
    unfolding handle
    handle-Decides h =
        let (req, asked, h') = >>=-eq-ok (map_err _ (try_into review)) _ h in
        let asked' = map_err-eq-ok _ (try_into review) asked in
        elim (Bool-cases (is_create req.operation)) [
          | inl creates ↦
              admit_create-Decides req asked' (is_create-eq req.operation creates) (ground arith)
          | inr other ↦ not_create req asked' (is_create-ne req.operation other) (ground arith)
        ]
