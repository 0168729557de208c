-- ===== src/Webhook/Admission.antt =====
-- app/crates/kif-webhook/src/admission.rs, and the event of app/crates/kif-webhook/src/k8s.rs.
-- A handler returns its answer and the events that it asks the cluster to create, whose outcome the
-- code ignores. What kube and json_patch do is an argument.
pub mod Ready
pub mod Decision
pub mod Patching
pub mod Applied
pub mod Complete
pub mod Tests
use kubernetes_identity_fede.Base.{
  ℕ, String, ◌<>◌, Bool, true, false, ◌&&◌, Option, none, some, List, [], ◌∷◌, Result, ok, err,
  ◌>>=◌, ok_or, map_err, unwrap_or, and_then, option_map, any, if◌then◌else◌,
}
use kubernetes_identity_fede.Api.Status.{
  Condition, ConditionType, ready, ConditionStatus, is_true, ResolvedCloudRoleBinding,
}
use kubernetes_identity_fede.Webhook.Config.{AdmissionFailureMode, fail, ignore, WebhookConfig}
use kubernetes_identity_fede.Webhook.Mutate.Pod.{Pod}
use kubernetes_identity_fede.Webhook.Mutate.{pod_has_container, build_pod_patch}

pub data Operation : Type 0 where
  create update delete connect : Operation

pub record AdmissionRequest : Type 0 where
  pub operation : Operation
  pub object : Option Pod
  pub namespace : Option String

-- An `AdmissionResponse`: whether the pod is allowed, the reason if not, and the patch.
pub record AdmissionResponse (Patch : Type 0) : Type 0 where
  pub allowed : Bool
  pub reason : Option String
  pub patch : Option Patch

-- The event that `emit_pod_event` creates.
pub record PodEvent : Type 0 where
  pub generate_name : String
  pub namespace : String
  pub pod_name : String
  pub reason : String
  pub message : String
  pub event_type : String
  pub component : String

unfoldable pub emit_pod_event : String → String → String → String → String → PodEvent
emit_pod_event namespace pod_name reason event_type message = record {
  generate_name = pod_name <> "-";
  namespace = namespace;
  pod_name = pod_name;
  reason = reason;
  message = message;
  event_type = event_type;
  component = "kif-webhook";
}

-- What the matches on a condition's type and status ask.
abbrev is_ready_type : ConditionType → Bool
is_ready_type ready = true
is_ready_type _ = false

abbrev is_true_status : ConditionStatus → Bool
is_true_status is_true = true
is_true_status _ = false

abbrev says_ready : Condition → Bool
says_ready c = is_ready_type c.type && is_true_status c.status

unfoldable pub is_ready : ResolvedCloudRoleBinding → Bool
is_ready resolved = elim resolved.status [
  | none ↦ false
  | some status ↦ any says_ready status.conditions
]

abbrev pub Answer : Type 0 → Type 0
Answer Patch = Result (AdmissionResponse Patch × List PodEvent) String

module _ {Patch : Type 0} where
  abbrev pub allowed : AdmissionResponse Patch
  allowed = record { allowed = true; reason = none; patch = none }

  unfoldable pub fail_or_skip :
      AdmissionFailureMode → AdmissionRequest → String → String → Answer Patch
  unfolding emit_pod_event
  fail_or_skip fail req pod_name message =
      ok (record { allowed = false; reason = some message; patch = none }, [])
  fail_or_skip ignore req pod_name message = ok (
    allowed,
    emit_pod_event (unwrap_or req.namespace "default") pod_name "InjectionSkipped" "Warning"
          ("Injection skipped (ADMISSION_FAILURE_MODE=Ignore): " <> message)
        ∷ [],
  )

-- What kube, serde and json_patch do for the handler.
pub record Platform : Type 1 where
  pub Review : Type 0
  pub Value : Type 0
  pub Patch : Type 0
  pub try_into : Review → Result AdmissionRequest String
  -- `Api::namespaced(client, ns).get_opt(name)`
  pub get_opt : String → String → Result (Option ResolvedCloudRoleBinding) String
  pub to_value : Pod → Result Value String
  pub diff : Value → Value → Patch
  -- the serialization in `with_patch`
  pub serialize_patch : Patch → Result (Unit {0}) String

abbrev pub is_create : Operation → Bool
is_create create = true
is_create _ = false

module _ (platform : Platform) (cfg : WebhookConfig) where
  open platform use {Review, Value, Patch, try_into, get_opt, to_value, diff, serialize_patch}

  -- The part of `handle` behind the readiness test.
  unfoldable pub inject : Pod → String → ResolvedCloudRoleBinding → Answer Patch
  unfolding build_pod_patch
  inject pod sa_name resolved = do
    config_hash ←
        ok_or (and_then resolved.status (λ s. s.config_hash))
          "ResolvedCloudRoleBinding.status.configHash is required"
    aws ← ok_or resolved.spec.providers.aws "AWS provider is required (current support is AWS only)"
    patch ←
        build_pod_patch to_value diff pod cfg.agent_image cfg.agent_image_pull_policy cfg.agent_port
          cfg.federation_url sa_name config_hash aws
    written ← map_err (λ e. "failed to set patch") (serialize_patch patch)
    ok (record { allowed = true; reason = none; patch = some patch }, [])

  -- The part of `handle` behind the lookup.
  unfoldable pub admit_bound :
      AdmissionRequest → Pod → String → String → String → ResolvedCloudRoleBinding → Answer Patch
  unfolding inject fail_or_skip is_ready
  admit_bound req pod ns pod_name sa_name resolved =
      if is_ready resolved
      then inject pod sa_name resolved
      else fail_or_skip cfg.admission_failure_mode req pod_name
          ("ResolvedCloudRoleBinding not Ready for " <> (ns <> ("/" <> sa_name)))

  -- The lookup of the binding, and what follows it.
  unfoldable pub look_up : AdmissionRequest → Pod → String → String → String → Answer Patch
  unfolding admit_bound
  look_up req pod ns pod_name sa_name = do
    found ← get_opt ns sa_name
    elim found [
      | none ↦ ok (allowed, [])
      | some resolved ↦ admit_bound req pod ns pod_name sa_name resolved
    ]

  -- The part of `handle` behind the test of the operation.
  unfoldable pub admit_create : AdmissionRequest → Answer Patch
  unfolding look_up pod_has_container
  admit_create req = do
    pod ← ok_or req.object "missing pod object"
    let ns = unwrap_or req.namespace "default"
    let pod_name = unwrap_or pod.metadata.name "unknown"
    let sa_name = unwrap_or (and_then pod.spec (λ s. s.service_account_name)) "default"
    if pod_has_container pod "kif-agent"
        then ok (allowed, [])
        else look_up req pod ns pod_name sa_name

  unfoldable pub handle : Review → Answer Patch
  unfolding admit_create
  handle review = do
    req ← map_err (λ e. "invalid AdmissionReview payload") (try_into review)
    if is_create req.operation then admit_create req else ok (allowed, [])
