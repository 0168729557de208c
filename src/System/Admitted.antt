-- ===== src/System/Admitted.antt =====
-- app/crates/kif-webhook/src/admission.rs against app/crates/kif-federation/src/http.rs: a pod that
-- the webhook has admitted carries the hash that the service asks for.
use kubernetes_identity_fede.Base.{
  String, ◌≡◌, sym, none, some, [], Result, ok, ok_or, List, ap, true, map_err, and_then,
  ok_or-eq-ok, >>=-eq-ok, ok-injective, arith, eq_iff, string_has_eq,
}
use kubernetes_identity_fede.Api.Bindings.{AwsProviderSpec}
use kubernetes_identity_fede.Api.Status.{ResolvedCloudRoleBinding}
use kubernetes_identity_fede.Webhook.Config.{WebhookConfig}
use kubernetes_identity_fede.Webhook.Mutate.{build_pod_patch}
use kubernetes_identity_fede.Webhook.Mutate.Pod.{Pod}
use kubernetes_identity_fede.Webhook.Admission.{Platform, AdmissionResponse, PodEvent, inject}
use kubernetes_identity_fede.Federation.Mint.{MintContext, MintRequest, configuration}

module _ (platform : Platform) (cfg : WebhookConfig) (pod : Pod) (sa_name : String)
    (resolved : ResolvedCloudRoleBinding) where
  abbrev built_from : String → AwsProviderSpec → Result platform.Patch String
  built_from =
      build_pod_patch platform.to_value platform.diff pod cfg.agent_image
        cfg.agent_image_pull_policy cfg.agent_port cfg.federation_url sa_name

  pub configuration-same :
      (ctx : MintContext) (req : MintRequest) (hash : String) (aws : AwsProviderSpec)
      → resolved.spec.providers.aws ≡ some aws
      → and_then resolved.status (λ s. s.config_hash) ≡ some hash
      → configuration ctx (record req { config_hash = hash }) resolved ≡ ok aws
  unfolding configuration
  configuration-same ctx req hash aws configured hashed =
      rw (configured, hashed) (ground (arith, eq_iff hash hash))

  -- The patch puts in an agent with a hash with which the service takes the binding.
  record IsCurrent (ctx : MintContext) (req : MintRequest) (patch : platform.Patch) : Type 0 where
    hash : String
    aws : AwsProviderSpec
    built : built_from hash aws ≡ ok patch
    accepted : configuration ctx (record req { config_hash = hash }) resolved ≡ ok aws

  -- Whenever the webhook patches a pod for a binding, the federation service takes the hash that
  -- the pod is given, as long as the binding is the same, and finds the AWS block that the pod is
  -- given.
  inject-IsCurrent :
      (response : AdmissionResponse platform.Patch) (events : List PodEvent)
      → inject platform cfg pod sa_name resolved ≡ ok (response, events)
      → (ctx : MintContext) (req : MintRequest)
      → (patch : platform.Patch) × (response
          ≡ record { allowed = true; reason = none; patch = some patch })
        × (events ≡ [])
        × IsCurrent ctx req patch
  unfolding inject
  inject-IsCurrent response events h ctx req =
      let (hash, hashed, h₁) =
        >>=-eq-ok (ok_or (and_then resolved.status (λ s. s.config_hash)) _) _ h in
      let (aws, configured, h₂) = >>=-eq-ok (ok_or resolved.spec.providers.aws _) _ h₁ in
      let (patch, built, h₃) = >>=-eq-ok (built_from hash aws) _ h₂ in
      let (u, written, h₄) = >>=-eq-ok (map_err _ (platform.serialize_patch patch)) _ h₃ in
      let same = ok-injective h₄ in
      (
        patch,
        sym (ap (λ p. p.0) same),
        sym (ap (λ p. p.1) same),
        record {
          hash = hash;
          aws = aws;
          built = built;
          accepted =
              configuration-same ctx req hash aws (ok_or-eq-ok _ _ configured)
                (ok_or-eq-ok _ _ hashed);
        },
      )
