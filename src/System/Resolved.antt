-- ===== src/System/Resolved.antt =====
-- app/crates/kif-webhook/src/reconcile.rs against admission.rs beside it and
-- app/crates/kif-federation/src/http.rs: what a pod gets after a round of a worker. Both sides of the
-- webhook use one API server, which is an argument.
use kubernetes_identity_fede.Base.{
  ℕ, String, refl, subst, sym, ◌<>◌, ◌≡◌, ap, ◌∙◌, ◌⊎◌, inl, inr, true, false, none, some, List, [],
  ◌∷◌, ok,
}
use kubernetes_identity_fede.Api.Bindings.{AwsProviderSpec}
use kubernetes_identity_fede.Api.Status.{Time, CloudRoleBinding, ResolvedCloudRoleBinding}
use kubernetes_identity_fede.Webhook.Config.{WebhookConfig, AdmissionFailureMode, fail, ignore}
use kubernetes_identity_fede.Webhook.Merge.{merge_inputs}
use kubernetes_identity_fede.Webhook.Merge.Compatible.{Compatible, aws_specs}
use kubernetes_identity_fede.Webhook.Merge.Sound.{merge_inputs-IsMergeOf}
use kubernetes_identity_fede.Webhook.Mutate.{build_pod_patch}
use kubernetes_identity_fede.Webhook.Mutate.Inject.{HasRole}
use kubernetes_identity_fede.Webhook.Admission.{
  Platform, Answer, emit_pod_event, fail_or_skip, handle,
}
use kubernetes_identity_fede.Webhook.Admission.Ready.{IsReady}
use kubernetes_identity_fede.Webhook.Admission.Complete.{
  Serializes, Comes, pod_name, handle_ready, handle_unready, inject_ok,
}
use kubernetes_identity_fede.Webhook.Queue.{Key}
use kubernetes_identity_fede.Webhook.Reconcile.{Cluster, relevant, reconcile}
use kubernetes_identity_fede.Webhook.Reconcile.Resolved.{Storage, IsHashed, reconcile-IsResolved}
use kubernetes_identity_fede.Federation.Mint.{MintContext, MintRequest, configuration}
use kubernetes_identity_fede.System.Admitted.{configuration-same}

module _ (platform : Platform) (cfg : WebhookConfig) (review : platform.Review) (key : Key)
    (comes : Comes platform review key) where
  open platform use {Patch, get_opt, to_value, diff}

  -- The pod is denied in Fail mode, and let through with a warning event in Ignore mode.
  pub data Turned (mode : AdmissionFailureMode) (message : String) (answer : Answer Patch)
      : Type 0 where
    denies :
        mode ≡ fail
        → answer ≡ ok (record { allowed = false; reason = some message; patch = none }, [])
        → Turned mode message answer
    skips :
        mode ≡ ignore
        → answer
          ≡ ok (
            record { allowed = true; reason = none; patch = none },
            record {
              generate_name = pod_name platform cfg review key comes <> "-";
              namespace = key.namespace;
              pod_name = pod_name platform cfg review key comes;
              reason = "InjectionSkipped";
              message = "Injection skipped (ADMISSION_FAILURE_MODE=Ignore): " <> message;
              event_type = "Warning";
              component = "kif-webhook";
            }
                ∷ [],
          )
        → Turned mode message answer

  fail_or_skip-Turned :
      (mode : AdmissionFailureMode) (message : String)
      → Turned mode message
          (fail_or_skip mode comes.req (pod_name platform cfg review key comes) message)
  unfolding fail_or_skip emit_pod_event
  fail_or_skip-Turned fail message = denies refl refl
  fail_or_skip-Turned ignore message = rw comes.namespace (skips refl refl)

  module _ (cluster : Cluster) (storage : Storage cluster) (s : cluster.State)
      (crbs : List CloudRoleBinding) where
    -- The patch puts in an agent for the merge of the bindings, with the hash of that merge, which
    -- the service takes while the binding is the stored one.
    pub record Patched : Type 0 where
      pub o : ResolvedCloudRoleBinding
      pub stored : storage.get_opt key.namespace key.service_account_name s ≡ some o
      pub compatible : Compatible crbs
      pub aws : AwsProviderSpec
      pub bytes : List ℕ
      pub patch : Patch
      pub one_aws : aws_specs crbs ≡ aws ∷ []
      pub merged : merge_inputs key.service_account_name crbs ≡ ok o.spec
      pub written : cluster.to_vec o.spec ≡ ok bytes
      pub built :
          build_pod_patch to_value diff comes.pod cfg.agent_image cfg.agent_image_pull_policy
            cfg.agent_port cfg.federation_url key.service_account_name
            (cluster.sha256_hex bytes)
            aws
          ≡ ok patch
      pub answered :
          handle platform cfg review
          ≡ ok (record { allowed = true; reason = none; patch = some patch }, [])
      pub accepted :
          (ctx : MintContext) (req : MintRequest)
          → configuration ctx (record req { config_hash = cluster.sha256_hex bytes }) o ≡ ok aws

    -- The answer for a binding that is not ready.
    pub record Refused : Type 0 where
      pub incompatible : ¬ Compatible crbs
      pub answered :
          Turned cfg.admission_failure_mode
            ("ResolvedCloudRoleBinding not Ready for "
              <> (key.namespace <> ("/" <> key.service_account_name)))
            (handle platform cfg review)

    answer_ready :
        (serializes : Serializes platform) (o : ResolvedCloudRoleBinding)
        → storage.get_opt key.namespace key.service_account_name s ≡ some o
        → get_opt key.namespace key.service_account_name ≡ ok (some o)
        → Compatible crbs
        → IsReady o
        → merge_inputs key.service_account_name crbs ≡ ok o.spec
        → IsHashed cluster o
        → ((aws : AwsProviderSpec) → aws_specs crbs ≡ aws ∷ [] → HasRole aws)
        → Patched
    answer_ready serializes o stored found compatible is_so merged (bytes, written, hashed) roles =
        let m = merge_inputs-IsMergeOf key.service_account_name crbs o.spec merged in
        let configured : o.spec.providers.aws ≡ some m.aws = ap (λ s. s.providers.aws) m.value in
        let hash = cluster.sha256_hex bytes in
        let (patch, built, injected) =
          inject_ok platform cfg review key comes serializes o hash m.aws hashed configured
            (roles m.aws m.one_aws) in
        record {
          o = o;
          stored = stored;
          compatible = compatible;
          aws = m.aws;
          bytes = bytes;
          patch = patch;
          one_aws = m.one_aws;
          merged = merged;
          written = written;
          built = built;
          answered = handle_ready platform cfg review key comes o found is_so ∙ injected;
          accepted = λ ctx req.
              configuration-same platform cfg comes.pod key.service_account_name o ctx req hash
                m.aws configured hashed;
        }

  -- After a worker's round for a ServiceAccount has succeeded, at an API server that reads back
  -- what is applied to it, a pod of it that is created while the webhook reads what the round has
  -- stored is answered by its bindings: if they are compatible, with a patch for their one AWS
  -- block and the hash of their merge, which the federation service takes for the resource that is
  -- stored then; and otherwise with a denial in Fail mode, and in Ignore mode without a patch and
  -- with a warning event; what is written is taken to be serializable, the pod to have a main
  -- container and no agent yet, and an AWS block that stands alone to have a role that is not
  -- blank.
  pub reconciled-Answers :
      (cluster : Cluster) (now : Time) (storage : Storage cluster)
      (serializes : Serializes platform) (listed : List CloudRoleBinding) (s s' : cluster.State)
      → cluster.list_bindings key.namespace s ≡ ok listed
      → reconcile cluster now key s ≡ (ok tt, s')
      → get_opt key.namespace key.service_account_name
        ≡ ok (storage.get_opt key.namespace key.service_account_name s')
      → ((aws : AwsProviderSpec)
          → aws_specs (relevant key.service_account_name listed) ≡ aws ∷ []
          → HasRole aws)
      → let crbs = relevant key.service_account_name listed in
        Patched cluster storage s' crbs ⊎ Refused cluster storage s' crbs
  reconciled-Answers cluster now storage serializes listed s s' lists done reads roles =
      let crbs = relevant key.service_account_name listed in
      let (o, stored, is_resolved) =
        reconcile-IsResolved cluster now storage key listed s s' lists done in
      let found = reads ∙ ap (λ x. ok x) stored in
      elim is_resolved [
        | inl (compatible, is_so, merged, hashed) ↦ inl (
            answer_ready cluster storage s' crbs serializes o stored found compatible is_so merged
              hashed roles)
        | inr (incompatible, not_so) ↦ inr (record {
          incompatible = incompatible;
          answered =
              subst (Turned cfg.admission_failure_mode _)
                (sym (handle_unready platform cfg review key comes o found not_so))
                (fail_or_skip-Turned cfg.admission_failure_mode _);
        })
      ]
