-- ===== src/System/Tests/Resolved.antt =====
-- A round on the two bindings of merge.rs, and the pod of the webhook's tests behind it.
use kubernetes_identity_fede.Base.{◌≡◌, ◌⊎◌, refl, ok, ap, subst, [], ◌∷◌, some, none, List, false}
use kubernetes_identity_fede.Base.Text.{trim}
use kubernetes_identity_fede.Api.Bindings.{AwsProviderSpec}
use kubernetes_identity_fede.Api.Status.{is_true}
use kubernetes_identity_fede.Webhook.Merge.Compatible.{aws_specs}
use kubernetes_identity_fede.Webhook.Merge.Tests.{test_aws, two_bindings}
use kubernetes_identity_fede.Webhook.Mutate.Inject.{HasRole}
use kubernetes_identity_fede.Webhook.Mutate.{pod_has_container}
use kubernetes_identity_fede.Webhook.Mutate.Tests.{container, own_env, plain_spec}
use kubernetes_identity_fede.Webhook.Admission.{Platform, create}
use kubernetes_identity_fede.Webhook.Admission.Tests as W
use kubernetes_identity_fede.Webhook.Admission.Tests.{cfg, pod, request}
use kubernetes_identity_fede.Webhook.Admission.Complete.{Serializes, Comes}
use kubernetes_identity_fede.Webhook.Reconcile.{relevant}
use kubernetes_identity_fede.Webhook.Reconcile.Tests.{
  cluster, storage, key, empty, after, reconciles,
}
use kubernetes_identity_fede.System.Resolved.{Patched, Refused, reconciled-Answers}

abbrev pub platform : Platform
platform = record (W.platform is_true) { get_opt = λ ns name. ok (storage.get_opt ns name after) }

agentless : pod_has_container (pod plain_spec) "kif-agent" ≡ false
unfolding pod_has_container
agentless = refl

pub comes : Comes platform (request create plain_spec) key
comes = record {
  req = request create plain_spec;
  pod = pod plain_spec;
  spec = plain_spec;
  first = container "app" (some own_env);
  others = container "sidecar" none ∷ [];
  asked = refl;
  creates = refl;
  given = refl;
  had = refl;
  runs = refl;
  agentless = agentless;
  namespace = refl;
  account = refl;
}

pub serializes : Serializes platform
serializes = record { values = λ pod. (pod, refl); patches = λ patch. refl }

abbrev first_or_test : List AwsProviderSpec → AwsProviderSpec
first_or_test [] = test_aws
first_or_test (aws ∷ _) = aws

roles :
    (aws : AwsProviderSpec) → aws_specs (relevant "test-sa" two_bindings) ≡ aws ∷ [] → HasRole aws
unfolding trim
roles aws one = subst HasRole (ap first_or_test one) refl

reconciled-Answers_example :
    Patched platform cfg
      (request create plain_spec)
      key
      comes
      cluster
      storage
      after
      (relevant "test-sa" two_bindings)
    ⊎ Refused platform cfg
        (request create plain_spec)
        key
        comes
        cluster
        storage
        after
        (relevant "test-sa" two_bindings)
reconciled-Answers_example =
    reconciled-Answers platform cfg (request create plain_spec) key comes cluster 0 storage
      serializes two_bindings empty after refl reconciles refl roles
