-- ===== src/Webhook/Merge/Tests.antt =====
-- merge.rs: the merges of app/crates/kif-webhook/src/merge.rs's own tests, and the theorems on them.
use kubernetes_identity_fede.Base.{
  String, ◌≡◌, refl, ◌↔◌, Bool, true, false, Option, none, some, List, [], ◌∷◌, ok, err, to_option,
}
use kubernetes_identity_fede.Base.BTreeMap.{BTreeMap}
use kubernetes_identity_fede.Api.Bindings.{
  AwsProviderSpec, ProvidersSpec, no_providers, ResolvedCloudRoleBindingSpec,
}
use kubernetes_identity_fede.Api.Status.{
  CloudRoleBinding, ConditionReason, provider_conflict, attribute_conflict, validation_failed,
}
use kubernetes_identity_fede.Webhook.Merge.{MergeResult, merge_inputs, aws_issue}
use kubernetes_identity_fede.Webhook.Merge.Failure.{Fails, merge_inputs-Fails}
use kubernetes_identity_fede.Webhook.Merge.Compatible.{Compatible}
use kubernetes_identity_fede.Webhook.Merge.Order.{merge_inputs-Perm}
use mathlib.Core.List.Permᴰ.{swap}
use kubernetes_identity_fede.Webhook.Merge.Sound.{
  IsMergeOf, merge_inputs-IsMergeOf, merge_inputs-ok_iff,
}

abbrev pub test_aws : AwsProviderSpec
test_aws = record {
  role_arn = "arn:aws:iam::123:role/test";
  region = some "eu-west-1";
  sts_regional_endpoints = true;
  audience = none;
  max_session_duration_seconds = none;
}

abbrev pub aws_only : ProvidersSpec
aws_only = record { aws = some test_aws; azure = none; gcp = none }

abbrev pub gcp_only : ProvidersSpec
gcp_only = record {
  aws = none;
  azure = none;
  gcp = some (record {
    workload_identity_provider = "wip";
    service_account_email = "test@example.com";
    audience = none;
    project_id = none;
  });
}

abbrev pub crb : String → ProvidersSpec → Option Bool → Option (BTreeMap String) → CloudRoleBinding
crb name providers include_prov extra = record {
  metadata = record { name = some name; namespace = some "default"; generation = none };
  spec = record {
    subject = record { service_account_name = "test-sa" };
    attributes = some (record { include_provenance = include_prov; extra = extra });
    providers = providers;
  };
  status = none;
}

-- One binding has AWS, and two bring different keys.
abbrev pub two_bindings : List CloudRoleBinding
two_bindings =
    crb "crb1" aws_only (some false) (some (("team", "core") ∷ []))
    ∷ crb "crb2" gcp_only none (some (("env", "prod") ∷ []))
    ∷ []

abbrev pub two_merged : ResolvedCloudRoleBindingSpec
two_merged = record {
  subject = record { service_account_name = "test-sa" };
  attributes = some (record {
    include_provenance = some false;
    extra = some (("env", "prod") ∷ ("team", "core") ∷ []);
  });
  providers = aws_only;
}

pub two_bindings-merge : merge_inputs "test-sa" two_bindings ≡ ok two_merged
unfolding merge_inputs
two_bindings-merge = refl

-- The reason and the bindings of a failed merge.
abbrev issue_of : MergeResult ResolvedCloudRoleBindingSpec → Option (ConditionReason × List String)
issue_of (ok spec) = none
issue_of (err issue) = some (issue.reason, issue.affected_crb_names)

two_aws-conflict :
    issue_of
      (merge_inputs "test-sa" (crb "crb1" aws_only none none ∷ crb "crb2" aws_only none none ∷ []))
    ≡ some (provider_conflict, "crb1" ∷ "crb2" ∷ [])
unfolding merge_inputs
two_aws-conflict = refl

same_key-conflict :
    issue_of (
      merge_inputs "test-sa" (
        crb "crb1" aws_only none (some (("team", "a") ∷ []))
        ∷ crb "crb2" gcp_only none (some (("team", "b") ∷ []))
        ∷ []))
    ≡ some (attribute_conflict, "crb1" ∷ "crb2" ∷ [])
unfolding merge_inputs
same_key-conflict = refl

no_provider-invalid :
    issue_of (merge_inputs "test-sa" (crb "crb1" no_providers none none ∷ []))
    ≡ some (validation_failed, "crb1" ∷ [])
unfolding merge_inputs
no_provider-invalid = refl

merge_inputs-Perm_example :
    to_option (merge_inputs "test-sa" two_bindings)
    ≡ to_option (
        merge_inputs "test-sa" (
          crb "crb2" gcp_only none (some (("env", "prod") ∷ []))
          ∷ crb "crb1" aws_only (some false) (some (("team", "core") ∷ []))
          ∷ []))
merge_inputs-Perm_example =
    merge_inputs-Perm "test-sa" two_bindings
      (crb "crb2" gcp_only none (some (("env", "prod") ∷ []))
        ∷ crb "crb1" aws_only (some false) (some (("team", "core") ∷ []))
        ∷ [])
      ∣ swap refl refl ∣₁

merge_inputs-ok_iff_example :
    ((spec : ResolvedCloudRoleBindingSpec) × (merge_inputs "test-sa" two_bindings ≡ ok spec))
    ↔ Compatible two_bindings
merge_inputs-ok_iff_example = merge_inputs-ok_iff "test-sa" two_bindings

merge_inputs-IsMergeOf_example : IsMergeOf "test-sa" two_bindings two_merged
merge_inputs-IsMergeOf_example =
    merge_inputs-IsMergeOf "test-sa" two_bindings two_merged two_bindings-merge

-- Two bindings with AWS, and what their merge is reported as.
abbrev two_aws : List CloudRoleBinding
two_aws = crb "crb1" aws_only none none ∷ crb "crb2" aws_only none none ∷ []

two_aws-fails : merge_inputs "test-sa" two_aws ≡ err (aws_issue (some "crb1") "crb2")
unfolding merge_inputs
two_aws-fails = refl

merge_inputs-Fails_example : Fails two_aws (aws_issue (some "crb1") "crb2")
merge_inputs-Fails_example =
    merge_inputs-Fails "test-sa" two_aws (aws_issue (some "crb1") "crb2") two_aws-fails
