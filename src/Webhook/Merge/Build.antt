-- ===== src/Webhook/Merge/Build.antt =====
-- app/crates/kif-webhook/src/merge.rs: the resources and statuses that a merge is written to, and
-- `upsert_resolved`. The serializer, the hash and the clock are arguments.
use kubernetes_identity_fede.Base.{
  ℕ, String, Bool, true, false, Option, none, some, List, [], ◌∷◌, ◌++◌, Result, ok, ◌>>=◌,
  unwrap_or, option_map, is_some, filter_map, if◌then◌else◌,
}
use kubernetes_identity_fede.Base.Text.{join}
use kubernetes_identity_fede.Base.Signed.{ℤ, pos, max_of}
use kubernetes_identity_fede.Api.Bindings.{
  ProvidersSpec, no_providers, ResolvedCloudRoleBindingSpec, ObjectMeta,
}
use kubernetes_identity_fede.Api.Status.{
  Time, Condition, ready, conflict, invalid_spec, is_true, is_false, validated, error,
  CloudRoleBinding, CloudRoleBindingRef, CloudRoleBindingStatus, ResolvedCloudRoleBinding,
}
use kubernetes_identity_fede.Webhook.Merge.{MergeIssue}

abbrev named_if : Bool → String → List String
named_if true name = name ∷ []
named_if false name = []

unfoldable pub providers_summary : ProvidersSpec → String
unfolding join
providers_summary p = join "," (
    named_if (is_some p.aws) "aws"
    ++ (named_if (is_some p.azure) "azure" ++ named_if (is_some p.gcp) "gcp"))

-- `filter_map(|s| s.generation).max().unwrap_or_default()`
unfoldable pub observed_of : List CloudRoleBindingRef → ℤ
unfolding max_of
observed_of sources = unwrap_or (max_of (filter_map (λ s. s.generation) sources)) (pos 0)

abbrev pub resource_meta : String → String → ObjectMeta
resource_meta namespace name = record {
  name = some name;
  namespace = some namespace;
  generation = none;
}

-- `serde_json::to_vec` of a spec, and the hexadecimal SHA-256 of bytes.
module _ (to_vec : ResolvedCloudRoleBindingSpec → Result (List ℕ) String)
    (sha256_hex : List ℕ → String) where
  unfoldable pub build_resolved_from_spec :
      Time
      → String
      → String
      → List CloudRoleBindingRef
      → ResolvedCloudRoleBindingSpec
      → Result ResolvedCloudRoleBinding String
  unfolding providers_summary observed_of
  build_resolved_from_spec now namespace sa_name sources merged = do
    spec_bytes ← to_vec merged
    ok (record {
      metadata = resource_meta namespace sa_name;
      spec = merged;
      status = some (record {
        providers = providers_summary merged.providers;
        conditions =
            record {
              type = ready;
              status = is_true;
              observed_generation = observed_of sources;
              reason = validated;
              message = "resolved and validated";
              last_transition_time = now;
            }
            ∷ [];
        sources = sources;
        config_hash = some (sha256_hex spec_bytes);
        last_error = none;
      });
    })

unfoldable pub build_failed_resolved :
    Time → String → String → List CloudRoleBindingRef → MergeIssue → ResolvedCloudRoleBinding
unfolding observed_of
build_failed_resolved now namespace sa_name sources issue = record {
  metadata = resource_meta namespace sa_name;
  spec = record {
    subject = record { service_account_name = sa_name };
    attributes = none;
    providers = no_providers;
  };
  status = some (record {
    providers = "";
    conditions =
        record {
          type = ready;
          status = is_false;
          observed_generation = observed_of sources;
          reason = issue.reason;
          message = issue.message;
          last_transition_time = now;
        }
        ∷ [];
    sources = sources;
    config_hash = none;
    last_error = some issue.message;
  });
}

-- The conditions that `build_crb_status` pushes behind the first.
abbrev issue_conditions : Time → ℤ → Option MergeIssue → List Condition
issue_conditions now generation (some i) = elim i.condition_type [
  | ready ↦ []
  | type ↦
      record {
        type = type;
        status = is_true;
        observed_generation = generation;
        reason = i.reason;
        message = i.message;
        last_transition_time = now;
      }
      ∷ []
]
issue_conditions now generation none =
    record {
      type = conflict;
      status = is_false;
      observed_generation = generation;
      reason = validated;
      message = "no conflicts";
      last_transition_time = now;
    }
    ∷ record {
      type = invalid_spec;
      status = is_false;
      observed_generation = generation;
      reason = validated;
      message = "spec is valid";
      last_transition_time = now;
    }
    ∷ []

unfoldable pub build_crb_status :
    Time → CloudRoleBinding → Bool → Option MergeIssue → CloudRoleBindingStatus
unfolding providers_summary
build_crb_status now crb is_ready issue =
    let generation = unwrap_or crb.metadata.generation (pos 0) in
    record {
      providers = providers_summary crb.spec.providers;
      conditions =
          record {
            type = ready;
            status = if is_ready then is_true else is_false;
            observed_generation = generation;
            reason =
                if is_ready then validated else unwrap_or (option_map (λ i. i.reason) issue) error;
            message =
                if is_ready
                then "validated"
                else unwrap_or (option_map (λ i. i.message) issue) "not ready";
            last_transition_time = now;
          }
          ∷ issue_conditions now generation issue;
      last_error = if is_ready then none else option_map (λ i. i.message) issue;
    }
