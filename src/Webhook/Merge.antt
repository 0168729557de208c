-- ===== src/Webhook/Merge.antt =====
-- app/crates/kif-webhook/src/merge.rs: `merge_inputs`. A `return Err` in the loops is an `err`; the
-- four locals that the outer loop changes are the record `Merged`.
pub mod Build
pub mod Order
pub mod Failure
pub mod Tracks
pub mod Sound
pub mod Tests
pub mod Compatible
pub mod Extras
use kubernetes_identity_fede.Base.{
  String, ◌<>◌, Bool, true, false, not, ◌||◌, Option, none, some, List, [], ◌∷◌, Result, ok, err,
  ◌>>=◌, ◌>>◌, ensure, ok_or, unwrap_or, option_or, is_some, filter_map, filter, if◌then◌else◌,
  ◌==◌, bool_has_eq,
}
use kubernetes_identity_fede.Base.Text.{is_empty}
use kubernetes_identity_fede.Base.BTreeMap.{BTreeMap, insert, contains_key, lookup}
use kubernetes_identity_fede.Api.Bindings.{
  AttributesSpec, AwsProviderSpec, ProvidersSpec, ResolvedCloudRoleBindingSpec,
}
use kubernetes_identity_fede.Api.Status.{
  CloudRoleBinding, ConditionType, conflict, invalid_spec, ConditionReason, provider_conflict,
  attribute_conflict, validation_failed,
}

pub record MergeIssue : Type 0 where
  pub condition_type : ConditionType
  pub reason : ConditionReason
  pub message : String
  pub affected_crb_names : List String

abbrev pub MergeResult : Type 0 → Type 0
MergeResult A = Result A MergeIssue

pub record Merged : Type 0 where
  pub aws : Option AwsProviderSpec
  pub aws_set_by : Option String
  pub include_prov : Option Bool
  pub extra : BTreeMap String

abbrev pub nothing_merged : Merged
nothing_merged = record { aws = none; aws_set_by = none; include_prov = none; extra = [] }

abbrev pub crb_name : CloudRoleBinding → String
crb_name crb = unwrap_or crb.metadata.name ""

abbrev pub crb_names : List CloudRoleBinding → List String
crb_names = filter_map (λ c. c.metadata.name)

abbrev pub provider_present : ProvidersSpec → Bool
provider_present p = is_some p.aws || (is_some p.azure || is_some p.gcp)

abbrev pub no_provider_issue : String → MergeIssue
no_provider_issue name = record {
  condition_type = invalid_spec;
  reason = validation_failed;
  message = "CloudRoleBinding must set at least one provider block";
  affected_crb_names = name ∷ [];
}

abbrev pub aws_issue : Option String → String → MergeIssue
aws_issue set_by name = record {
  condition_type = conflict;
  reason = provider_conflict;
  message = "conflict: multiple CloudRoleBindings set providers.aws";
  affected_crb_names = filter (λ n. not (is_empty n)) (unwrap_or set_by "" ∷ name ∷ []);
}

abbrev pub attribute_issue : List String → String → MergeIssue
attribute_issue names message = record {
  condition_type = conflict;
  reason = attribute_conflict;
  message = message;
  affected_crb_names = names;
}

abbrev pub empty_issue : List String → MergeIssue
empty_issue names = record {
  condition_type = invalid_spec;
  reason = validation_failed;
  message = "no providers configured after merge";
  affected_crb_names = names;
}

-- The block on `providers.aws`.
unfoldable pub take_aws : String → Option AwsProviderSpec → Merged → MergeResult Merged
take_aws name none m = ok m
take_aws name (some p) m =
    if is_some m.aws
    then err (aws_issue m.aws_set_by name)
    else ok (record m { aws = some p; aws_set_by = some name })

-- The block on `includeProvenance`, with the value found before.
unfoldable pub take_include : List String → Option Bool → Option Bool → MergeResult (Option Bool)
take_include names none prev = ok prev
take_include names (some v) none = ok (some v)
take_include names (some v) (some prev) =
    if prev == v
    then ok (some prev)
    else err (attribute_issue names "conflict: includeProvenance differs across CloudRoleBindings")

-- The loop over `attributes.extra`.
unfoldable pub take_extra :
    List String → BTreeMap String → BTreeMap String → MergeResult (BTreeMap String)
take_extra names [] extra = ok extra
take_extra names ((k, v) ∷ entries) extra =
    let rest = take_extra names entries (insert k v extra) in
    if contains_key k extra
    then err (attribute_issue names ("conflict: duplicate attributes.extra key: " <> k))
    else rest

abbrev include_of : Option AttributesSpec → Option Bool
include_of none = none
include_of (some a) = a.include_provenance

abbrev extra_of : Option AttributesSpec → BTreeMap String
extra_of none = []
extra_of (some a) = unwrap_or a.extra []

abbrev pub crb_include : CloudRoleBinding → Option Bool
crb_include crb = include_of crb.spec.attributes

abbrev pub crb_extra : CloudRoleBinding → BTreeMap String
crb_extra crb = extra_of crb.spec.attributes

-- One round of the loop over the inputs.
unfoldable pub merge_one : List String → CloudRoleBinding → Merged → MergeResult Merged
merge_one names crb m = do
  ensure (provider_present crb.spec.providers) (no_provider_issue (crb_name crb))
  m' ← take_aws (crb_name crb) crb.spec.providers.aws m
  include_prov ← take_include names (crb_include crb) m'.include_prov
  extra ← take_extra names (crb_extra crb) m'.extra
  ok (record m' { include_prov = include_prov; extra = extra })

unfoldable pub merge_loop : List String → List CloudRoleBinding → Merged → MergeResult Merged
merge_loop names [] m = ok m
merge_loop names (crb ∷ crbs) m = merge_one names crb m >>= merge_loop names crbs

abbrev none_if_empty : BTreeMap String → Option (BTreeMap String)
none_if_empty [] = none
none_if_empty (e ∷ es) = some (e ∷ es)

-- The value that `merge_inputs` returns after its loop.
abbrev pub merged_spec : String → AwsProviderSpec → Merged → ResolvedCloudRoleBindingSpec
merged_spec sa_name aws m = record {
  subject = record { service_account_name = sa_name };
  attributes = some (record {
    include_provenance = option_or m.include_prov (some true);
    extra = none_if_empty m.extra;
  });
  providers = record { aws = some aws; azure = none; gcp = none };
}

unfoldable pub merge_inputs :
    String → List CloudRoleBinding → MergeResult ResolvedCloudRoleBindingSpec
unfolding merge_loop merge_one take_aws take_include take_extra lookup insert
merge_inputs sa_name inputs = do
  m ← merge_loop (crb_names inputs) inputs nothing_merged
  aws ← ok_or m.aws (empty_issue (crb_names inputs))
  ok (merged_spec sa_name aws m)
