-- ===== src/Api/Status.antt =====
-- app/crates/kif-api/src/crds.rs: conditions, the two statuses, and the two resources.
-- A `Time` is a number of nanoseconds.
use kubernetes_identity_fede.Base.{ℕ, String, Option, List}
use kubernetes_identity_fede.Base.Signed.{ℤ}
use kubernetes_identity_fede.Api.Bindings.{
  ObjectMeta, CloudRoleBindingSpec, ResolvedCloudRoleBindingSpec,
}

abbrev pub Time : Type 0
Time = ℕ

pub data ConditionStatus : Type 0 where
  is_true is_false unknown : ConditionStatus

pub data ConditionType : Type 0 where
  ready conflict invalid_spec : ConditionType

pub data ConditionReason : Type 0 where
  validated provider_conflict attribute_conflict validation_failed error : ConditionReason

pub record Condition : Type 0 where
  pub type : ConditionType
  pub status : ConditionStatus
  pub observed_generation : ℤ
  pub reason : ConditionReason
  pub message : String
  pub last_transition_time : Time

pub record CloudRoleBindingRef : Type 0 where
  pub name : String
  pub generation : Option ℤ

pub record CloudRoleBindingStatus : Type 0 where
  pub providers : String
  pub conditions : List Condition
  pub last_error : Option String

pub record ResolvedCloudRoleBindingStatus : Type 0 where
  pub providers : String
  pub conditions : List Condition
  pub sources : List CloudRoleBindingRef
  pub config_hash : Option String
  pub last_error : Option String

pub record CloudRoleBinding : Type 0 where
  pub metadata : ObjectMeta
  pub spec : CloudRoleBindingSpec
  pub status : Option CloudRoleBindingStatus

pub record ResolvedCloudRoleBinding : Type 0 where
  pub metadata : ObjectMeta
  pub spec : ResolvedCloudRoleBindingSpec
  pub status : Option ResolvedCloudRoleBindingStatus
