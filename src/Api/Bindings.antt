-- ===== src/Api/Bindings.antt =====
-- app/crates/kif-api/src/crds.rs: the specs of CloudRoleBinding and ResolvedCloudRoleBinding.
-- Of the metadata of a resource the fields are kept that the services read or write.
use kubernetes_identity_fede.Base.{ℕ, String, Bool, true, Option, none}
use kubernetes_identity_fede.Base.BTreeMap.{BTreeMap}
use kubernetes_identity_fede.Base.Signed.{ℤ}

pub record SubjectRef : Type 0 where
  pub service_account_name : String

pub record AttributesSpec : Type 0 where
  pub include_provenance : Option Bool
  pub extra : Option (BTreeMap String)

pub record AwsProviderSpec : Type 0 where
  pub role_arn : String
  pub region : Option String
  pub sts_regional_endpoints : Bool
  pub audience : Option String
  -- a `u64`
  pub max_session_duration_seconds : Option ℕ

pub record AzureProviderSpec : Type 0 where
  pub tenant_id : String
  pub client_id : String
  pub audience : Option String

pub record GcpProviderSpec : Type 0 where
  pub workload_identity_provider : String
  pub service_account_email : String
  pub audience : Option String
  pub project_id : Option String

pub record ProvidersSpec : Type 0 where
  pub aws : Option AwsProviderSpec
  pub azure : Option AzureProviderSpec
  pub gcp : Option GcpProviderSpec

-- `ProvidersSpec::default()`
abbrev pub no_providers : ProvidersSpec
no_providers = record { aws = none; azure = none; gcp = none }

-- The serde default of `stsRegionalEndpoints`.
abbrev pub default_true : Bool
default_true = true

pub record CloudRoleBindingSpec : Type 0 where
  pub subject : SubjectRef
  pub attributes : Option AttributesSpec
  pub providers : ProvidersSpec

pub record ResolvedCloudRoleBindingSpec : Type 0 where
  pub subject : SubjectRef
  pub attributes : Option AttributesSpec
  pub providers : ProvidersSpec

-- `ObjectMeta`; the generation is an `i64`.
pub record ObjectMeta : Type 0 where
  pub name : Option String
  pub namespace : Option String
  pub generation : Option ℤ

abbrev pub no_metadata : ObjectMeta
no_metadata = record { name = none; namespace = none; generation = none }
