-- ===== src/Webhook/Mutate/Pod.antt =====
-- The Kubernetes types that app/crates/kif-webhook/src/mutate.rs builds and changes. A field that
-- the code neither reads nor writes, nor sets in a literal, is left out.
use kubernetes_identity_fede.Base.{ℕ, String, Bool, Option, List}
use kubernetes_identity_fede.Api.Bindings.{ObjectMeta}

pub record ObjectFieldSelector : Type 0 where
  pub api_version : Option String
  pub field_path : String

pub record EnvVarSource : Type 0 where
  pub field_ref : Option ObjectFieldSelector

pub record EnvVar : Type 0 where
  pub name : String
  pub value : Option String
  pub value_from : Option EnvVarSource

pub record VolumeMount : Type 0 where
  pub name : String
  pub mount_path : String
  pub read_only : Option Bool

pub record HttpGetAction : Type 0 where
  pub path : Option String
  pub port : ℕ

pub record Probe : Type 0 where
  pub http_get : Option HttpGetAction
  pub failure_threshold : Option ℕ
  pub period_seconds : Option ℕ

pub record Container : Type 0 where
  pub name : String
  pub image : Option String
  pub image_pull_policy : Option String
  pub restart_policy : Option String
  pub startup_probe : Option Probe
  pub env : Option (List EnvVar)
  pub volume_mounts : Option (List VolumeMount)

-- One source of a projected volume, with the fields that the code sets.
pub data VolumeProjection : Type 0 where
  service_account_token :
      (path : String) (audience : Option String) (expiration : Option ℕ) → VolumeProjection
  downward_api : (path : String) (field_ref : ObjectFieldSelector) → VolumeProjection
  config_map : (name key path : String) (optional : Bool) → VolumeProjection

pub record ProjectedVolumeSource : Type 0 where
  pub sources : Option (List VolumeProjection)

-- `EmptyDirVolumeSource::default()`, or another one.
pub data EmptyDirVolumeSource : Type 0 where
  default_dir other_dir : EmptyDirVolumeSource

pub record Volume : Type 0 where
  pub name : String
  pub projected : Option ProjectedVolumeSource
  pub empty_dir : Option EmptyDirVolumeSource

pub record PodSpec : Type 0 where
  pub automount_service_account_token : Option Bool
  pub volumes : Option (List Volume)
  pub init_containers : Option (List Container)
  pub containers : List Container
  pub service_account_name : Option String

pub record Pod : Type 0 where
  pub metadata : ObjectMeta
  pub spec : Option PodSpec
