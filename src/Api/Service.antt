-- ===== src/Api/Service.antt =====
-- The custom resources of pkg/apis/rio.cattle.io/v1, service_types.go and auth.go: the fields that
-- the modelled code reads or writes. A pointer is an `Option`, a slice a `List`.
use rio.Prelude.{Text, Bool, true, false, Option, none, some, List}
use rio.Prelude.Int.{ℤ}
use rio.Kube.Pod.{Probe, HostAlias, IntOrString}

-- The `Protocol` constants; `unset` is the empty string, `other` any other string.
pub data Protocol : Type 0 where
  unset tcp udp sctp http http2 grpc : Protocol
  other : Text → Protocol

-- `int32` fields are integers in the range of 32 bits.
pub record ContainerPort : Type 0 where
  pub name : Text
  pub expose : Option Bool
  pub protocol : Protocol
  pub port : ℤ
  pub target_port : ℤ
  pub host_port : Bool

pub record Volume : Type 0 where
  pub name : Text
  pub path : Text
  pub host_path : Text
  pub host_path_type : Option Text
  pub persistent : Bool

pub record Permission : Type 0 where
  pub role : Text
  pub verbs : List Text
  pub api_group : Text
  pub resource : Text
  pub url : Text
  pub resource_name : Text

pub record ContainerSecurityContext : Type 0 where
  pub run_as_user : Option ℤ
  pub run_as_group : Option ℤ
  pub read_only_root_filesystem : Option Bool
  pub privileged : Option Bool

pub record DataMount : Type 0 where
  pub target : Text
  pub name : Text
  pub key : Text

pub record EnvVar : Type 0 where
  pub name : Text
  pub value : Text
  pub secret_name : Text
  pub config_map_name : Text
  pub key : Text

pub record VolumeTemplate : Type 0 where
  pub labels : List (Text × Text)
  pub annotations : List (Text × Text)
  pub name : Text
  pub access_modes : List Text
  pub storage_request : ℤ
  pub storage_class_name : Text
  pub volume_mode : Option Text

pub record ImageBuildSpec : Type 0 where
  pub repo : Text

-- `security_context` is the embedded *ContainerSecurityContext.
pub record Container : Type 0 where
  pub image : Text
  pub image_build : Option ImageBuildSpec
  pub command : List Text
  pub args : List Text
  pub working_dir : Text
  pub ports : List ContainerPort
  pub env : List EnvVar
  pub cpu_millis : Option ℤ
  pub memory_bytes : Option ℤ
  pub secrets : List DataMount
  pub configs : List DataMount
  pub liveness_probe : Option Probe
  pub readiness_probe : Option Probe
  pub image_pull_policy : Text
  pub stdin : Bool
  pub stdin_once : Bool
  pub tty : Bool
  pub volumes : List Volume
  pub security_context : Option ContainerSecurityContext

pub record NamedContainer : Type 0 where
  pub name : Text
  pub init : Bool
  pub container : Container

-- `MinReplicas` and `MaxReplicas` are *int32.
pub record AutoscaleConfig : Type 0 where
  pub min_replicas : Option ℤ
  pub max_replicas : Option ℤ

pub record RolloutConfig : Type 0 where
  pub increment : ℤ
  pub interval_seconds : ℤ
  pub pause : Bool

pub record PodDnsConfigOption : Type 0 where
  pub name : Text
  pub value : Option Text

pub record Dns : Type 0 where
  pub policy : Text
  pub nameservers : List Text
  pub searches : List Text
  pub options : List PodDnsConfigOption

-- With the embedded PodConfig and its embedded Container.
pub record ServiceSpec : Type 0 where
  pub container : Container
  pub sidecars : List NamedContainer
  pub hostname : Text
  pub host_aliases : List HostAlias
  pub host_network : Bool
  pub image_pull_secrets : List Text
  pub volume_templates : List VolumeTemplate
  pub dns : Option Dns
  pub template : Bool
  pub max_unavailable : Option IntOrString
  pub max_surge : Option IntOrString
  pub global : Bool
  pub version : Text
  pub app : Text
  pub weight : Option ℤ
  pub replicas : Option ℤ
  pub autoscale : Option AutoscaleConfig
  pub rollout_config : Option RolloutConfig
  pub service_mesh : Option Bool
  pub request_timeout_seconds : Option ℤ
  pub permissions : List Permission
  pub global_permissions : List Permission

pub record ScaleStatus : Type 0 where
  pub unavailable : ℤ
  pub available : ℤ

pub record ServiceStatus : Type 0 where
  pub deployment_ready : Bool
  pub scale_status : Option ScaleStatus
  pub computed_app : Text
  pub computed_version : Text
  pub computed_replicas : Option ℤ
  pub computed_weight : Option ℤ
  pub endpoints : List Text
  pub app_endpoints : List Text

-- The metadata that the code reads, with the specification and the status.
pub record Service : Type 0 where
  pub name : Text
  pub namespace : Text
  pub uid : Text
  pub labels : List (Text × Text)
  pub annotations : List (Text × Text)
  pub deleting : Bool
  pub spec : ServiceSpec
  pub status : ServiceStatus

unfoldable pub is_http : ContainerPort → Bool
is_http p = elim p.protocol [ unset ↦ true | http ↦ true | http2 ↦ true | _ ↦ false ]

unfoldable pub is_exposed : ContainerPort → Bool
unfolding is_http
is_exposed p = elim p.expose [ some b ↦ b | none ↦ is_http p ]
