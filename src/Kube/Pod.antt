-- ===== src/Kube/Pod.antt =====
-- The types of Kubernetes' packages core/v1 and intstr that a pod is made of: the fields that the
-- code sets or reads.
use rio.Prelude.{Text, Bool, Option, List}
use rio.Prelude.Int.{ℤ}

pub record IntOrString : Type 0 where
  pub is_string : Bool
  pub int_val : ℤ
  pub str_val : Text

-- The ports of the HTTPGet and TCPSocket actions; the other fields are passed on as they are.
pub record Probe : Type 0 where
  pub http_get : Option IntOrString
  pub tcp_socket : Option IntOrString

pub record HostAlias : Type 0 where
  pub ip : Text
  pub hostnames : List Text

pub data KubeProtocol : Type 0 where
  tcp udp sctp : KubeProtocol

pub record KubeContainerPort : Type 0 where
  pub name : Text
  pub container_port : ℤ
  pub host_port : ℤ
  pub protocol : KubeProtocol

-- A quantity by the call that makes it: ParseQuantity and MustParse of a text, and NewQuantity with
-- the format BinarySI.
pub data Quantity : Type 0 where
  parse_quantity : Text → Quantity
  new_quantity : ℤ → Quantity

pub data EnvVarSource : Type 0 where
  config_map_key_ref : Text → Text → EnvVarSource
  secret_key_ref : Text → Text → EnvVarSource
  field_ref : Text → EnvVarSource
  -- A container and a resource.
  resource_field_ref : Text → Text → EnvVarSource

pub record KubeEnvVar : Type 0 where
  pub name : Text
  pub value : Text
  pub value_from : Option EnvVarSource

pub record VolumeMount : Type 0 where
  pub name : Text
  pub mount_path : Text
  pub sub_path : Text
  pub read_only : Bool

pub record SecurityContext : Type 0 where
  pub run_as_user : Option ℤ
  pub run_as_group : Option ℤ
  pub read_only_root_filesystem : Option Bool
  pub privileged : Option Bool

-- `requests` is `Resources.Requests`.
pub record KubeContainer : Type 0 where
  pub name : Text
  pub image : Text
  pub command : List Text
  pub args : List Text
  pub working_dir : Text
  pub liveness_probe : Option Probe
  pub readiness_probe : Option Probe
  pub image_pull_policy : Text
  pub stdin : Bool
  pub stdin_once : Bool
  pub tty : Bool
  pub requests : List (Text × Quantity)
  pub ports : List KubeContainerPort
  pub env : List KubeEnvVar
  pub volume_mounts : List VolumeMount
  pub security_context : Option SecurityContext

-- A secret has its name and `Optional`, a host path its path and type, a claim its name.
pub data VolumeSource : Type 0 where
  secret : Text → Bool → VolumeSource
  config_map : Text → VolumeSource
  empty_dir : VolumeSource
  host_path : Text → Option Text → VolumeSource
  persistent_volume_claim : Text → VolumeSource

pub record KubeVolume : Type 0 where
  pub name : Text
  pub source : VolumeSource

pub record KubeDnsOption : Type 0 where
  pub name : Text
  pub value : Option Text

pub record PodDnsConfig : Type 0 where
  pub options : List KubeDnsOption
  pub nameservers : List Text
  pub searches : List Text

-- An image pull secret is a reference by name.
pub record PodSpec : Type 0 where
  pub dns_config : Option PodDnsConfig
  pub dns_policy : Text
  pub host_aliases : List HostAlias
  pub hostname : Text
  pub host_network : Bool
  pub enable_service_links : Option Bool
  pub containers : List KubeContainer
  pub init_containers : List KubeContainer
  pub volumes : List KubeVolume
  pub image_pull_secrets : List Text
  pub service_account_name : Text
  pub automount_service_account_token : Option Bool

pub record PodTemplateSpec : Type 0 where
  pub labels : List (Text × Text)
  pub annotations : List (Text × Text)
  pub spec : PodSpec
