-- ===== src/Kube/Workload.antt =====
-- The Kubernetes objects that the service controller generates: the fields that the code sets.
use rio.Prelude.{Text, Option, List}
use rio.Prelude.Int.{ℤ}
use rio.Kube.{Object, ServicePort}
use rio.Kube.Pod.{IntOrString, PodTemplateSpec, Quantity}

pub record WorkloadMeta : Type 0 where
  pub name : Text
  pub namespace : Text
  pub labels : List (Text × Text)
  pub annotations : List (Text × Text)

pub record PersistentVolumeClaim : Type 0 where
  pub meta : WorkloadMeta
  pub access_modes : List Text
  pub storage : Quantity
  pub storage_class_name : Option Text
  pub volume_mode : Option Text

pub record RollingUpdate : Type 0 where
  pub max_unavailable : Option IntOrString
  pub max_surge : Option IntOrString

-- `match_labels` is the selector.
pub record Deployment : Type 0 where
  pub meta : WorkloadMeta
  pub replicas : Option ℤ
  pub match_labels : List (Text × Text)
  pub template : PodTemplateSpec
  pub rolling_update : RollingUpdate

pub record StatefulSet : Type 0 where
  pub meta : WorkloadMeta
  pub replicas : Option ℤ
  pub match_labels : List (Text × Text)
  pub template : PodTemplateSpec
  pub volume_claim_templates : List PersistentVolumeClaim
  pub service_name : Text
  pub pod_management_policy : Text

pub record DaemonSet : Type 0 where
  pub meta : WorkloadMeta
  pub match_labels : List (Text × Text)
  pub template : PodTemplateSpec
  pub max_unavailable : Option IntOrString

pub record KubeService : Type 0 where
  pub meta : WorkloadMeta
  pub service_type : Text
  pub selector : List (Text × Text)
  pub ports : List ServicePort

-- What is added to the object set.
pub data Generated : Type 0 where
  access : Object → Generated
  kube_service : KubeService → Generated
  claim : PersistentVolumeClaim → Generated
  deployment : Deployment → Generated
  stateful_set : StatefulSet → Generated
  daemon_set : DaemonSet → Generated
