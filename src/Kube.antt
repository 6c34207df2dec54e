-- ===== src/Kube.antt =====
-- The Kubernetes objects of package rbac/v1 that the code builds: the fields that it sets; and what
-- a cache of objects answers.
pub mod Pod
pub mod Workload
use rio.Prelude.{Text, List}
use rio.Prelude.Int.{ℤ}
use rio.Kube.Pod.{KubeProtocol}

pub record PolicyRule : Type 0 where
  pub verbs : List Text
  pub api_groups : List Text
  pub resources : List Text
  pub resource_names : List Text
  pub non_resource_urls : List Text

pub record RoleRef : Type 0 where
  pub api_group : Text
  pub kind : Text
  pub name : Text

pub record Subject : Type 0 where
  pub kind : Text
  pub name : Text
  pub namespace : Text

pub record ObjectMeta : Type 0 where
  pub name : Text
  pub namespace : Text
  pub labels : List (Text × Text)

-- What is added to the object set, in order.
pub data Object : Type 0 where
  service_account : ObjectMeta → Object
  role : ObjectMeta → List PolicyRule → Object
  cluster_role : ObjectMeta → List PolicyRule → Object
  role_binding : ObjectMeta → Subject → RoleRef → Object
  cluster_role_binding : ObjectMeta → Subject → RoleRef → Object

-- A port of a core/v1 service, with the numeric target port.
pub record ServicePort : Type 0 where
  pub name : Text
  pub port : ℤ
  pub protocol : KubeProtocol
  pub target_port : ℤ

-- A lookup in a cache.
pub data Cached (A : Type 0) : Type 0 where
  found : A → Cached A
  not_found failed : Cached A
