-- ===== src/Rdns/Cluster.antt =====
-- What the handler of modules/rdns/controllers/service reads: the caches, the client of the DNS
-- server, the controller's flags and the order of ranges, which are parameters.
use rio.Prelude.{Text, Bool, Option, List}
use rio.Prelude.Int.{ℤ}
use rio.Kube.{Cached}
use rio.Api.Domain.{Address}
use rio.Config.{ConfigMap, Codec}

pub record TargetRef : Type 0 where
  pub kind : Text
  pub namespace : Text
  pub name : Text

pub record EndpointAddress : Type 0 where
  pub ip : Text
  pub hostname : Text
  pub target_ref : Option TargetRef

pub data NodeAddress : Type 0 where
  external_ip internal_ip other_address : Text → NodeAddress

pub record GatewayPort : Type 0 where
  pub name : Text
  pub port : ℤ
  pub node_port : ℤ

-- The fields of a core/v1 service that the handler reads; `load_balancer` is its status.
pub record GatewayService : Type 0 where
  pub name : Text
  pub namespace : Text
  pub service_type : Text
  pub external_name : Text
  pub cluster_ip : Text
  pub ports : List GatewayPort
  pub load_balancer : List Address

pub record Ingress : Type 0 where
  pub name : Text
  pub namespace : Text
  pub load_balancer : List Address

-- What GetDomain of the client tells.
pub data DomainLookup : Type 0 where
  there missing forbidden error : DomainLookup

pub record Client : Type 0 where
  pub get_domain : Bool → DomainLookup
  pub create_domain : List Text → Bool → Bool
  -- Whether the domain is there after the wait of five seconds.
  pub appears : Bool → Bool
  pub update_domain : List Text → Bool → Option Text

pub record Environment : Type 0 where
  pub config_key : Text
  pub codec : Codec
  -- The flags of the controller.
  pub ip_addresses : Text
  pub mesh_mode : Text
  pub config_map : Option ConfigMap
  -- The addresses of the subsets, one after the other.
  pub endpoints : Text → Text → Cached (List EndpointAddress)
  -- The name of the pod's node.
  pub pods : Text → Text → Cached Text
  pub nodes : Text → Cached (List NodeAddress)
  pub client : Client
  pub range_keys : List Text → List Text
