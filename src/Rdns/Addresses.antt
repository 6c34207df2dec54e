-- ===== src/Rdns/Addresses.antt =====
-- The addresses of the gateway, of modules/rdns/controllers/service/handler.go.
use rio.Prelude.{
  Text, str, text_eq, is_empty, is_cons, not, ◌||◌, Bool, true, false, Option, none, some, List, [],
  ◌∷◌, ◌++◌, map, if◌then◌else◌, split_on, any,
}
use rio.Prelude.Unique.{has}
use rio.Kube.{found, not_found, failed}
use rio.Api.Domain.{Address}
use rio.Config.{from_config_map}
use rio.Rdns.Cluster.{
  EndpointAddress, NodeAddress, external_ip, internal_ip, other_address, GatewayService,
  Environment,
}

module _ (env : Environment) where
  abbrev ip_address : Text → Address
  ip_address ip = record { ip = ip; hostname = [] }

  abbrev host_address : Text → Address
  host_address name = record { ip = []; hostname = name }

  unfoldable pub static_address : Option (List Address)
  static_address =
      if not (is_empty env.ip_addresses)
      then some (map ip_address (split_on b',' env.ip_addresses))
      else elim env.config_map [
        | none ↦ none
        | some cm ↦ elim (from_config_map env.codec cm) [
          | none ↦ none
          | some config ↦ some config.gateway.static_addresses
        ]
      ]

  abbrev pub is_set : Address → Bool
  is_set a = not (is_empty a.ip) || not (is_empty a.hostname)

  -- The loop that keeps the addresses that are set.
  unfoldable pub set_addresses : List Address → List Address
  set_addresses [] = []
  set_addresses (a ∷ addresses) =
      let rest = set_addresses addresses in if is_set a then a ∷ rest else rest

  unfoldable pub headless_addresses : List EndpointAddress → List Address
  headless_addresses [] = []
  headless_addresses (a ∷ addresses) =
      (if is_empty a.ip then [] else ip_address a.ip ∷ [])
      ++ (if is_empty a.hostname then [] else host_address a.hostname ∷ [])
      ++ headless_addresses addresses

  -- The first external address, else the last internal one, else `internal`.
  unfoldable pub node_ip : Text → List NodeAddress → Text
  node_ip internal [] = internal
  node_ip internal (external_ip a ∷ addresses) = a
  node_ip internal (internal_ip a ∷ addresses) = node_ip a addresses
  node_ip internal (other_address a ∷ addresses) = node_ip internal addresses

  unfoldable pub get_node_ip_for_pod : Text → Text → Option Text
  unfolding node_ip
  get_node_ip_for_pod namespace name = elim (env.pods namespace name) [
    | failed ↦ none
    | not_found ↦ some []
    | found node ↦ elim (env.nodes node) [
      | failed ↦ none
      | not_found ↦ some []
      | found addresses ↦ some (node_ip [] addresses)
    ]
  ]

  -- The address of the node for an endpoint: empty for one that is no pod.
  unfoldable pub pod_ip : EndpointAddress → Option Text
  pod_ip a = elim a.target_ref [
    | none ↦ some []
    | some ref ↦
        if text_eq ref.kind (str "Pod") then get_node_ip_for_pod ref.namespace ref.name else some []
  ]

  -- The keys of `ips`, of which `seen` are there.
  unfoldable pub node_ips : List EndpointAddress → List Text → Option (List Text)
  unfolding pod_ip
  node_ips [] seen = some seen
  node_ips (a ∷ addresses) seen = elim (pod_ip a) [
    | none ↦ none
    | some ip ↦
        node_ips addresses (if is_empty ip then seen else if has ip seen then seen else ip ∷ seen)
  ]

  -- The addresses, and whether they are those of node ports.
  abbrev pub Addresses : Type 0
  Addresses = Option (List Address × Bool)

  unfoldable pub get_address_headless : GatewayService → Addresses
  unfolding headless_addresses
  get_address_headless svc = elim (env.endpoints svc.namespace svc.name) [
    | failed ↦ none
    | not_found ↦ some ([], false)
    | found addresses ↦ some (headless_addresses addresses, false)
  ]

  unfoldable pub get_address_node_port : GatewayService → Addresses
  unfolding node_ips
  get_address_node_port svc = elim (env.endpoints svc.namespace svc.name) [
    | failed ↦ none
    | not_found ↦ some ([], false)
    | found addresses ↦ elim (node_ips addresses []) [
      | none ↦ none
      | some ips ↦ some (map ip_address (env.range_keys ips), true)
    ]
  ]

  unfoldable pub dynamic_addresses : GatewayService → Addresses
  unfolding set_addresses get_address_headless get_address_node_port
  dynamic_addresses svc =
      let by_load_balancer = set_addresses svc.load_balancer in
      if text_eq svc.service_type (str "ExternalName")
      then (if is_empty svc.external_name
          then some ([], false)
          else some (host_address svc.external_name ∷ [], false))
      else if text_eq svc.cluster_ip (str "None")
      then get_address_headless svc
      else if is_cons by_load_balancer
      then some (by_load_balancer, false)
      else get_address_node_port svc

  unfoldable pub get_addresses : GatewayService → Addresses
  unfolding static_address dynamic_addresses
  get_addresses svc = elim static_address [
    | none ↦ none
    | some result ↦
        if is_cons result
        then some (result, not (any is_set svc.load_balancer))
        else dynamic_addresses svc
  ]
