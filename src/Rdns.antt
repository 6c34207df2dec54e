-- ===== src/Rdns.antt =====
-- modules/rdns/controllers/service: handler.go and rdns.go, the cluster domain of the gateway, over
-- Rdns/Cluster.antt, what the handler reads, and Rdns/Addresses.antt, the addresses that it finds.
-- The goroutine that start() begins renews the domain and touches no state.
pub mod Cluster
pub mod Addresses
pub mod Reach
pub mod Laws
use rio.Prelude.{
  Text, str, text_eq, is_empty, is_cons, not, ◌&&◌, ◌||◌, Bool, true, false, Option, none, some,
  List, [], ◌∷◌, ◌++◌, if◌then◌else◌,
}
use rio.Prelude.Int.{pos}
use rio.Api.Domain.{Address, ClusterDomain}
use rio.Config.{Config, ConfigMap, from_config_map, value_of}
use rio.Rdns.Cluster.{
  GatewayPort, GatewayService, Ingress, there, missing, forbidden, error, Environment,
}
use rio.Rdns.Addresses.{set_addresses, get_addresses}

-- The mutable fields of the handler.
pub record Handler : Type 0 where
  pub started : Bool
  pub gateway_name : Text
  pub gateway_namespace : Text
  pub ingress_name : Text
  pub ingress_namespace : Text

abbrev pub new_handler : Handler
new_handler = record {
  started = false;
  gateway_name = [];
  gateway_namespace = [];
  ingress_name = [];
  ingress_namespace = [];
}

-- `start` sets `started`, and begins to renew the domain the first time.
abbrev pub start : Handler → Handler
start h = record h { started = true }

unfoldable pub set_gateway : Config → Handler → Handler
set_gateway config h =
    if text_eq config.gateway.service_name h.gateway_name
      && text_eq config.gateway.service_namespace h.gateway_namespace
    then h
    else start (record h {
      gateway_name = config.gateway.service_name;
      gateway_namespace = config.gateway.service_namespace;
    })

unfoldable pub set_ingress : Config → Handler → Handler
set_ingress config h =
    if text_eq config.gateway.ingress_name h.ingress_name
      && text_eq config.gateway.ingress_namespace h.ingress_namespace
    then h
    else start (record h {
      ingress_name = config.gateway.ingress_name;
      ingress_namespace = config.gateway.ingress_namespace;
    })

-- What is enqueued, by namespace and name.
pub data Enqueued : Type 0 where
  service ingress : Text → Text → Enqueued

unfoldable pub enqueued : Handler → List Enqueued
enqueued h =
    (if not (is_empty h.gateway_name) && not (is_empty h.gateway_namespace)
      then service h.gateway_namespace h.gateway_name ∷ []
      else [])
    ++ (if not (is_empty h.ingress_name) && not (is_empty h.ingress_namespace)
        then ingress h.ingress_namespace h.ingress_name ∷ []
        else [])

pub data Outcome : Type 0 where
  failure skip nothing : Outcome
  generated : ClusterDomain → Outcome

module _ (env : Environment) where
  -- The handler, what it enqueues, and whether there is no error.
  unfoldable pub on_config_map_change :
      Text → Option ConfigMap → Handler → Handler × List Enqueued × Bool
  unfolding set_gateway set_ingress enqueued
  on_config_map_change key none h = (h, [], true)
  on_config_map_change key (some cm) h =
      let changed : Handler × List Enqueued × Bool = elim (from_config_map env.codec cm) [
        | none ↦ (h, [], false)
        | some config ↦
            let next = set_ingress config (set_gateway config h) in (next, enqueued next, true)
      ] in
      if text_eq env.config_key key then changed else (h, [], true)

  -- The hosts up to the first name, and whether there is one.
  unfoldable pub hosts_of : List Address → List Text × Bool
  hosts_of [] = ([], false)
  hosts_of (a ∷ addresses) =
      let (hosts, cname) = hosts_of addresses in
      if not (is_empty a.hostname)
      then (a.hostname ∷ [], true)
      else if not (is_empty a.ip)
      then (a.ip ∷ hosts, cname)
      else (hosts, cname)

  -- Whether there is no error.
  unfoldable pub ensure_domain_exists : List Text → Bool → Bool
  ensure_domain_exists hosts cname =
      let created = env.client.create_domain hosts cname && env.client.appears cname in
      elim (env.client.get_domain cname) [
        | there ↦ true
        | error ↦ false
        | forbidden ↦ created
        | missing ↦ created
      ]

  unfoldable pub get_domain : List Address → Option Text
  unfolding hosts_of ensure_domain_exists
  get_domain addresses =
      let (hosts, cname) = hosts_of addresses in
      if ensure_domain_exists hosts cname then env.client.update_domain hosts cname else none

  abbrev http_port_map : List (Text × Text)
  http_port_map = (str "istio", str "http2") ∷ (str "linkerd", str "http") ∷ []

  -- A round of the loop over the ports.
  unfoldable pub set_port : Bool → GatewayPort → ClusterDomain → ClusterDomain
  set_port node_port p domain =
      let number =
        if node_port && text_eq env.mesh_mode (str "linkerd") then p.node_port else p.port in
      if text_eq p.name (value_of env.mesh_mode http_port_map)
      then record domain { http_port = number }
      else if text_eq p.name (str "https")
      then record domain { https_port = number }
      else domain

  unfoldable pub set_ports : Bool → List GatewayPort → ClusterDomain → ClusterDomain
  unfolding set_port
  set_ports node_port [] domain = domain
  set_ports node_port (p ∷ ports) domain = set_ports node_port ports (set_port node_port p domain)

  abbrev pub domain_of : Text → Text → List Address → ClusterDomain
  domain_of name namespace addresses = record {
    name = name;
    namespace = namespace;
    addresses = addresses;
    https_port = pos 0;
    http_port = pos 0;
    assigned_secret_name = [];
    https_supported = false;
  }

  -- The domain for addresses that were found.
  unfoldable pub with_domain : List Address → (Text → Outcome) → Outcome
  with_domain addresses make =
      if not (is_cons addresses) then nothing else elim (get_domain addresses) [
        | none ↦ failure
        | some name ↦ if is_empty name then nothing else make name
      ]

  unfoldable pub generate_from_service : Handler → GatewayService → Outcome
  unfolding with_domain set_ports
  generate_from_service h svc =
      if is_empty h.gateway_name
        || is_empty h.gateway_namespace
        || not (text_eq svc.namespace h.gateway_namespace)
        || not (text_eq svc.name h.gateway_name)
      then skip
      else elim (get_addresses env svc) [
        | none ↦ failure
        | some (addresses, node_port) ↦ with_domain addresses (λ name.
            generated (set_ports node_port svc.ports (domain_of name svc.namespace addresses)))
      ]

  unfoldable pub generate_from_ingress : Handler → Ingress → Outcome
  unfolding with_domain set_addresses
  generate_from_ingress h ing =
      let addresses = set_addresses env ing.load_balancer in
      if is_empty h.ingress_name
        || is_empty h.ingress_namespace
        || not (text_eq ing.namespace h.ingress_namespace)
        || not (text_eq ing.name h.ingress_name)
      then skip
      else with_domain addresses (λ name.
        generated (record (domain_of name ing.namespace addresses) {
          https_port = pos 443;
          http_port = pos 80;
        }))
