-- ===== src/Tests/Handlers.antt =====
-- The handlers of services and of the cluster domain.
use rio.Prelude.{
  str, text_eq, is_empty, is_cons, ◌≡◌, refl, sym, true, false, none, some, [], ◌∷◌, if◌then◌else◌,
  Bool,
}
use rio.Prelude.Int.{pos}
use rio.Prelude.Maps.{lookup}
use rio.Api.Service.{Service}
use rio.Api.Domain.{ClusterDomain}
use rio.Config.{Config, ConfigMap, Codec, from_config_map, set_config, zero_config}
use rio.Workload.Populate.{populate_service}
use rio.ServiceHandler.{
  Environment, not_found, generated, ensure_features, kept, generate_service, zero_feature,
}
use rio.ServiceHandler.Laws.{IsFree, IsFiltered, generate_service-AreFree}
use rio.Rdns
use rio.Kube.{Cached}
use rio.Rdns.{
  Handler, new_handler, set_gateway, set_ingress, on_config_map_change, get_domain, hosts_of,
  ensure_domain_exists, with_domain, set_port, set_ports, generate_from_service,
}
use rio.Rdns.Cluster
use rio.Rdns.Cluster.{GatewayService, DomainLookup}
use rio.Rdns.Addresses.{get_addresses, static_address, dynamic_addresses, set_addresses}
use rio.Rdns.Reach.{IsReached, at_start, after_change}
use rio.Rdns.Laws.{generate_from_service_sound}
use rio.Tests.Data.{join}
use rio.Tests.Pods.{libraries, as_listed, with_volumes}

abbrev scaled_service : Service
scaled_service = record with_volumes {
  spec = record with_volumes.spec {
    autoscale = some (record { min_replicas = some (pos 1); max_replicas = some (pos 3) });
  };
}

abbrev scaling : Config
scaling = record zero_config {
  features = (str "autoscaling", record zero_feature { enabled = some true }) ∷ [];
}

abbrev stored : ConfigMap
stored = (str "config", str "{}") ∷ []

abbrev codec : Codec
codec = record {
  decode = λ s. if text_eq s (str "{}") then some zero_config else some scaling;
  encode = λ c. some (str "scaling");
}

abbrev environment : Environment
environment = record {
  config_map = some stored;
  update = λ cm. true;
  codec = codec;
  is_amd64 = true;
  claims = λ namespace name. not_found;
}

ensured : (ensure_features environment scaled_service).ok ≡ true
unfolding ensure_features from_config_map set_config lookup str text_eq
ensured = refl

generated_scaled :
    generate_service environment libraries as_listed join scaled_service
    ≡ generated
        (kept environment scaled_service (populate_service libraries as_listed join scaled_service))
unfolding generate_service
generated_scaled = rw ensured refl

generate_service-AreFree_example :
    IsFiltered
      (IsFree environment scaled_service)
      (populate_service libraries as_listed join scaled_service)
      (kept environment scaled_service (populate_service libraries as_listed join scaled_service))
generate_service-AreFree_example =
    generate_service-AreFree environment scaled_service libraries as_listed join _ generated_scaled

abbrev gateway_config : Config
gateway_config = record zero_config {
  gateway = record zero_config.gateway {
    service_name = str "gateway";
    service_namespace = str "rio-system";
  };
}

abbrev rdns_environment : Cluster.Environment
rdns_environment = record {
  config_key = str "rio-system/rio-config";
  codec = record { decode = λ s. some gateway_config; encode = λ c. none };
  ip_addresses = [];
  mesh_mode = str "linkerd";
  config_map = some stored;
  endpoints = λ namespace name. Cached.not_found;
  pods = λ namespace name. Cached.not_found;
  nodes = λ name. Cached.not_found;
  client = record {
    get_domain = λ cname. DomainLookup.there;
    create_domain = λ hosts cname. false;
    appears = λ cname. false;
    update_domain = λ hosts cname. some (str "on-rio.io");
  };
  range_keys = λ ks. ks;
}

abbrev told : Handler
told = record new_handler {
  started = true;
  gateway_name = str "gateway";
  gateway_namespace = str "rio-system";
}

told_gateway :
    (on_config_map_change rdns_environment
      (str "rio-system/rio-config")
      (some stored)
      new_handler).0
    ≡ told
unfolding on_config_map_change set_gateway set_ingress from_config_map lookup str text_eq
told_gateway = refl

told-IsReached : IsReached rdns_environment told
told-IsReached =
    rw (sym told_gateway)
      (after_change (str "rio-system/rio-config") (some stored) new_handler at_start)

abbrev load_balanced : GatewayService
load_balanced = record {
  name = str "gateway";
  namespace = str "rio-system";
  service_type = str "LoadBalancer";
  external_name = [];
  cluster_ip = str "10.43.0.1";
  ports =
      record { name = str "http"; port = pos 80; node_port = pos 30080 }
      ∷ record { name = str "https"; port = pos 443; node_port = pos 30443 }
      ∷ [];
  load_balancer = record { ip = str "1.2.3.4"; hostname = [] } ∷ [];
}

abbrev on_rio : ClusterDomain
on_rio = record {
  name = str "on-rio.io";
  namespace = str "rio-system";
  addresses = record { ip = str "1.2.3.4"; hostname = [] } ∷ [];
  https_port = pos 443;
  http_port = pos 80;
  assigned_secret_name = [];
  https_supported = false;
}

generated_domain : generate_from_service rdns_environment told load_balanced ≡ Rdns.generated on_rio
unfolding generate_from_service with_domain set_ports set_port get_addresses static_address
    dynamic_addresses set_addresses get_domain hosts_of ensure_domain_exists from_config_map lookup
    str text_eq
generated_domain = refl

generate_from_service_sound_example :
    (told.started ≡ true)
    × (load_balanced.name ≡ told.gateway_name)
    × (load_balanced.namespace ≡ told.gateway_namespace)
    × (is_empty on_rio.name ≡ false)
    × (on_rio.namespace ≡ load_balanced.namespace)
    × (is_cons on_rio.addresses ≡ true)
    × ((node_port : Bool) × (get_addresses rdns_environment load_balanced
          ≡ some (on_rio.addresses, node_port)))
generate_from_service_sound_example =
    generate_from_service_sound rdns_environment told load_balanced on_rio told-IsReached
      generated_domain
