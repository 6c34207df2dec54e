-- ===== src/RouterHandler.antt =====
-- modules/service/controllers/router: controller.go and populate/services.go, the Kubernetes service
-- of a router. The codec of the configuration and the resolver's caches are parameters.
pub mod Laws
use rio.Prelude.{
  Text, str, text_eq, is_empty, ◌&&◌, ◌||◌, Bool, true, false, Option, none, some, List, [], ◌∷◌,
  ◌++◌, if◌then◌else◌,
}
use rio.Config.{Config, ConfigMap, Codec, from_config_map}
use rio.Api.Router.{Router}
use rio.Endpoints.{Resolver, router_endpoints}

-- The fields of the handler that it changes.
pub record Handler : Type 0 where
  pub gateway_name : Text
  pub gateway_namespace : Text

abbrev pub new_handler : Handler
new_handler = record { gateway_name = []; gateway_namespace = [] }

-- A core/v1 service of the type ExternalName.
pub record ExternalService : Type 0 where
  pub namespace : Text
  pub name : Text
  pub labels : List (Text × Text)
  pub external_name : Text

-- The objects with the endpoints of the status.
pub data Outcome : Type 0 where
  failed skipped : Outcome
  generated : List ExternalService → List Text → Outcome

-- The handler, whether all routers are enqueued, and whether there is no error.
pub record Changed : Type 0 where
  pub handler : Handler
  pub enqueued : Bool
  pub ok : Bool

unfoldable pub set_gateway : Config → Handler → Changed
set_gateway config h =
    let unchanged : Changed = record { handler = h; enqueued = false; ok = true } in
    if text_eq h.gateway_name config.gateway.service_name
      && text_eq h.gateway_namespace config.gateway.service_namespace
    then unchanged
    else record {
      handler = record {
        gateway_name = config.gateway.service_name;
        gateway_namespace = config.gateway.service_namespace;
      };
      enqueued = true;
      ok = true;
    }

-- `config_key` is the key of the config map of the configuration.
unfoldable pub on_config_map : Codec → Text → Text → Option ConfigMap → Handler → Changed
unfolding set_gateway
on_config_map codec config_key key none h = record { handler = h; enqueued = false; ok = true }
on_config_map codec config_key key (some cm) h =
    let read : Changed = elim (from_config_map codec cm) [
      | none ↦ record { handler = h; enqueued = false; ok = false }
      | some config ↦ set_gateway config h
    ] in
    if text_eq key config_key then read else record { handler = h; enqueued = false; ok = true }

unfoldable pub service_for_router : Router → Text → Text → ExternalService
service_for_router r gateway_namespace gateway_name = record {
  namespace = r.namespace;
  name = r.name;
  labels = (str "app", r.name) ∷ (str "version", str "v0") ∷ [];
  external_name = gateway_name ++ (str "." ++ (gateway_namespace ++ str ".svc.cluster.local"));
}

unfoldable pub generate_router : Resolver → Handler → Router → Outcome
generate_router resolver h router =
    let built : Outcome = elim (router_endpoints resolver router) [
      | none ↦ failed
      | some endpoints ↦
          generated (service_for_router router h.gateway_namespace h.gateway_name ∷ []) endpoints
    ] in
    if is_empty h.gateway_namespace || is_empty h.gateway_name then skipped else built
