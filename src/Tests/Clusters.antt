-- ===== src/Tests/Clusters.antt =====
-- The handlers of cluster roles and of routers.
use rio.Prelude.{
  str, text_eq, is_empty, ◌≡◌, refl, true, false, none, some, [], ◌∷◌, All, if◌then◌else◌,
}
use rio.Api.Service.{Service}
use rio.Api.Router.{Router}
use rio.Kube.{Cached}
use rio.Config.{Config, Codec, zero_config}
use rio.Endpoints.{Resolver}
use rio.GlobalRbac
use rio.GlobalRbac.{generate_cluster}
use rio.GlobalRbac.Laws.{IsCollected, generate_cluster-AreCollected}
use rio.RouterHandler.{generate_router, new_handler}
use rio.RouterHandler.Laws.{Changes, after, last_config, gateway_of, generate_router-last}
use rio.Tests.Data.{plain, get_pods, join}

-- A service that reads pods in all namespaces, and is no longer there.
abbrev reader : Service
reader = record plain { spec = record plain.spec { global_permissions = get_pods ∷ [] } }

abbrev emptied : GlobalRbac.Handler
emptied = record {
  services = λ namespace name. Cached.not_found;
  delete_binding = λ name. true;
  delete_role = λ name. true;
}

reader-named : is_empty reader.name ≡ false
unfolding str
reader-named = refl

reader-in_namespace : is_empty reader.namespace ≡ false
unfolding str
reader-in_namespace = refl

generate_cluster-AreCollected_example :
    All (IsCollected join reader emptied) (generate_cluster join reader)
generate_cluster-AreCollected_example =
    generate_cluster-AreCollected join reader emptied reader-in_namespace reader-named

abbrev with_gateway : Config
with_gateway = record zero_config {
  gateway = record zero_config.gateway {
    service_name = str "gateway-proxy";
    service_namespace = str "rio-system";
  };
}

abbrev codec : Codec
codec = record {
  decode = λ s. if text_eq s (str "{}") then some with_gateway else none;
  encode = λ c. none;
}

-- The gateway is read, and then a map of which the text is no configuration.
abbrev changes : Changes codec (str "rio-system/rio-config")
changes =
    (str "rio-system/rio-config", some ((str "config", str "?") ∷ []))
    ∷ (str "rio-system/rio-config", some ((str "config", str "{}") ∷ []))
    ∷ []

abbrev router : Router
router = record {
  name = str "web";
  namespace = str "default";
  routes = [];
  internal = true;
  endpoints = [];
}

abbrev resolver : Resolver
resolver = record {
  cluster_domains = none;
  public_domains_by_target = λ target. none;
  safe_concat_name = join;
}

generate_router-last_example :
    generate_router resolver (after codec (str "rio-system/rio-config") changes new_handler) router
    ≡ generate_router resolver
        (gateway_of (last_config codec (str "rio-system/rio-config") changes) new_handler)
        router
generate_router-last_example =
    generate_router-last codec (str "rio-system/rio-config") changes resolver new_handler router
