-- ===== src/Status.antt =====
-- modules/service/controllers/servicestatus/service.go: the status of a service, with IsReady of
-- pkg/deployment/status.go. A lookup in a cache finds an object, finds none, or fails.
pub mod Laws
use rio.Prelude.{
  Text, str, text_eq, any, ◌&&◌, Bool, true, false, Option, none, some, List, [], if◌then◌else◌,
}
use rio.Prelude.Int.{ℤ, pos, ltb_ℤ, sub64, to_int32}
use rio.Prelude.Maps.{lookup}
use rio.Api.Service.{Service, ServiceStatus, ScaleStatus}
use rio.Services.{app_and_version}
use rio.Endpoints.{Resolver, service_endpoints, app_endpoints}

-- The kinds of controllers with the numbers of their status; a condition is a type and a status.
pub data Controller : Type 0 where
  deployment : (available unavailable : ℤ) → (conditions : List (Text × Text)) → Controller
  daemon_set : (available unavailable : ℤ) → Controller
  stateful_set : (replicas ready : ℤ) → Controller

pub record Owned : Type 0 where
  pub labels : List (Text × Text)
  pub controller : Controller

pub data Lookup : Type 0 where
  found : Owned → Lookup
  not_found failed : Lookup

-- The caches, by namespace and name.
pub record Caches : Type 0 where
  pub deployments : Text → Text → Lookup
  pub daemon_sets : Text → Text → Lookup
  pub stateful_sets : Text → Text → Lookup

unfoldable pub is_ready : List (Text × Text) → Bool
unfolding any
is_ready = any (λ c. text_eq c.0 (str "Available") && text_eq c.1 (str "True"))

unfoldable pub get_replicas : Service → Option ℤ
get_replicas service = elim service.spec.autoscale [
  | none ↦ service.spec.replicas
  | some config ↦ service.status.computed_replicas
]

-- Unavailable pods of a stateful set, by subtraction of 32 bits: the numbers are counts.
unfoldable pub to_scale_status : Option Controller → Option ScaleStatus
to_scale_status none = none
to_scale_status (some (Controller.deployment available unavailable conditions)) =
    some (record { unavailable = unavailable; available = available })
to_scale_status (some (Controller.daemon_set available unavailable)) =
    some (record { unavailable = unavailable; available = available })
to_scale_status (some (Controller.stateful_set replicas ready)) =
    let unavailable = to_int32 (sub64 replicas ready) in
    some (record {
      unavailable = if ltb_ℤ unavailable (pos 0) then pos 0 else unavailable;
      available = ready;
    })

unfoldable pub to_ready : Option Controller → Bool
to_ready none = false
to_ready (some (Controller.deployment available unavailable conditions)) = is_ready conditions
to_ready (some (Controller.daemon_set available unavailable)) = ltb_ℤ (pos 0) available
to_ready (some (Controller.stateful_set replicas ready)) = ltb_ℤ (pos 0) ready

-- The label of the object names the service; a missing label reads as the empty string.
unfoldable pub has_label : Service → Owned → Bool
has_label service o = elim (lookup (str "rio.cattle.io/service") o.labels) [
  | none ↦ text_eq service.name []
  | some name ↦ text_eq service.name name
]

-- `isOwner` and the branches on its result: an error, this object, or the next kind.
unfoldable pub owner_or : Service → Lookup → Option (Option Controller) → Option (Option Controller)
owner_or service Lookup.failed next = none
owner_or service Lookup.not_found next = next
owner_or service (Lookup.found o) next =
    if has_label service o then some (some o.controller) else next

-- The controller of a service, if there is one, or an error.
unfoldable pub get_owner : Caches → Service → Option (Option Controller)
get_owner caches service = owner_or service (caches.deployments service.namespace service.name) (
    owner_or service (caches.daemon_sets service.namespace service.name)
      (owner_or service (caches.stateful_sets service.namespace service.name) (some none)))

-- The new status.
unfoldable pub updated :
    Service → ServiceStatus → Option Controller → List Text → List Text → ServiceStatus
updated service status owner endpoints app_urls =
    let (app, version) = app_and_version service in
    record status {
      endpoints = endpoints;
      app_endpoints = app_urls;
      scale_status = to_scale_status owner;
      deployment_ready = to_ready owner;
      computed_replicas = get_replicas service;
      computed_app = app;
      computed_version = version;
    }

-- The status that the handler returns, and whether there is no error.
unfoldable pub handle : Caches → Resolver → Service → ServiceStatus → ServiceStatus × Bool
handle caches resolver service status = elim (get_owner caches service) [
  | none ↦ (status, false)
  | some owner ↦ elim (service_endpoints resolver service) [
    | none ↦ (status, false)
    | some endpoints ↦ elim (app_endpoints resolver service) [
      | none ↦ (status, false)
      | some app_urls ↦ (updated service status owner endpoints app_urls, true)
    ]
  ]
]
