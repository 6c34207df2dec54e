-- ===== src/App/Handler.antt =====
-- What the handler of a service's change asks of the API server.
use rio.Prelude.{◌≡◌, refl, Option, none, some, Option-cases, inl, inr, List, ◌∷◌}
use rio.Prelude.Maps.{lookup}
use rio.Api.Service.{Service}
use rio.Services.{app_and_version}
use rio.App.{
  KubeService, Request, Env, World, object_key, ports_for_service, new_service,
  service_equals_ports, update_existing, create_service, on_revisions, on_rio_service_change,
}

-- The request for what the cache has under the name of the app: an update of its ports, if it has
-- an object, and else a new one.
abbrev pub request_for : Env → Service → List Service → Option KubeService → Request
request_for env service revisions existing = elim existing [
  | none ↦
      Request.create
        (new_service env.to_lower service.namespace (app_and_version service).0 revisions)
  | some found ↦ Request.update (record found { ports = ports_for_service env.to_lower revisions })
]

module _ (env : Env) (service rev : Service) (revisions : List Service) (world : World) where
  on_revisions-requests :
      (on_revisions env service.namespace
        (app_and_version service).0
        (rev ∷ revisions)
        world).0.requests
      ≡ request_for env service
          (rev ∷ revisions)
          (lookup (object_key service.namespace (app_and_version service).0) world.cache)
        ∷ world.requests
  unfolding on_revisions update_existing create_service service_equals_ports
  on_revisions-requests =
      elim (Option-cases
        (lookup (object_key service.namespace (app_and_version service).0) world.cache)) [
          | inl e ↦ rw (e, on_revisions) refl
          | inr (existing, e) ↦ rw (e, on_revisions) refl
        ]

  on_rio_service_change-revisions :
      env.services_by_app (object_key service.namespace (app_and_version service).0)
        ≡ some (rev ∷ revisions)
      → on_rio_service_change env service world
        ≡ on_revisions env service.namespace (app_and_version service).0 (rev ∷ revisions) world
  unfolding on_rio_service_change
  on_rio_service_change-revisions h = rw (h, on_rio_service_change) refl

-- For a service of an app with revisions the handler sends one request, each time: it creates the
-- Kubernetes service of the app if the cache has none, and updates it if it has, even if its ports
-- are those of the revisions already.
pub on_rio_service_change-requests :
    (env : Env) (service rev : Service) (revisions : List Service) (world : World)
    → env.services_by_app (object_key service.namespace (app_and_version service).0)
      ≡ some (rev ∷ revisions)
    → (on_rio_service_change env service world).0.requests
      ≡ request_for env service
          (rev ∷ revisions)
          (lookup (object_key service.namespace (app_and_version service).0) world.cache)
        ∷ world.requests
on_rio_service_change-requests env service rev revisions world h =
    rw (on_rio_service_change-revisions env service rev revisions world h)
      (on_revisions-requests env service rev revisions world)
