-- ===== src/Status/Laws.antt =====
-- What the handler of a status makes of it.
use rio.Prelude.{
  Text, ◌≡◌, refl, ap, ◌∙◌, ◌⊎◌, inl, inr, true, false, Option, some, Option-cases, List, arith,
}
use rio.Api.Service.{Service, ServiceStatus}
use rio.Services.{autoscale_enable}
use rio.Endpoints.{Resolver, service_endpoints, app_endpoints}
use rio.Scale.{set_for_autoscale, checked_scale, parse_scale}
use rio.Status.{
  Caches, Controller, Owned, Lookup, get_replicas, has_label, get_owner, updated, handle,
}

-- Either nothing was changed, or the status was updated.
handle-cases :
    (caches : Caches) (resolver : Resolver) (service : Service) (status : ServiceStatus)
    → (handle caches resolver service status ≡ (status, false))
      ⊎ ((owner : Option Controller) × (urls : List Text) × (app_urls : List Text) × (get_owner
              caches service
            ≡ some owner)
          × (handle caches resolver service status
              ≡ (updated service status owner urls app_urls, true)))
unfolding handle
handle-cases caches resolver service status = elim (Option-cases (get_owner caches service)) [
  | inl e ↦ inl (rw (e, handle) refl)
  | inr (owner, o) ↦ elim (Option-cases (service_endpoints resolver service)) [
    | inl e ↦ inl (rw (o, handle) (rw (e, handle) refl))
    | inr (urls, u) ↦ elim (Option-cases (app_endpoints resolver service)) [
      | inl e ↦ inl (rw (o, handle) (rw (u, handle) (rw (e, handle) refl)))
      | inr (app_urls, a) ↦
          inr (owner, urls, app_urls, o, rw (o, handle) (rw (u, handle) (rw (a, handle) refl)))
    ]
  ]
]

set_for_autoscale-updated :
    (service : Service)
    → set_for_autoscale (record service {
      status = record service.status { computed_replicas = get_replicas service };
    })
      ≡ set_for_autoscale service
unfolding get_replicas autoscale_enable
set_for_autoscale-updated service = ground arith

-- Whatever the handler finds and whether or not it fails, the number of replicas that is asked for
-- stays the same.
pub parse_scale-handle :
    (caches : Caches) (resolver : Resolver) (service : Service)
    → parse_scale (record service { status = (handle caches resolver service service.status).0 })
      ≡ parse_scale service
unfolding parse_scale updated checked_scale autoscale_enable
parse_scale-handle caches resolver service =
    elim (handle-cases caches resolver service service.status) [
      | inl e ↦ ap (λ h. parse_scale (record service { status = h.0 })) e
      | inr (owner, urls, app_urls, o, e) ↦
          ap (λ h. parse_scale (record service { status = h.0 })) e
          ∙ ap checked_scale (set_for_autoscale-updated service)
    ]

-- A kind of controller whose object of that name and namespace is this one.
abbrev pub IsFound : Caches → Service → Owned → Type 0
IsFound caches service o =
    (caches.deployments service.namespace service.name ≡ Lookup.found o)
    ⊎ (caches.daemon_sets service.namespace service.name ≡ Lookup.found o)
    ⊎ (caches.stateful_sets service.namespace service.name ≡ Lookup.found o)

-- The object carries the name of the service, and is the owner.
pub record IsOwner (service : Service) (c : Controller) (o : Owned) : Type 0 where
  pub labelled : has_label service o ≡ true
  pub same : o.controller ≡ c
