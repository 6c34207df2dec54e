-- ===== src/VsFactory/Factory.antt =====
-- modules/gloo/pkg/vsfactory/app.go, revision.go and router.go: the virtual services of an app, of a
-- revision and of a router; Domains is from modules/istio/controller/pkg/pkg.go. Parameters are the
-- caches, url.Parse, the lister of endpoints, float64 and sort.Slice.
pub mod Redirects
use rio.Prelude.{
  Text, is_cons, ℕ, ◌==◌, Bool, true, false, Option, none, some, List, [], ◌∷◌, map, if◌then◌else◌,
}
use rio.Prelude.Int.{ℤ, mul64, ltb_ℤ}
use rio.Prelude.Unique.{Unique, none_kept, add_new}
use rio.Float.Defs.{Float64}
use rio.Api.Service.{Service}
use rio.Api.Router.{Router, RouteSpec}
use rio.Services.{app_and_version}
use rio.VsFactory.Gloo.{VirtualService, Route, RouteOptions}
use rio.VsFactory.Router.{no_options, second, route_to_route, add_redirect}
use rio.VsFactory.Target.{Target, valid, get_target, get_targets_for_app, itself, add_hosts}
use rio.VsFactory.Build.{new_gloo_virtual_service}
use rio.VsFactory.Tls.{Caches, find_tls, tls_copies, tls_copies_with_secret, inject_acme}

pub record Env : Type 1 where
  pub caches : Caches
  pub parse_host : Text → Option Text
  pub list_endpoints : Text → Text → Text → Option (List ℕ)
  pub float64 : Float64
  pub sort_slice : (Service → Service → Bool) → List Service → List Service

-- Sets the timeout of the first route; its options are made if there are none.
abbrev with_timeout : ℤ → RouteOptions → RouteOptions
with_timeout seconds options = record options { timeout = some (mul64 seconds second) }

set_timeout : Option ℤ → List Route → List Route
set_timeout none routes = routes
set_timeout (some seconds) [] = []
set_timeout (some seconds) (r ∷ routes) =
    let options = elim r.options as (λ o. RouteOptions) [ none ↦ no_options | some o ↦ o ] in
    record r { options = some (with_timeout seconds options) } ∷ routes

-- The order that the services are sorted by.
unfoldable pub lighter : Service → Service → Bool
lighter a b = elim a.spec.weight [
  | none ↦ false
  | some v ↦ elim b.spec.weight [ none ↦ false | some w ↦ ltb_ℤ v w ]
]

-- The timeout of the last service.
last_timeout : List Service → Option ℤ
last_timeout [] = none
last_timeout (service ∷ []) = service.spec.request_timeout_seconds
last_timeout (service ∷ other ∷ more) = last_timeout (other ∷ more)

-- strings.SplitN(hostname, ":", 2)[0]
before_colon : Text → Text
before_colon [] = []
before_colon (c ∷ s) = let rest = before_colon s in if c == b':' then [] else c ∷ rest

strip_each : List Text → Unique Text → Unique Text
unfolding before_colon
strip_each [] found = found
strip_each (hostname ∷ hostnames) found =
    strip_each hostnames (add_new itself (before_colon hostname) found)

unfoldable pub strip_ports : List Text → List Text
unfolding strip_each
strip_ports hostnames = (strip_each hostnames none_kept).kept

module _ (env : Env) where
  targets_for_app : List Service → Option (List Text × List Target)
  targets_for_app =
      get_targets_for_app env.float64 env.parse_host env.caches.safe_concat_name env.list_endpoints
        env.caches.system_namespace

  -- The virtual service of an app before its certificates are looked up.
  unfoldable pub app_virtual_service :
      Text → Text → List Service → List Text → List Target → VirtualService
  unfolding lighter set_timeout last_timeout
  app_virtual_service namespace app_name services hostnames targets =
      let vs = new_gloo_virtual_service namespace app_name hostnames targets in
      let timeout = last_timeout (env.sort_slice lighter services) in
      inject_acme env.caches (record vs { routes = set_timeout timeout vs.routes })

  -- ForApp: the virtual services, or an error.
  unfoldable pub for_app : Text → Text → List Service → Option (List VirtualService)
  unfolding targets_for_app app_virtual_service
  for_app namespace app_name services = elim (targets_for_app services) [
    | none ↦ none
    | some (hostnames, targets) ↦
        let vs = app_virtual_service namespace app_name services hostnames targets in
        if is_cons hostnames
        then elim (find_tls env.caches namespace app_name [] hostnames) [
          | none ↦ none
          | some tls ↦ some (vs ∷ tls_copies_with_secret env.caches (env.caches.ranged tls) vs)
        ]
        else some []
  ]

  target_of : Service → Option Target
  target_of =
      get_target env.parse_host env.caches.safe_concat_name env.list_endpoints
        env.caches.system_namespace

  unfoldable pub revision_virtual_service : Service → Target → VirtualService
  unfolding set_timeout
  revision_virtual_service service target =
      let vs = new_gloo_virtual_service target.namespace target.name target.hosts (target ∷ []) in
      let timeout = service.spec.request_timeout_seconds in
      inject_acme env.caches (record vs { routes = set_timeout timeout vs.routes })

  -- ForRevision: the virtual services, and whether there is no error.
  unfoldable pub for_revision : Service → List VirtualService × Bool
  unfolding target_of revision_virtual_service
  for_revision service =
      let (app, version) = app_and_version service in
      elim (target_of service) [
        | none ↦ ([], false)
        | some target ↦
            let vs = revision_virtual_service service target in
            if valid target
            then elim (find_tls env.caches service.namespace app version target.hosts) [
              | none ↦ (vs ∷ [], false)
              | some tls ↦ (vs ∷ tls_copies_with_secret env.caches (env.caches.ranged tls) vs, true)
            ]
            else ([], true)
      ]

  unfoldable pub domains : Router → Option (List Text)
  domains router = elim (add_hosts env.parse_host router.endpoints none_kept) [
    | none ↦ none
    | some found ↦ some found.kept
  ]

  unfoldable pub vs_for_router : Router → Option VirtualService
  vs_for_router router = elim (domains router) [
    | none ↦ none
    | some found ↦ some (record {
      name = router.name;
      namespace = router.namespace;
      domains = found;
      routes = map (route_to_route env.caches.safe_concat_name router.namespace) router.routes;
      ssl_config = none;
    })
  ]

-- The loop over the routes of a router and of its virtual service.
abbrev pub redirected : RouteSpec → Route → Route
redirected r route = elim r.redirect [
  | none ↦ route
  | some redirect ↦ if redirect.to_https then add_redirect redirect route else route
]

unfoldable pub redirect_routes : List RouteSpec → List Route → List Route
redirect_routes [] routes = routes
redirect_routes (r ∷ specs) [] = []
redirect_routes (r ∷ specs) (route ∷ routes) = redirected r route ∷ redirect_routes specs routes

unfoldable pub configure_https_redirect : Router → List VirtualService → List VirtualService
configure_https_redirect router [] = []
configure_https_redirect router (vs ∷ vss) =
    elim vs.ssl_config [
      | some config ↦ vs
      | none ↦ record vs { routes = redirect_routes router.routes vs.routes }
    ]
    ∷ configure_https_redirect router vss

-- ForRouter: the first of the services is the one that the routes to the ACME solver are added to.
unfoldable pub inject_first : Caches → List VirtualService → List VirtualService
inject_first caches [] = []
inject_first caches (vs ∷ vss) = inject_acme caches vs ∷ vss

unfoldable pub for_router : Env → Router → Option (List VirtualService)
for_router env router = elim (vs_for_router env router) [
  | none ↦ none
  | some vs ↦ elim (find_tls env.caches router.namespace router.name [] vs.domains) [
    | none ↦ none
    | some tls ↦ some (
        inject_first env.caches
          (configure_https_redirect router (vs ∷ tls_copies env.caches (env.caches.ranged tls) vs)))
  ]
]
