-- ===== src/VsFactory/Factory/Redirects.antt =====
-- Where the redirects of a router's routes end up.
use rio.Prelude.{
  Text, str, is_empty, length, suc, ◌≡◌, ◌↔◌, refl, ap, ◌∙◌, All, All-of_Member, Member, Pointwise,
  Member-Pointwise, Pointwise-Member, arith, Bool-cases, inl, inr, true, none, some, List, [], ◌∷◌,
  ◌++◌, map, if◌then◌else◌,
}
use rio.Api.Router.{Router, RouteSpec}
use rio.VsFactory.Gloo.{VirtualService, Route, SslConfig, Action, PathSpecifier}
use rio.VsFactory.Router.{route_to_route, add_redirect}
use rio.VsFactory.Tls.{
  Caches, find_tls, tls_copy, tls_copies, inject_acme, acme_route, add_acme_routes,
}
use rio.VsFactory.Factory.{
  Env, domains, vs_for_router, redirected, redirect_routes, configure_https_redirect, inject_first,
  for_router,
}

-- The route that is built for a route of a router.
abbrev pub built_route : Env → Router → RouteSpec → Route
built_route env router = route_to_route env.caches.safe_concat_name router.namespace

-- The route that the virtual service without a certificate has for a route of the router, for which
-- `built` is built: it redirects if that redirects to HTTPS, and else does what `built` does.
pub record IsPlainRoute (spec : RouteSpec) (built route : Route) : Type 0 where
  pub matchers : route.matchers ≡ built.matchers
  pub options : route.options ≡ built.options
  pub action : route.action ≡ elim spec.redirect [
    | none ↦ built.action
    | some r ↦
        if r.to_https
        then some (
            Action.redirect (record {
              host_redirect = r.host;
              https_redirect = true;
              path_redirect = if is_empty r.path then none else some r.path;
            }))
        else built.action
  ]

redirected-IsPlainRoute :
    (spec : RouteSpec) (built : Route) → IsPlainRoute spec built (redirected spec built)
unfolding add_redirect
redirected-IsPlainRoute spec built = record {
  matchers = ground arith;
  options = ground arith;
  action = ground arith;
}

redirect_routes-ArePlain :
    (f : RouteSpec → Route) (specs : List RouteSpec)
    → Pointwise
        (λ spec route. IsPlainRoute spec (f spec) route)
        specs
        (redirect_routes specs (map f specs))
unfolding redirect_routes
redirect_routes-ArePlain f [] = tt
redirect_routes-ArePlain f (spec ∷ specs) =
    (redirected-IsPlainRoute spec (f spec), redirect_routes-ArePlain f specs)

-- A route to the solver of ACME challenges.
pub record IsSolverRoute (caches : Caches) (route : Route) : Type 0 where
  pub matchers : route.matchers ≡ (
      record {
        path_specifier = some (PathSpecifier.prefix (str "/.well-known/acme-challenge"));
        headers = [];
        methods = [];
      }
      ∷ [])
  pub action :
      route.action
      ≡ some (
          Action.single (record {
            ref = record { name = str "rio-acme-solver"; namespace = caches.system_namespace };
            port = 8080;
          }))

-- Solver routes in front of those of which P holds.
abbrev pub BehindSolvers : Caches → (List Route → Type 0) → List Route → Type 0
BehindSolvers caches P routes =
    (solvers : List Route) × (rest : List Route) × (routes ≡ solvers ++ rest)
    × All (IsSolverRoute caches) solvers
    × P rest

module _ (caches : Caches) (P : List Route → Type 0) where
  add_solver :
      (domain : Text) (routes : List Route)
      → BehindSolvers caches P routes
      → BehindSolvers caches P
          (if caches.has_public_domain domain then acme_route caches ∷ routes else routes)
  unfolding acme_route
  add_solver domain routes (solvers, rest, e, h, p) =
      elim (Bool-cases (caches.has_public_domain domain)) [
        | inl public ↦ rw public (
          acme_route caches ∷ solvers,
          rest,
          ap (λ rs. acme_route caches ∷ rs) e,
          (record { matchers = refl; action = refl }, h),
          p,
        )
        | inr private ↦ rw private (solvers, rest, e, h, p)
      ]

  add_acme_routes-BehindSolvers :
      (names : List Text) (routes : List Route)
      → BehindSolvers caches P routes
      → BehindSolvers caches P (add_acme_routes caches names routes)
  unfolding add_acme_routes
  add_acme_routes-BehindSolvers [] routes h = h
  add_acme_routes-BehindSolvers (name ∷ names) routes h =
      add_acme_routes-BehindSolvers names _ (add_solver name routes h)

-- The virtual service for a host name and its secret, with these routes.
pub record IsSecure (caches : Caches) (built : List Route) (e : Text × Text) (vs : VirtualService)
    : Type 0 where
  pub domains : vs.domains ≡ e.0 ∷ []
  pub config : SslConfig
  pub has_config : vs.ssl_config ≡ some config
  pub secret : config.secret ≡ record { name = e.1; namespace = caches.system_namespace }
  pub routes : vs.routes ≡ built

module _ (caches : Caches) (vs : VirtualService) where
  tls_copies-AreSecure :
      (found : List (Text × Text))
      → Pointwise (IsSecure caches vs.routes) found (tls_copies caches found vs)
  unfolding tls_copies tls_copy
  tls_copies-AreSecure [] = tt
  tls_copies-AreSecure ((hostname, tls) ∷ found) = (
    record { domains = refl; config = _; has_config = refl; secret = refl; routes = refl },
    tls_copies-AreSecure found,
  )

  length-tls_copies :
      (found : List (Text × Text)) → length (tls_copies caches found vs) ≡ length found
  unfolding tls_copies
  length-tls_copies [] = refl
  length-tls_copies ((hostname, tls) ∷ found) = ap suc (length-tls_copies found)

  configure-tls_copies :
      (router : Router) (found : List (Text × Text))
      → configure_https_redirect router (tls_copies caches found vs) ≡ tls_copies caches found vs
  unfolding configure_https_redirect tls_copies tls_copy
  configure-tls_copies router [] = refl
  configure-tls_copies router ((hostname, tls) ∷ found) =
      ap (λ rest. tls_copy caches hostname caches.system_namespace tls vs ∷ rest)
        (configure-tls_copies router found)

-- What Go's range over the map of certificates does: it meets each entry once.
pub record IsRanged (found ranged : List (Text × Text)) : Type 0 where
  pub same : (e : Text × Text) → Member e found ↔ Member e ranged
  pub once : length ranged ≡ length found

module _ (env : Env) (router : Router) (found : List Text) where
  built : VirtualService
  built = record {
    name = router.name;
    namespace = router.namespace;
    domains = found;
    routes = map (built_route env router) router.routes;
    ssl_config = none;
  }

  plain_service : VirtualService
  unfolding built
  plain_service =
      inject_acme env.caches (record built { routes = redirect_routes router.routes built.routes })

  vs_for_router-eq : domains env router ≡ some found → vs_for_router env router ≡ some built
  unfolding vs_for_router built
  vs_for_router-eq d = rw (d, vs_for_router) refl

  for_router-eq :
      (tls : List (Text × Text))
      → domains env router ≡ some found
      → find_tls env.caches router.namespace router.name [] found ≡ some tls
      → for_router env router
        ≡ some (plain_service ∷ tls_copies env.caches (env.caches.ranged tls) built)
  unfolding for_router plain_service built configure_https_redirect inject_first
  for_router-eq tls d t =
      rw (vs_for_router-eq d, for_router)
        (rw (t, for_router)
          (rw (configure-tls_copies env.caches built router (env.caches.ranged tls)) refl))

-- The virtual services of a router: `plain` for HTTP, and `copies`.
pub record AreServed (env : Env) (router : Router) (found : List Text) (tls : List (Text × Text))
    (plain : VirtualService) (copies : List VirtualService) : Type 0 where
  pub no_config : plain.ssl_config ≡ none
  pub domains : plain.domains ≡ found
  pub plain_routes :
      BehindSolvers env.caches
        (Pointwise
          (λ spec route. IsPlainRoute spec (built_route env router spec) route)
          router.routes)
        plain.routes
  pub some_copy :
      All
        (λ e.
          (vs : VirtualService) × Member vs copies
          × IsSecure env.caches (map (built_route env router) router.routes) e vs)
        tls
  pub only_copies :
      All
        (λ vs.
          (e : Text × Text) × Member e tls
          × IsSecure env.caches (map (built_route env router) router.routes) e vs)
        copies
  pub one_each : length copies ≡ length tls

-- If a router's endpoints parse and its certificates are found, it has one virtual service without
-- a certificate, for all of its domains, and one for each certificate, with the secret and the host
-- name. In the first, behind routes to the ACME solver, each route of the router that redirects to
-- HTTPS does only that, and each other route is as it was built; in the others all routes are as
-- they were built.
pub for_router-AreServed :
    (env : Env) (router : Router) (found : List Text) (tls : List (Text × Text))
    → IsRanged tls (env.caches.ranged tls)
    → domains env router ≡ some found
    → find_tls env.caches router.namespace router.name [] found ≡ some tls
    → (plain : VirtualService) × (copies : List VirtualService) × (for_router env router
        ≡ some (plain ∷ copies))
      × AreServed env router found tls plain copies
unfolding plain_service built inject_acme
for_router-AreServed env router found tls r d t =
    let secure = tls_copies-AreSecure env.caches (built env router found) (env.caches.ranged tls) in
    let copies = tls_copies env.caches (env.caches.ranged tls) (built env router found) in
    let IsCopy = IsSecure env.caches (map (built_route env router) router.routes) in
    (
      plain_service env router found,
      copies,
      for_router-eq env router found tls d t,
      record {
        no_config = refl;
        domains = refl;
        plain_routes =
            add_acme_routes-BehindSolvers env.caches _ found _
              ([], _, refl, tt, redirect_routes-ArePlain (built_route env router) router.routes);
        some_copy = All-of_Member tls (λ e m.
            Member-Pointwise IsCopy e (env.caches.ranged tls) copies secure ((r.same e).0 m));
        only_copies = All-of_Member copies λ vs m.
            let (e, at, h) = Pointwise-Member IsCopy vs (env.caches.ranged tls) copies secure m in
            (e, (r.same e).1 at, h);
        one_each =
            length-tls_copies env.caches (built env router found) (env.caches.ranged tls) ∙ r.once;
      },
    )
