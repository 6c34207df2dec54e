-- ===== src/VsFactory/Router/Laws.antt =====
-- What becomes of the parts of a route of modules/gloo/pkg/vsfactory/router.go, whatever the order
-- in which routeToRoute adds them.
use rio.Prelude.{
  Text, is_empty, ◌≡◌, ap, arith, Option, none, some, List, [], ◌∷◌, is_cons, true, if◌then◌else◌,
}
use rio.Prelude.Int.{ℤ, pos, mul64, to_uint32}
use rio.Api.Router.{
  RouteSpec, HeaderOperations, Fault, Redirect, Rewrite, Retry, Destination, WeightedDestination,
}
use rio.VsFactory.Gloo.{Route, RouteOptions, HeaderManipulation, RouteFaults, RetryPolicy}
use rio.VsFactory.Router.{
  second, headers_to_headers, fault_to_fault, if_set, base_route, add_redirect, add_mirror,
  add_retry, add_destinations, add_timeout, route_to_route,
}

-- The route has these options.
abbrev HasOptions : RouteOptions → Route → Type 0
HasOptions o route = route.options ≡ some o

abbrev headers_of : Option HeaderOperations → Option HeaderManipulation
headers_of headers = elim headers [ none ↦ none | some hs ↦ some (headers_to_headers hs) ]

abbrev faults_of : Option Fault → Option RouteFaults
faults_of fault = elim fault [ none ↦ none | some f ↦ some (fault_to_fault f) ]

abbrev set_text : Text → Option Text
set_text t = if is_empty t then none else some t

abbrev prefix_of : Option Rewrite → Option Text
prefix_of rewrite = elim rewrite [ none ↦ none | some r ↦ set_text r.path ]

abbrev host_of : Option Rewrite → Option Text
host_of rewrite = elim rewrite [ none ↦ none | some r ↦ set_text r.host ]

abbrev timeout_of : Option ℤ → Option ℤ
timeout_of seconds = elim seconds [ none ↦ none | some s ↦ some (mul64 s second) ]

abbrev per_try : Option ℤ → ℤ
per_try seconds = elim seconds [ none ↦ pos 0 | some s ↦ mul64 s second ]

abbrev retries_of : Option Retry → Option ℤ → Option RetryPolicy
retries_of retry seconds = elim retry [
  | none ↦ none
  | some r ↦ some (record {
    retry_on = [];
    num_retries = to_uint32 r.attempts;
    per_try_timeout = per_try seconds;
  })
]

-- Each option from its part of the route; the time limit of a retry is that of the route.
abbrev pub options_of : RouteSpec → RouteOptions
options_of route = record {
  header_manipulation = headers_of route.headers;
  faults = faults_of route.fault;
  prefix_rewrite = prefix_of route.rewrite;
  host_rewrite = host_of route.rewrite;
  timeout = timeout_of route.timeout_seconds;
  retries = retries_of route.retry route.timeout_seconds;
}

-- Two routes that differ in their action at most.
record SameButAction (r s : Route) : Type 0 where
  matchers : r.matchers ≡ s.matchers
  options : r.options ≡ s.options

module _ {r s : Route} (h : SameButAction r s) where
  SameButAction-retry :
      (retry : Option Retry) (seconds : Option ℤ)
      → SameButAction
          (if_set retry (λ found. add_retry found seconds) r)
          (if_set retry (λ found. add_retry found seconds) s)
  unfolding add_retry
  SameButAction-retry retry seconds = ground arith

  add_destinations-eq :
      (join : List Text → Text) (namespace : Text) (to : List WeightedDestination)
      → is_cons to ≡ true
      → add_destinations join namespace to r ≡ add_destinations join namespace to s
  unfolding add_destinations
  add_destinations-eq join namespace [] c = cc
  add_destinations-eq join namespace (to ∷ []) c = cc (h.matchers, h.options)
  add_destinations-eq join namespace (to ∷ other ∷ more) c = cc (h.matchers, h.options)

-- Neither a redirect nor a mirror changes more than the action.
SameButAction-diverted :
    (join : List Text → Text) (namespace : Text) (m n : Option Destination) (a b : Option Redirect)
    (r : Route)
    → SameButAction
        (if_set m (add_mirror join namespace) (if_set a add_redirect r))
        (if_set n (add_mirror join namespace) (if_set b add_redirect r))
unfolding add_mirror add_redirect
SameButAction-diverted join namespace m n a b r = ground arith

-- A route with destinations goes to them alone: its mirror and its redirect have no effect on the
-- route that is built.
pub destinations_win :
    (join : List Text → Text) (namespace : Text) (route : RouteSpec) (mirror : Option Destination)
    (redirect : Option Redirect)
    → is_cons route.to ≡ true
    → route_to_route join namespace (record route { mirror = mirror; redirect = redirect })
      ≡ route_to_route join namespace route
unfolding route_to_route base_route
destinations_win join namespace route mirror redirect some_to =
    ap (if_set route.timeout_seconds add_timeout) (
      add_destinations-eq
        (SameButAction-retry
          (SameButAction-diverted join namespace mirror route.mirror redirect route.redirect _)
          route.retry route.timeout_seconds)
        join namespace route.to some_to)
