-- ===== src/VsFactory/Router.antt =====
-- modules/gloo/pkg/vsfactory/router.go: the route of a virtual service for each route of a router.
-- SafeConcatName of package wrangler is a parameter.
pub mod Laws
use rio.Prelude.{
  Text, str, is_empty, ℕ, ◌==◌, true, false, not, Option, none, some, List, [], ◌∷◌, ◌++◌, map,
  if◌then◌else◌,
}
use rio.Prelude.Int.{ℤ, pos, ltb_ℤ, mul64, to_uint32}
use rio.Api.Router.{
  RouteSpec, Match, StringMatch, HeaderMatch, HeaderOperations, NameValue, Fault, Redirect, Rewrite,
  Retry, Destination, WeightedDestination,
}
use rio.VsFactory.Gloo.{
  Route, RouteOptions, Matcher, HeaderMatcher, PathSpecifier, Action, ResourceRef, KubeDestination,
  WeightedKube, HeaderValueOption, HeaderManipulation, RouteFaults, RouteAbort, RouteDelay,
}

abbrev pub no_options : RouteOptions
no_options = record {
  header_manipulation = none;
  faults = none;
  prefix_rewrite = none;
  host_rewrite = none;
  timeout = none;
  retries = none;
}

abbrev pub second : ℤ
second = pos 1_000_000_000

abbrev pub millisecond : ℤ
millisecond = pos 1_000_000

added : NameValue → HeaderValueOption
added nv = record { key = nv.name; value = nv.value; append = some true }

set_to : NameValue → HeaderValueOption
set_to nv = record { key = nv.name; value = nv.value; append = none }

unfoldable pub headers_to_headers : HeaderOperations → HeaderManipulation
unfolding added set_to
headers_to_headers hs = record {
  request_headers_to_add = map added hs.add ++ map set_to hs.set;
  request_headers_to_remove = hs.remove;
}

unfoldable pub fault_to_fault : Fault → RouteFaults
fault_to_fault fault =
    let abort : RouteAbort = record {
      percentage = fault.percentage;
      http_status = to_uint32 fault.abort_http_status;
    } in
    let delay : RouteDelay = record {
      percentage = fault.percentage;
      fixed_delay = mul64 fault.delay_millis millisecond;
    } in
    record {
      abort = if ltb_ℤ (pos 0) fault.abort_http_status then some abort else none;
      delay = if ltb_ℤ (pos 0) fault.delay_millis then some delay else none;
    }

-- The switch on the kinds of a match: a regular expression comes before a prefix, and a prefix
-- before an exact string.
unfoldable pub path_specifier : StringMatch → Option PathSpecifier
path_specifier m =
    if not (is_empty m.regexp)
    then some (PathSpecifier.regex m.regexp)
    else if not (is_empty m.prefix)
    then some (PathSpecifier.prefix m.prefix)
    else if not (is_empty m.exact)
    then some (PathSpecifier.exact m.exact)
    else none

unfoldable pub header_matcher : HeaderMatch → HeaderMatcher
header_matcher h =
    let any_value : HeaderMatcher = record { name = h.name; value = []; regex = false } in
    elim h.value [
      | none ↦ any_value
      | some m ↦
          if not (is_empty m.regexp)
          then record any_value { regex = true; value = m.regexp }
          else if not (is_empty m.prefix)
          then record any_value { regex = true; value = str "^" ++ (m.prefix ++ str ".*") }
          else if not (is_empty m.exact)
          then record any_value { value = m.exact }
          else any_value
    ]

unfoldable pub match_to_match : Match → Matcher
unfolding path_specifier header_matcher
match_to_match m = record {
  path_specifier = elim m.path [
    | none ↦ some (PathSpecifier.prefix (str "/"))
    | some path ↦ path_specifier path
  ];
  headers = map header_matcher m.headers;
  methods = m.methods;
}

-- Port 80 unless one is given.
abbrev port_or_80 : ℕ → ℕ
port_or_80 port = if port == 0 then 80 else port

-- Changes the options of a route; the route under construction has some.
abbrev with_options : (RouteOptions → RouteOptions) → Route → Route
with_options f route = elim route.options [
  | none ↦ route
  | some options ↦ record route { options = some (f options) }
]

module _ (safe_concat_name : List Text → Text) where
  -- destinationToAction and destinationToRef: the name and the namespace of a destination.
  unfoldable pub destination_to_ref : Text → Destination → ResourceRef
  destination_to_ref namespace dest = record {
    name =
        if is_empty dest.version
        then dest.app
        else safe_concat_name ((dest.app ++ (str "-" ++ dest.version)) ∷ []);
    namespace = namespace;
  }

  unfoldable pub kube_destination : Text → Destination → KubeDestination
  unfolding destination_to_ref
  kube_destination namespace dest = record {
    ref = destination_to_ref namespace dest;
    port = port_or_80 dest.port;
  }

  unfoldable pub weighted : Text → WeightedDestination → WeightedKube
  unfolding kube_destination
  weighted namespace to = record {
    destination = kube_destination namespace to.destination;
    weight = to_uint32 to.weight;
  }

  unfoldable pub add_multi_destination : Text → List WeightedDestination → Route → Route
  unfolding weighted
  add_multi_destination namespace to route = record route {
    action = some (Action.multi (map (weighted namespace) to));
  }

  unfoldable pub add_single_destination : Text → WeightedDestination → Route → Route
  unfolding kube_destination
  add_single_destination namespace to route = record route {
    action = some (Action.single (kube_destination namespace to.destination));
  }

  unfoldable pub add_mirror : Text → Destination → Route → Route
  unfolding destination_to_ref
  add_mirror namespace mirror route = record route {
    action = some (Action.delegate (destination_to_ref namespace mirror));
  }

  -- The destinations: none, one, or several with weights.
  unfoldable pub add_destinations : Text → List WeightedDestination → Route → Route
  unfolding add_single_destination add_multi_destination
  add_destinations namespace [] route = route
  add_destinations namespace (to ∷ []) route = add_single_destination namespace to route
  add_destinations namespace (to ∷ other ∷ more) route =
      add_multi_destination namespace (to ∷ other ∷ more) route

unfoldable pub add_redirect : Redirect → Route → Route
add_redirect r route = record route {
  action = some (
      Action.redirect (record {
        host_redirect = r.host;
        https_redirect = r.to_https;
        path_redirect = if is_empty r.path then none else some r.path;
      }));
}

unfoldable pub add_rewrite : Rewrite → Route → Route
add_rewrite r = with_options λ options. record options {
  prefix_rewrite = if is_empty r.path then options.prefix_rewrite else some r.path;
  host_rewrite = if is_empty r.host then options.host_rewrite else some r.host;
}

unfoldable pub add_timeout : ℤ → Route → Route
add_timeout seconds =
    with_options λ options. record options { timeout = some (mul64 seconds second) }

unfoldable pub add_fault : Fault → Route → Route
unfolding fault_to_fault
add_fault fault = with_options λ options. record options { faults = some (fault_to_fault fault) }

unfoldable pub add_retry : Retry → Option ℤ → Route → Route
add_retry retry timeout_seconds =
    let per_try = elim timeout_seconds as (λ t. ℤ) [
      | none ↦ pos 0
      | some seconds ↦ mul64 seconds second
    ] in
    with_options λ options. record options {
      retries = some (record {
        retry_on = [];
        num_retries = to_uint32 retry.attempts;
        per_try_timeout = per_try;
      });
    }

-- `if p != nil { step }`
abbrev if_set : {A : Type 0} → Option A → (A → Route → Route) → Route → Route
if_set none step route = route
if_set (some a) step route = step a route

-- The route before the steps that change it.
unfoldable pub base_route : RouteSpec → Route
unfolding match_to_match headers_to_headers
base_route route = record {
  matchers = match_to_match route.match ∷ [];
  action = none;
  options = elim route.headers [
    | none ↦ some no_options
    | some headers ↦
        some (record no_options { header_manipulation = some (headers_to_headers headers) })
  ];
}

unfoldable pub route_to_route : (List Text → Text) → Text → RouteSpec → Route
unfolding base_route add_fault add_rewrite add_redirect add_mirror add_retry add_destinations
    add_timeout
route_to_route safe_concat_name namespace route = if_set route.timeout_seconds add_timeout (
    add_destinations safe_concat_name namespace route.to (
      if_set route.retry (λ retry. add_retry retry route.timeout_seconds)
        (if_set route.mirror (add_mirror safe_concat_name namespace) (
          if_set route.redirect add_redirect
            (if_set route.rewrite add_rewrite (if_set route.fault add_fault (base_route route)))))))
