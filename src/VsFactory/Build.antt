-- ===== src/VsFactory/Build.antt =====
-- modules/gloo/pkg/vsfactory/gloo.go: a virtual service for targets.
use rio.Prelude.{Text, str, Option, none, some, List, [], ◌∷◌, map, if◌then◌else◌}
use rio.Prelude.Int.{ℤ, pos, to_uint32}
use rio.VsFactory.Gloo.{
  VirtualService, Route, RouteOptions, Matcher, PathSpecifier, Action, KubeDestination,
  WeightedKube, HeaderValueOption,
}
use rio.VsFactory.Router.{no_options}
use rio.VsFactory.Target.{Target}

abbrev pub rio_name_header : Text
rio_name_header = str "X-Rio-ServiceName"

abbrev pub rio_namespace_header : Text
rio_namespace_header = str "X-Rio-Namespace"

-- 30 and 2 seconds.
abbrev pub overall_timeout : ℤ
overall_timeout = pos 30_000_000_000

abbrev pub per_try_timeout : ℤ
per_try_timeout = pos 2_000_000_000

unfoldable pub destination : Target → KubeDestination
destination t = record {
  ref = record { name = t.name; namespace = t.namespace };
  port = to_uint32 t.port;
}

unfoldable pub single : Target → Action
unfolding destination
single t = Action.single (destination t)

unfoldable pub weighted_destination : Target → WeightedKube
unfolding destination
weighted_destination t = record { destination = destination t; weight = to_uint32 t.weight }

unfoldable pub new_route_action : List Target → Option Action
unfolding single weighted_destination
new_route_action [] = none
new_route_action (t ∷ []) = some (single t)
new_route_action (t ∷ u ∷ targets) =
    some (Action.multi (map weighted_destination (t ∷ u ∷ targets)))

header : Text → Text → HeaderValueOption
header key value = record { key = key; value = value; append = none }

-- Retries for the first target that is scaled to zero.
unfoldable pub scaling_options : Target → RouteOptions
unfolding header
scaling_options t = record no_options {
  timeout = some overall_timeout;
  retries =
      some (record { retry_on = str "5xx"; num_retries = 10; per_try_timeout = per_try_timeout });
  header_manipulation = some (record {
    request_headers_to_add =
        header rio_name_header t.original_name
        ∷ header rio_namespace_header t.original_namespace
        ∷ [];
    request_headers_to_remove = [];
  });
}

unfoldable pub new_route_plugin : List Target → Option RouteOptions
unfolding scaling_options
new_route_plugin [] = none
new_route_plugin (t ∷ targets) =
    let rest = new_route_plugin targets in
    if t.scale_is_zero then some (scaling_options t) else rest

abbrev pub prefix_matcher : Text → Matcher
prefix_matcher path = record {
  path_specifier = some (PathSpecifier.prefix path);
  headers = [];
  methods = [];
}

-- The one route of a virtual service for targets.
unfoldable pub target_route : List Target → Route
unfolding new_route_action new_route_plugin
target_route targets = record {
  matchers = prefix_matcher (str "/") ∷ [];
  action = new_route_action targets;
  options = new_route_plugin targets;
}

unfoldable pub new_gloo_virtual_service : Text → Text → List Text → List Target → VirtualService
unfolding target_route
new_gloo_virtual_service namespace name hosts targets = record {
  name = name;
  namespace = namespace;
  domains = hosts;
  routes = target_route targets ∷ [];
  ssl_config = none;
}
