-- ===== src/VsFactory/Target.antt =====
-- modules/gloo/pkg/vsfactory/target.go: the targets of an app, their hosts and their shares of the
-- traffic. Parameters are url.Parse, of which the code reads the host, SafeConcatName of package
-- wrangler, and the lister of endpoints: the numbers of subsets of the endpoints of a namespace, an
-- app and a version, or none on an error.
pub mod Hosts
pub mod Shares
use rio.Prelude.{
  Text, str, is_cons, ℕ, ◌==◌, Bool, true, false, not, ◌&&◌, ◌||◌, Option, none, some, List, [],
  ◌∷◌, ◌++◌, map, if◌then◌else◌,
}
use rio.Prelude.Int.{ℤ, pos, eqb_ℤ, add64, sub64}
use rio.Prelude.Unique.{Unique, none_kept, add_new}
use rio.Prelude.Sort.{sort}
use rio.Float.Defs.{Float64}
use rio.Api.Service.{Service, ContainerPort, is_http, is_exposed}
use rio.Services.{app_and_version}
use rio.Ports.{container_ports}

pub record Target : Type 0 where
  pub hosts : List Text
  pub port : ℤ
  pub name : Text
  pub app : Text
  pub version : Text
  pub namespace : Text
  pub weight : ℤ
  pub scale_is_zero : Bool
  pub original_name : Text
  pub original_namespace : Text

unfoldable pub valid : Target → Bool
valid t = not (eqb_ℤ t.port (pos 0)) && is_cons t.hosts

abbrev pub autoscaler_service_name : Text
autoscaler_service_name = str "autoscaler"

-- The key of a host is the host.
abbrev pub itself : Text → Text
itself host = host

module _ (parse_host : Text → Option Text) where
  -- Adds the hosts of URLs that are new, unless one does not parse.
  unfoldable pub add_hosts : List Text → Unique Text → Option (Unique Text)
  add_hosts [] found = some found
  add_hosts (endpoint ∷ endpoints) found = elim (parse_host endpoint) [
    | none ↦ none
    | some host ↦ add_hosts endpoints (add_new itself host found)
  ]

  unfoldable pub determine_hosts : List Text → Option (List Text)
  unfolding add_hosts
  determine_hosts endpoints = elim (add_hosts endpoints none_kept) [
    | none ↦ none
    | some found ↦ some (sort found.kept)
  ]

-- There are endpoints, and none has an address.
unfoldable pub is_scale_zero : List ℕ → Bool
is_scale_zero [] = false
is_scale_zero (e ∷ es) = all_zero (e ∷ es)
  where
    all_zero : List ℕ → Bool
    all_zero [] = true
    all_zero (subsets ∷ es) = if subsets == 0 then all_zero es else false

-- The last port that is exposed and speaks HTTP.
unfoldable pub http_port : List ContainerPort → ℤ → ℤ
unfolding is_exposed is_http
http_port [] found = found
http_port (p ∷ ports) found = http_port ports (if is_exposed p && is_http p then p.port else found)

abbrev weight_of : Service → ℤ
weight_of service = elim service.status.computed_weight [
  | some w ↦ w
  | none ↦ elim service.spec.weight [ some w ↦ w | none ↦ pos 0 ]
]

-- The target of a service without its hosts.
unfoldable pub base_target : (List Text → Text) → Service → Target
unfolding app_and_version http_port container_ports
base_target safe_concat_name service =
    let (app, version) = app_and_version service in
    record {
      hosts = [];
      port = http_port (container_ports service) (pos 0);
      name = safe_concat_name (app ∷ version ∷ []);
      app = app;
      version = version;
      namespace = service.namespace;
      weight = weight_of service;
      scale_is_zero = false;
      original_name = [];
      original_namespace = [];
    }

-- The autoscaler stands in for a service without addresses.
unfoldable pub to_autoscaler : Text → Service → Target → Target
to_autoscaler system_namespace service t = record t {
  scale_is_zero = true;
  port = pos 80;
  original_name = service.name;
  original_namespace = t.namespace;
  name = autoscaler_service_name;
  namespace = system_namespace;
}

module _ (parse_host : Text → Option Text) (safe_concat_name : List Text → Text)
    (list_endpoints : Text → Text → Text → Option (List ℕ)) (system_namespace : Text) where
  unfoldable pub scaled : Service → Target → Option Target
  unfolding is_scale_zero to_autoscaler
  scaled service t = elim service.status.computed_replicas [
    | none ↦ some t
    | some replicas ↦ elim (list_endpoints t.app t.version t.namespace) [
      | none ↦ none
      | some endpoints ↦
          some (if is_scale_zero endpoints then to_autoscaler system_namespace service t else t)
    ]
  ]

  unfoldable pub get_target : Service → Option Target
  unfolding base_target determine_hosts scaled
  get_target service = elim (determine_hosts parse_host service.status.endpoints) [
    | none ↦ none
    | some hosts ↦ scaled service (record (base_target safe_concat_name service) { hosts = hosts })
  ]

  -- The loop of getTargetsForApp over the services: host names, targets, and whether one has a
  -- weight.
  unfoldable pub add_services :
      List Service → Unique Text → List Target → Bool → Option (Unique Text × List Target × Bool)
  unfolding get_target add_hosts
  add_services [] hostnames targets weight_set = some (hostnames, targets, weight_set)
  add_services (service ∷ services) hostnames targets weight_set =
      let skipped = add_services services hostnames targets weight_set in
      if service.spec.template then skipped else elim (get_target service) [
        | none ↦ none
        | some target ↦ elim (add_hosts parse_host service.status.app_endpoints hostnames) [
          | none ↦ none
          | some more ↦
              add_services services more (targets ++ (target ∷ []))
                (weight_set || not (eqb_ℤ target.weight (pos 0)))
        ]
      ]

-- The sum of the weights, added up from the first.
unfoldable pub add_weights : List Target → ℤ → ℤ
add_weights [] total = total
add_weights (t ∷ targets) total = add_weights targets (add64 total t.weight)

abbrev one_weight : Target → Target
one_weight t = record t { weight = pos 1 }

module _ (f : Float64) where
  -- int(float64(weight) / float64(total) * 100)
  unfoldable pub percentage : ℤ → ℤ → ℤ
  percentage weight total =
      f.to_int (f.mul (f.div (f.of_int weight) (f.of_int total)) (f.of_int (pos 100)))

  -- The last target takes what is left of 100.
  unfoldable pub percentages : ℤ → ℤ → List Target → List Target
  percentages total added [] = []
  percentages total added (t ∷ []) = record t { weight = sub64 (pos 100) added } ∷ []
  percentages total added (t ∷ u ∷ targets) =
      let share = percentage t.weight total in
      record t { weight = share } ∷ percentages total (add64 added share) (u ∷ targets)

  unfoldable pub spread : Bool → List Target → List Target
  unfolding percentages add_weights
  spread weight_set targets =
      if weight_set
      then percentages (add_weights targets (pos 0)) (pos 0) targets
      else map one_weight targets

  unfoldable pub get_targets_for_app :
      (Text → Option Text)
      → (List Text → Text)
      → (Text → Text → Text → Option (List ℕ))
      → Text
      → List Service
      → Option (List Text × List Target)
  unfolding add_services spread
  get_targets_for_app parse_host safe_concat_name list_endpoints system_namespace services =
      elim (add_services parse_host safe_concat_name list_endpoints system_namespace services
        none_kept [] false) [
          | none ↦ none
          | some (hostnames, targets, weight_set) ↦ some (hostnames.kept, spread weight_set targets)
        ]
