-- ===== src/App.antt =====
-- modules/service/controllers/app/controller.go: the Kubernetes service of an app. The API server and
-- the index of services by app are parameters; the cache is shared, so what the handler does to an
-- object of it stays.
pub mod Ports
pub mod Handler
use rio.Prelude.{
  Text, str, is_empty, Bool, true, false, Option, none, some, List, [], ◌∷◌, ◌++◌, map,
  if◌then◌else◌,
}
use rio.Prelude.Int.{pos}
use rio.Prelude.Maps.{lookup, insert}
use rio.Prelude.Sort.{sort_by}
use rio.Api.Service.{Service}
use rio.Kube.{ServicePort}
use rio.Kube.Pod.{KubeProtocol}
use rio.Services.{app_and_version}
use rio.Ports.{service_named_ports}

pub record KubeService : Type 0 where
  pub namespace : Text
  pub name : Text
  pub labels : List (Text × Text)
  pub selector : List (Text × Text)
  pub ports : List ServicePort

-- `ports[port.Name] = port`
unfoldable pub add_named : List ServicePort → List (Text × ServicePort) → List (Text × ServicePort)
add_named [] ports = ports
add_named (p ∷ more) ports = add_named more (insert p.name p ports)

module _ (to_lower : Text → Text) where
  unfoldable pub add_revisions :
      List Service → List (Text × ServicePort) → List (Text × ServicePort)
  add_revisions [] ports = ports
  add_revisions (rev ∷ revisions) ports =
      add_revisions revisions (add_named (service_named_ports to_lower rev) ports)

  abbrev pub default_port : ServicePort
  default_port = record {
    name = str "default";
    port = pos 80;
    protocol = KubeProtocol.tcp;
    target_port = pos 80;
  }

  abbrev pub or_default : List ServicePort → List ServicePort
  or_default [] = default_port ∷ []
  or_default (p ∷ ports) = p ∷ ports

  -- The names of the map are distinct, so its order does not matter to the sorting.
  unfoldable pub ports_for_service : List Service → List ServicePort
  ports_for_service revisions =
      or_default (sort_by (λ p. p.name) (map (λ e. e.1) (add_revisions revisions [])))

  unfoldable pub new_service : Text → Text → List Service → KubeService
  new_service namespace app revisions = record {
    namespace = namespace;
    name = app;
    labels = (str "rio.cattle.io/app", app) ∷ [];
    selector = (str "app", app) ∷ [];
    ports = ports_for_service revisions;
  }

pub data Request : Type 0 where
  create update : KubeService → Request
  delete : (namespace name : Text) → Request

pub data Answer : Type 0 where
  accepted already_exists failed : Answer

pub record Env : Type 0 where
  pub to_lower : Text → Text
  pub services_by_app : Text → Option (List Service)
  pub answer : Request → Answer

-- The cache of services by namespace/name, and the requests sent, the last one first.
pub record World : Type 0 where
  pub cache : List (Text × KubeService)
  pub requests : List Request

abbrev pub object_key : Text → Text → Text
object_key namespace name = namespace ++ (str "/" ++ name)

-- reflect.DeepEqual of a service and a list of ports: values of different types are not equal.
unfoldable pub service_equals_ports : KubeService → List ServicePort → Bool
service_equals_ports existing ports = false

abbrev is_accepted : Answer → Bool
is_accepted Answer.accepted = true
is_accepted _ = false

abbrev exists_now : Answer → Bool
exists_now Answer.failed = false
exists_now _ = true

module _ (env : Env) where
  -- The branch for a service that exists; the result says whether there is no error.
  unfoldable pub update_existing : KubeService → List Service → World → World × Bool
  update_existing existing revisions world =
      let ports = ports_for_service env.to_lower revisions in
      let changed = record existing { ports = ports } in
      let sent : World = record {
        cache = insert (object_key existing.namespace existing.name) changed world.cache;
        requests = Request.update changed ∷ world.requests;
      } in
      if service_equals_ports existing ports
      then (world, true)
      else (sent, is_accepted (env.answer (Request.update changed)))

  unfoldable pub create_service : Text → Text → List Service → World → World × Bool
  create_service namespace app revisions world =
      let request = Request.create (new_service env.to_lower namespace app revisions) in
      (record world { requests = request ∷ world.requests }, exists_now (env.answer request))

  unfoldable pub on_revisions : Text → Text → List Service → World → World × Bool
  on_revisions namespace app [] world = (world, true)
  on_revisions namespace app (rev ∷ revisions) world =
      elim (lookup (object_key namespace app) world.cache) [
        | none ↦ create_service namespace app (rev ∷ revisions) world
        | some existing ↦ update_existing existing (rev ∷ revisions) world
      ]

  unfoldable pub on_rio_service_change : Service → World → World × Bool
  on_rio_service_change service world =
      let (app, version) = app_and_version service in
      elim (env.services_by_app (object_key service.namespace app)) [
        | none ↦ (world, false)
        | some revisions ↦ on_revisions service.namespace app revisions world
      ]

  unfoldable pub on_no_revisions : KubeService → List Service → World → World × Bool
  on_no_revisions service [] world =
      let request = Request.delete service.namespace service.name in
      (record world { requests = request ∷ world.requests }, is_accepted (env.answer request))
  on_no_revisions service (rev ∷ revisions) world = (world, true)

  unfoldable pub on_service_change : KubeService → World → World × Bool
  on_service_change service world = elim (lookup (str "rio.cattle.io/app") service.labels) [
    | none ↦ (world, true)
    | some app ↦
        let outcome : World × Bool = elim (env.services_by_app (object_key service.namespace app)) [
          | none ↦ (world, false)
          | some revisions ↦ on_no_revisions service revisions world
        ] in
        if is_empty app then (world, true) else outcome
  ]
