-- ===== src/Tests/Pods.antt =====
-- Pods and workloads.
use rio.Prelude.{
  Text, str, text_eq, ◌≡◌, refl, true, false, none, some, [], ◌∷◌, ◌++◌, map, if◌then◌else◌, All,
  Member,
}
use rio.Prelude.Int.{pos}
use rio.Prelude.Sort.{sort, sort-HasSameMembers, Distinct-sort, text_leb}
use rio.Prelude.Unique.{Distinct, has}
use rio.Api.Service.{Service, ContainerPort, Protocol, Volume, VolumeTemplate, NamedContainer}
use rio.Services.{to_named_containers}
use rio.Ports.{service_named_ports}
use rio.Pod.Libraries.{Libraries, Range, IsRange}
use rio.Pod.Volumes.{volumes, remove_duplicate_and_sort}
use rio.Pod.Container.{containers, is_version_tag}
use rio.Pod.Names.{names_of, volumes-Distinct}
use rio.Pod.Claims.{HasClaim, volumes-HaveClaims}
use rio.Pod.Mounts.{HasNamedMounts}
use rio.Pod.Spec
use rio.Pod.Spec.{roles, persist_volume}
use rio.Workload.Params.{new_controller_params}
use rio.Workload.Populate.{populate_service, populate_workload, service_selector, workload}
use rio.Workload.Order.{populate_service-order}
use rio.Workload.Mounts.{template_names, mounts-AreProvided}
use rio.Workload.Selects.{IsSelected, populate_service-AreSelected}
use rio.Workload.Targets.{IsTargeted, service_named_ports-AreTargeted}
use rio.Workload.Images.{have_images, populate_workload-eq}
use rio.Tests.Data.{plain, plain_spec, plain_container, join}

abbrev pub libraries : Libraries
libraries = record {
  to_lower = λ s. s;
  hex = λ s n. str "1f2e";
  parse_normalized_named = λ s. some none;
  int_value = λ p. p.int_val;
  from_int = λ n. record { is_string = false; int_val = n; str_val = [] };
}

abbrev pub as_listed : Range
as_listed map_keys = map_keys

as_listed-IsRange : IsRange as_listed
as_listed-IsRange = record { once = λ map_keys d. d; same = λ map_keys k. (λ m. m, λ m. m) }

sort-IsRange : IsRange sort
sort-IsRange = record { once = Distinct-sort; same = sort-HasSameMembers }

abbrev data_volume : Volume
data_volume = record {
  name = str "data";
  path = str "/data";
  host_path = [];
  host_path_type = none;
  persistent = true;
}

abbrev template_of : Text → VolumeTemplate
template_of name = record {
  labels = [];
  annotations = [];
  name = name;
  access_modes = str "ReadWriteOnce" ∷ [];
  storage_request = pos 1024;
  storage_class_name = [];
  volume_mode = none;
}

abbrev web_port : ContainerPort
web_port = record {
  name = [];
  expose = none;
  protocol = Protocol.http;
  port = pos 80;
  target_port = pos 8080;
  host_port = false;
}

abbrev sidecar : NamedContainer
sidecar = record {
  name = str "side";
  init = true;
  container = record plain_container {
    volumes = data_volume ∷ record data_volume { name = str "scratch"; persistent = false } ∷ [];
    ports = record web_port { target_port = pos 9090 } ∷ record web_port { port = pos 90 } ∷ [];
  };
}

-- A volume of each kind, a secret and a config, and a volume that comes from a template.
abbrev pub with_volumes : Service
with_volumes = record plain {
  spec = record plain_spec {
    container = record plain_container {
      volumes =
          data_volume
          ∷ record data_volume { name = str "each" }
          ∷ record data_volume { name = []; host_path = str "/var"; persistent = false }
          ∷ record data_volume { name = []; persistent = false }
          ∷ [];
      secrets = record { target = []; name = str "key"; key = [] } ∷ [];
      configs = record { target = []; name = str "conf"; key = [] } ∷ [];
      ports = web_port ∷ [];
    };
    sidecars = sidecar ∷ [];
    volume_templates = template_of (str "each") ∷ [];
  };
}

two_sorted :
    remove_duplicate_and_sort as_listed (str "b" ∷ str "a" ∷ str "b" ∷ []) ≡ str "a" ∷ str "b" ∷ []
unfolding remove_duplicate_and_sort sort text_leb has str text_eq
two_sorted = refl

version_tags :
    map is_version_tag (str "v1.2" ∷ str "3" ∷ str "latest" ∷ str "version" ∷ [])
    ≡ true ∷ true ∷ false ∷ false ∷ []
unfolding is_version_tag str
version_tags = refl

volumes-Distinct_example : Distinct (names_of (volumes libraries as_listed with_volumes))
volumes-Distinct_example = volumes-Distinct as_listed as_listed-IsRange libraries with_volumes

volumes-HaveClaims_example :
    All (λ v. HasClaim with_volumes v.source) (volumes libraries as_listed with_volumes)
volumes-HaveClaims_example = volumes-HaveClaims libraries as_listed with_volumes as_listed-IsRange

populate_service-order_example :
    populate_service libraries as_listed join with_volumes
    ≡ populate_service libraries sort join with_volumes
populate_service-order_example =
    populate_service-order libraries join with_volumes as_listed sort as_listed-IsRange sort-IsRange

populate_service-AreSelected_example :
    All
      (IsSelected (service_selector libraries with_volumes).selector)
      (populate_service libraries as_listed join with_volumes)
populate_service-AreSelected_example =
    populate_service-AreSelected libraries as_listed join with_volumes

service_named_ports-AreTargeted_example :
    All
      (IsTargeted
        (containers libraries with_volumes false ++ containers libraries with_volumes true))
      (service_named_ports (λ s. s) with_volumes)
service_named_ports-AreTargeted_example = service_named_ports-AreTargeted libraries with_volumes

populate_workload-eq_example :
    populate_workload libraries as_listed join with_volumes
    ≡ (roles join with_volumes ++ persist_volume with_volumes)
      ++ (if have_images (to_named_containers with_volumes)
          then workload as_listed with_volumes (
              new_controller_params with_volumes
                (Spec.populate_pod libraries as_listed join with_volumes).0)
            ∷ []
          else [])
populate_workload-eq_example = populate_workload-eq libraries as_listed join with_volumes

with_volumes-HasNamedMounts : All HasNamedMounts (to_named_containers with_volumes)
unfolding to_named_containers str
with_volumes-HasNamedMounts = (((refl, tt), (refl, tt)), ((tt, tt), tt))

mounts-AreProvided_example :
    All
      (λ k.
        All
          (λ m. Member m.name (
            names_of (volumes libraries as_listed with_volumes)
            ++ template_names (
                workload as_listed with_volumes (
                  new_controller_params with_volumes
                    (Spec.populate_pod libraries as_listed join with_volumes).0))))
          k.volume_mounts)
      (containers libraries with_volumes false)
mounts-AreProvided_example =
    mounts-AreProvided libraries as_listed with_volumes
      (Spec.populate_pod libraries as_listed join with_volumes).0 false as_listed-IsRange refl
      with_volumes-HasNamedMounts
