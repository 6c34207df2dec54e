-- ===== src/Pod/Volumes.antt =====
-- modules/service/controllers/service/populate/pod/volumes.go, with normalizeVolumes of
-- containers.go: the volumes of a pod.
use rio.Prelude.{
  Text, str, ℕ, suc, is_empty, true, not, ◌||◌, ◌&&◌, Option, none, some, is_some, List, [], ◌∷◌,
  ◌++◌, map, if◌then◌else◌,
}
use rio.Prelude.Int.{pos}
use rio.Prelude.Maps.{lookup, insert}
use rio.Prelude.Sort.{sort}
use rio.Prelude.Unique.{has}
use rio.Strconv.{format_int}
use rio.Api.Service.{Service, NamedContainer, Volume, VolumeTemplate, DataMount}
use rio.Kube.Pod.{KubeVolume, secret, config_map, empty_dir, host_path, persistent_volume_claim}
use rio.Services.{to_named_containers}
use rio.Pod.Libraries.{Libraries, Range}

abbrev pub map_keys : {V : Type 0} → List (Text × V) → List Text
map_keys m = map (λ e. e.0) m

-- `set[s] = struct{}{}` for each text of the list.
unfoldable pub set_of : List Text → List Text
unfolding has
set_of [] = []
set_of (s ∷ ss) = let rest = set_of ss in if has s rest then rest else s ∷ rest

module _ (range_keys : Range) where
  unfoldable pub remove_duplicate_and_sort : List Text → List Text
  unfolding set_of
  remove_duplicate_and_sort array = sort (range_keys (set_of array))

-- The names of mounts that have one, in the order of the containers.
unfoldable pub mount_names : List DataMount → List Text
mount_names [] = []
mount_names (m ∷ mounts) =
    let rest = mount_names mounts in if is_empty m.name then rest else m.name ∷ rest

unfoldable pub secret_names : List NamedContainer → List Text
unfolding mount_names
secret_names [] = []
secret_names (c ∷ containers) = mount_names c.container.secrets ++ secret_names containers

unfoldable pub config_names : List NamedContainer → List Text
unfolding mount_names
config_names [] = []
config_names (c ∷ containers) = mount_names c.container.configs ++ config_names containers

abbrev pub secret_volume : Text → KubeVolume
secret_volume name = record { name = str "secret-" ++ name; source = secret name true }

abbrev pub config_volume : Text → KubeVolume
config_volume name = record { name = str "config-" ++ name; source = config_map name }

abbrev pub vol : Text → Text
vol name = str "vol-" ++ name

module _ (range_keys : Range) where
  unfoldable pub secret_volumes : List NamedContainer → List KubeVolume
  unfolding secret_names remove_duplicate_and_sort
  secret_volumes containers =
      map secret_volume (remove_duplicate_and_sort range_keys (secret_names containers))

  unfoldable pub config_volumes : List NamedContainer → List KubeVolume
  unfolding config_names remove_duplicate_and_sort
  config_volumes containers =
      map config_volume (remove_duplicate_and_sort range_keys (config_names containers))

module _ (lib : Libraries) where
  abbrev pub named_volume : Text → ℕ → Volume → Volume
  named_volume container_name i v =
      if is_empty v.name
      then record v { name = container_name ++ (str "-" ++ format_int (pos i)) }
      else v

  -- A round of the loop: `none` for a persistent volume without a name.
  unfoldable pub normalize_volume : Text → ℕ → Volume → Option Volume
  normalize_volume container_name i v =
      if is_empty v.name && v.persistent
      then none
      else if is_empty v.host_path
      then some (named_volume container_name i v)
      else some (record v { name = str "host-" ++ lib.hex v.host_path 8 })

  unfoldable pub normalize_from : Text → ℕ → List Volume → List Volume
  unfolding normalize_volume
  normalize_from container_name i [] = []
  normalize_from container_name i (v ∷ volumes) =
      let rest = normalize_from container_name (suc i) volumes in
      elim (normalize_volume container_name i v) [ some normal ↦ normal ∷ rest | none ↦ rest ]

  unfoldable pub normalize_volumes : Text → List Volume → List Volume
  unfolding normalize_from
  normalize_volumes container_name volumes = normalize_from container_name 0 volumes

pub record SortedVolumes : Type 0 where
  pub all : List Text
  pub empty_dir : List (Text × Volume)
  pub host_path : List (Text × Volume)
  pub pvc : List (Text × Volume)

module _ (lib : Libraries) (templates : List (Text × VolumeTemplate)) where
  -- A round of the inner loop.
  unfoldable pub sort_volume : Volume → SortedVolumes → SortedVolumes
  unfolding has
  sort_volume v s =
      let seen : SortedVolumes = record s { all = v.name ∷ s.all } in
      if has v.name s.all
      then s
      else if not (is_empty v.host_path)
      then record seen { host_path = insert v.name v s.host_path }
      else if not (is_some (lookup v.name templates)) && v.persistent
      then record seen { pvc = insert v.name v s.pvc }
      else if not v.persistent
      then record seen { empty_dir = insert v.name v s.empty_dir }
      else seen

  unfoldable pub sort_each : List Volume → SortedVolumes → SortedVolumes
  unfolding sort_volume
  sort_each [] s = s
  sort_each (v ∷ volumes) s = sort_each volumes (sort_volume v s)

  unfoldable pub sort_containers : List NamedContainer → SortedVolumes → SortedVolumes
  unfolding sort_each normalize_volumes
  sort_containers [] s = s
  sort_containers (c ∷ containers) s =
      sort_containers containers (sort_each (normalize_volumes lib c.name c.container.volumes) s)

  unfoldable pub sort_volumes : List NamedContainer → SortedVolumes
  unfolding sort_containers
  sort_volumes containers =
      sort_containers containers (record { all = []; empty_dir = []; host_path = []; pvc = [] })

abbrev pub empty_dir_volume : Text → KubeVolume
empty_dir_volume name = record { name = vol name; source = empty_dir }

-- `hostPath[name]` is there for the keys of the map.
abbrev pub host_path_volume : List (Text × Volume) → Text → KubeVolume
host_path_volume paths name = record {
  name = vol name;
  source = elim (lookup name paths) [
    | some v ↦ host_path v.host_path v.host_path_type
    | none ↦ host_path [] none
  ];
}

abbrev pub pvc_volume : Text → KubeVolume
pvc_volume name = record { name = vol name; source = persistent_volume_claim name }

-- A round of the loop: the first template of a name stays.
unfoldable pub add_template :
    VolumeTemplate → List (Text × VolumeTemplate) → List (Text × VolumeTemplate)
add_template template templates =
    if is_some (lookup template.name templates) || is_empty template.name
    then templates
    else insert template.name template templates

unfoldable pub add_templates :
    List VolumeTemplate → List (Text × VolumeTemplate) → List (Text × VolumeTemplate)
unfolding add_template
add_templates [] templates = templates
add_templates (template ∷ more) templates = add_templates more (add_template template templates)

unfoldable pub normalize_volume_templates : Service → List (Text × VolumeTemplate)
unfolding add_templates
normalize_volume_templates service = add_templates service.spec.volume_templates []

module _ (range_keys : Range) where
  -- The names of a map's volumes, as they are listed.
  abbrev pub listed : List (Text × Volume) → List Text
  listed m = remove_duplicate_and_sort range_keys (range_keys (map_keys m))

  unfoldable pub empty_dir_volumes : List (Text × Volume) → List KubeVolume
  unfolding remove_duplicate_and_sort
  empty_dir_volumes m = map empty_dir_volume (listed m)

  unfoldable pub host_path_volumes : List (Text × Volume) → List KubeVolume
  unfolding remove_duplicate_and_sort
  host_path_volumes m = map (host_path_volume m) (listed m)

  unfoldable pub pvc_volumes : List (Text × Volume) → List KubeVolume
  unfolding remove_duplicate_and_sort
  pvc_volumes m = map pvc_volume (listed m)

module _ (lib : Libraries) (range_keys : Range) where
  unfoldable pub disk_volumes : List NamedContainer → Service → List KubeVolume
  unfolding sort_volumes empty_dir_volumes host_path_volumes pvc_volumes normalize_volume_templates
  disk_volumes containers service =
      let sorted = sort_volumes lib (normalize_volume_templates service) containers in
      empty_dir_volumes range_keys sorted.empty_dir
      ++ (host_path_volumes range_keys sorted.host_path ++ pvc_volumes range_keys sorted.pvc)

  unfoldable pub volumes : Service → List KubeVolume
  unfolding secret_volumes config_volumes disk_volumes to_named_containers
  volumes service =
      let containers = to_named_containers service in
      secret_volumes range_keys containers
      ++ (config_volumes range_keys containers ++ disk_volumes containers service)
