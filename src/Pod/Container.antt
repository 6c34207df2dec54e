-- ===== src/Pod/Container.antt =====
-- modules/service/controllers/service/populate/pod/containers.go: the containers of a pod.
use rio.Prelude.{
  Text, str, ℕ, is_empty, text_eq, leb, Bool, true, false, ◌&&◌, Option, none, some, List, [], ◌∷◌,
  ◌++◌, map, if◌then◌else◌, ◌==◌,
}
use rio.Prelude.Int.{ℤ, pos, eqb_ℤ}
use rio.Strconv.{format_int}
use rio.Api.Service.{
  Service, Container, NamedContainer, ContainerPort, DataMount, Volume, ContainerSecurityContext,
}
use rio.Kube.Pod.{
  IntOrString, Probe, KubeContainerPort, Quantity, parse_quantity, new_quantity, VolumeMount,
  SecurityContext, KubeContainer,
}
use rio.Services.{to_named_containers}
use rio.Ports.{normalize_container_port, protocol}
use rio.Stringers.DataMount.{configs_default_path, secrets_default_path}
use rio.Pod.Libraries.{Libraries}
use rio.Pod.Env.{envs}
use rio.Pod.Volumes.{normalize_volumes, vol}

-- `name` is "config" or "secret"; secrets are read-only.
unfoldable pub data_mount : Text → Text → DataMount → VolumeMount
data_mount default_path name m = record {
  name = name ++ (str "-" ++ m.name);
  mount_path = if is_empty m.target then default_path else m.target;
  sub_path = m.key;
  read_only = text_eq name (str "secret");
}

unfoldable pub data_mounts : Text → Text → List DataMount → List VolumeMount
unfolding data_mount
data_mounts default_path name mounts = map (data_mount default_path name) mounts

abbrev volume_mount_of : Volume → VolumeMount
volume_mount_of v = record {
  name = vol v.name;
  mount_path = v.path;
  sub_path = [];
  read_only = false;
}

abbrev pub made_port : ContainerPort → KubeContainerPort
made_port port = record {
  name = port.name;
  container_port = port.target_port;
  host_port = if port.host_port then port.port else pos 0;
  protocol = protocol port.protocol;
}

-- A round of the loop: `none` for a port without a number.
unfoldable pub pod_port : ContainerPort → Option KubeContainerPort
pod_port p =
    let port = normalize_container_port p in
    if eqb_ℤ port.port (pos 0) then none else some (made_port port)

unfoldable pub pod_ports : List ContainerPort → List KubeContainerPort
unfolding pod_port
pod_ports [] = []
pod_ports (p ∷ ports) =
    let rest = pod_ports ports in elim (pod_port p) [ some made ↦ made ∷ rest | none ↦ rest ]

abbrev unset_or_zero : Option ℤ → Bool
unset_or_zero none = true
unset_or_zero (some n) = eqb_ℤ n (pos 0)

abbrev quantity_or : Text → (ℤ → Quantity) → Option ℤ → Quantity
quantity_or default make none = parse_quantity default
quantity_or default make (some n) = if eqb_ℤ n (pos 0) then parse_quantity default else make n

unfoldable pub resources : Container → List (Text × Quantity)
resources c =
    (
      str "cpu",
      quantity_or (str "50m") (λ n. parse_quantity (format_int n ++ str "m")) c.cpu_millis,
    )
    ∷ (str "memory", quantity_or (str "64Mi") new_quantity c.memory_bytes)
    ∷ []

unfoldable pub to_security_context : Option ContainerSecurityContext → Option SecurityContext
to_security_context none = none
to_security_context (some c) = some (record {
  run_as_user = c.run_as_user;
  run_as_group = c.run_as_group;
  read_only_root_filesystem = c.read_only_root_filesystem;
  privileged = c.privileged;
})

is_digit : ℕ → Bool
is_digit c = leb 48 c && leb c 57

-- The expression `^v?[0-9]`.
unfoldable pub is_version_tag : Text → Bool
unfolding is_digit
is_version_tag [] = false
is_version_tag (c ∷ []) = is_digit c
is_version_tag (c ∷ d ∷ s) = if c == b'v' then is_digit d else is_digit c

module _ (lib : Libraries) where
  -- FromInt (IntValue port), where the port is a string.
  unfoldable pub convert_port : IntOrString → IntOrString
  convert_port p = if is_empty p.str_val then p else lib.from_int (lib.int_value p)

  abbrev convert_action : Option IntOrString → Option IntOrString
  convert_action none = none
  convert_action (some p) = some (convert_port p)

  -- The source writes the ports into the probe of the service and passes that on.
  unfoldable pub convert_probe_ports : Option Probe → Option Probe
  unfolding convert_port
  convert_probe_ports none = none
  convert_probe_ports (some probe) = some (record {
    http_get = convert_action probe.http_get;
    tcp_socket = convert_action probe.tcp_socket;
  })

  unfoldable pub volume_mounts : Text → List Volume → List VolumeMount
  unfolding normalize_volumes
  volume_mounts container_name volumes =
      map volume_mount_of (normalize_volumes lib container_name volumes)

  unfoldable pub mounts : Text → Container → List VolumeMount
  unfolding data_mounts volume_mounts
  mounts container_name c =
      data_mounts configs_default_path (str "config") c.configs
      ++ (data_mounts secrets_default_path (str "secret") c.secrets
          ++ volume_mounts container_name c.volumes)

  -- The policy for an image by its reference: always, unless the tag is a version.
  abbrev policy_for : Option (Option Text) → Text
  policy_for none = []
  policy_for (some none) = str "Always"
  policy_for (some (some tag)) = if is_version_tag tag then [] else str "Always"

  unfoldable pub pull_policy : Container → Text
  unfolding is_version_tag
  pull_policy c =
      if is_empty c.image
      then str "IfNotPresent"
      else if is_empty c.image_pull_policy
      then policy_for (lib.parse_normalized_named c.image)
      else c.image_pull_policy

  -- With the name that `containers` sets.
  unfoldable pub to_container : Text → Container → KubeContainer
  unfolding convert_probe_ports pull_policy resources pod_ports envs mounts to_security_context
  to_container container_name c = record {
    name = container_name;
    image = c.image;
    command = c.command;
    args = c.args;
    working_dir = c.working_dir;
    liveness_probe = convert_probe_ports c.liveness_probe;
    readiness_probe = convert_probe_ports c.readiness_probe;
    image_pull_policy = pull_policy c;
    stdin = c.stdin;
    stdin_once = c.stdin_once;
    tty = c.tty;
    requests = resources c;
    ports = pod_ports c.ports;
    env = envs lib container_name c;
    volume_mounts = mounts container_name c;
    security_context = to_security_context c.security_context;
  }

  -- The containers that are initial ones or those that are not.
  unfoldable pub made_containers : Bool → List NamedContainer → List KubeContainer
  unfolding to_container
  made_containers init [] = []
  made_containers init (c ∷ containers) =
      let rest = made_containers init containers in
      let made = to_container c.name c.container in
      if c.init then (if init then made ∷ rest else rest) else if init then rest else made ∷ rest

  unfoldable pub containers : Service → Bool → List KubeContainer
  unfolding made_containers to_named_containers
  containers service init = made_containers init (to_named_containers service)
