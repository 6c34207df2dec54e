-- ===== src/Tests/Data.antt =====
-- The objects that the tests share.
use rio.Prelude.{Text, str, ◌++◌, true, false, none, some, List, [], ◌∷◌}
use rio.Prelude.Int.{ℤ, pos}
use rio.Api.Service.{Service, ServiceSpec, ServiceStatus, Container, NamedContainer, Permission}

abbrev pub plain_container : Container
plain_container = record {
  image = str "nginx";
  image_build = none;
  command = [];
  args = [];
  working_dir = [];
  ports = [];
  env = [];
  cpu_millis = none;
  memory_bytes = none;
  secrets = [];
  configs = [];
  liveness_probe = none;
  readiness_probe = none;
  image_pull_policy = [];
  stdin = false;
  stdin_once = false;
  tty = false;
  volumes = [];
  security_context = none;
}

abbrev pub plain_spec : ServiceSpec
plain_spec = record {
  container = plain_container;
  sidecars = [];
  hostname = [];
  host_aliases = [];
  host_network = false;
  image_pull_secrets = [];
  volume_templates = [];
  dns = none;
  template = false;
  max_unavailable = none;
  max_surge = none;
  global = false;
  version = str "v1";
  app = str "web";
  weight = none;
  replicas = none;
  autoscale = none;
  rollout_config = none;
  service_mesh = none;
  request_timeout_seconds = none;
  permissions = [];
  global_permissions = [];
}

abbrev pub plain_status : ServiceStatus
plain_status = record {
  deployment_ready = true;
  scale_status = none;
  computed_app = [];
  computed_version = [];
  computed_replicas = none;
  computed_weight = none;
  endpoints = [];
  app_endpoints = [];
}

abbrev pub plain : Service
plain = record {
  name = str "web-v1";
  namespace = str "default";
  uid = str "0123456789";
  labels = (str "app", str "mine") ∷ [];
  annotations = [];
  deleting = false;
  spec = plain_spec;
  status = plain_status;
}

abbrev pub get_pods : Permission
get_pods = record {
  role = [];
  verbs = str "get" ∷ [];
  api_group = [];
  resource = str "pods";
  url = [];
  resource_name = [];
}

abbrev pub with_permissions : Service
with_permissions = record plain {
  spec = record plain_spec { permissions = get_pods ∷ record get_pods { role = str "admin" } ∷ [] };
}

abbrev pub privileged_sidecar : NamedContainer
privileged_sidecar = record {
  name = str "side";
  init = false;
  container = record plain_container {
    security_context = some (record {
      run_as_user = none;
      run_as_group = none;
      read_only_root_filesystem = none;
      privileged = some true;
    });
  };
}

-- Half of the weight, on its way to `goal` by steps of `n` every four seconds.
abbrev pub rolling : ℤ → ℤ → ℤ → Service
rolling n goal computed = record plain {
  spec = record plain_spec {
    weight = some goal;
    rollout_config = some (record { increment = n; interval_seconds = pos 4; pause = false });
  };
  status = record plain_status { computed_weight = some computed };
}

-- Stands for SafeConcatName.
abbrev pub join : List Text → Text
join [] = []
join (a ∷ parts) = a ++ join parts
