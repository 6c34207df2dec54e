-- ===== src/Pod/Spec.antt =====
-- modules/service/controllers/service/populate/pod/podspec.go and pod.go. The affinity of a service
-- is passed on as it is and is left out.
use rio.Prelude.{
  Text, str, is_empty, is_cons, true, false, not, ◌||◌, Option, none, some, List, [], ◌∷◌, ◌++◌,
  map, if◌then◌else◌,
}
use rio.Api.Service.{Service, NamedContainer, Volume, Dns, PodDnsConfigOption}
use rio.Kube.Pod.{KubeDnsOption, PodDnsConfig, PodSpec, PodTemplateSpec, parse_quantity}
use rio.Kube.Workload.{Generated, access, claim}
use rio.Labels.{service_labels, service_annotations}
use rio.Rbac
use rio.Rbac.{service_account_name}
use rio.Pod.Libraries.{Libraries, Range}
use rio.Pod.Volumes.{volumes}
use rio.Pod.Container.{containers}

abbrev dns_option : PodDnsConfigOption → KubeDnsOption
dns_option o = record { name = o.name; value = o.value }

unfoldable pub pod_dns : Service → Option PodDnsConfig
pod_dns service = elim service.spec.dns [
  | none ↦ none
  | some dns ↦
      let config : PodDnsConfig = record {
        options = map dns_option dns.options;
        nameservers = dns.nameservers;
        searches = dns.searches;
      } in
      if is_cons dns.options || is_cons dns.nameservers || is_cons dns.searches
      then some config
      else none
]

abbrev dns_policy : Option Dns → Text
dns_policy none = []
dns_policy (some dns) = dns.policy

-- The volumes of the service and of its sidecars.
unfoldable pub sidecar_volumes : List NamedContainer → List Volume
sidecar_volumes [] = []
sidecar_volumes (c ∷ sidecars) = c.container.volumes ++ sidecar_volumes sidecars

unfoldable pub all_volumes : Service → List Volume
unfolding sidecar_volumes
all_volumes service = service.spec.container.volumes ++ sidecar_volumes service.spec.sidecars

-- RegistryStorageSize is "20Gi".
abbrev pub new_claim : Service → Volume → Generated
new_claim service v = claim (record {
  meta = record { name = v.name; namespace = service.namespace; labels = []; annotations = [] };
  access_modes = str "ReadWriteOnce" ∷ [];
  storage = parse_quantity (str "20Gi");
  storage_class_name = none;
  volume_mode = none;
})

-- The second loop.
unfoldable pub claims_of : Service → List Volume → List Generated
claims_of service [] = []
claims_of service (v ∷ volumes) =
    let rest = claims_of service volumes in
    if v.persistent then new_claim service v ∷ rest else rest

unfoldable pub persist_volume : Service → List Generated
unfolding all_volumes claims_of
persist_volume service = claims_of service (all_volumes service)

module _ (safe_concat_name : List Text → Text) where
  -- rbac.Populate does not fail.
  unfoldable pub roles : Service → List Generated
  roles service = map access (Rbac.populate safe_concat_name service)

module _ (lib : Libraries) (range_keys : Range) where
  unfoldable pub pod_spec : Service → PodSpec
  pod_spec service =
      let name = service_account_name service in
      record {
        dns_config = pod_dns service;
        dns_policy = dns_policy service.spec.dns;
        host_aliases = service.spec.host_aliases;
        hostname = service.spec.hostname;
        host_network = service.spec.host_network;
        enable_service_links = some false;
        containers = containers lib service false;
        init_containers = containers lib service true;
        volumes = volumes lib range_keys service;
        image_pull_secrets = service.spec.image_pull_secrets;
        service_account_name = name;
        automount_service_account_token = some (not (is_empty name));
      }

  module _ (safe_concat_name : List Text → Text) where
    -- The template, with what is added to the object set.
    unfoldable pub populate_pod : Service → PodTemplateSpec × List Generated
    populate_pod service = (
      record {
        labels = service_labels service;
        annotations = service_annotations service;
        spec = pod_spec service;
      },
      roles safe_concat_name service ++ persist_volume service,
    )
