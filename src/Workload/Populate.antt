-- ===== src/Workload/Populate.antt =====
-- modules/service/controllers/service/populate: populate.go, k8sservice and podcontrollers
-- (controllers.go, deployment.go), which add the objects of a service to a set.
use rio.Prelude.{Text, str, is_cons, none, some, List, [], ◌∷◌, ◌++◌, if◌then◌else◌}
use rio.Prelude.Int.{pos}
use rio.Prelude.Maps.{lookup}
use rio.Prelude.Sort.{sort}
use rio.Api.Service.{Service, VolumeTemplate}
use rio.Kube.{ServicePort}
use rio.Kube.Pod.{new_quantity, KubeProtocol}
use rio.Kube.Workload.{
  WorkloadMeta, PersistentVolumeClaim, KubeService, Generated, kube_service, deployment,
  stateful_set, daemon_set,
}
use rio.Services.{app_and_version}
use rio.Labels.{service_labels, selector_labels}
use rio.Ports.{service_named_ports}
use rio.Pod.Libraries.{Libraries, Range}
use rio.Pod.Spec
use rio.Pod.Volumes.{map_keys}
use rio.Workload.Params.{ControllerParams, all_images_set, new_controller_params}

abbrev pub claim_template : Text → VolumeTemplate → PersistentVolumeClaim
claim_template name t = record {
  meta = record {
    name = str "vol-" ++ name;
    namespace = [];
    labels = t.labels;
    annotations = t.annotations;
  };
  access_modes = t.access_modes;
  storage = new_quantity t.storage_request;
  storage_class_name = some t.storage_class_name;
  volume_mode = t.volume_mode;
}

-- `templates[name]` is there for the keys of the map.
unfoldable pub claim_templates_of :
    List (Text × VolumeTemplate) → List Text → List PersistentVolumeClaim
claim_templates_of templates [] = []
claim_templates_of templates (name ∷ names) =
    let rest = claim_templates_of templates names in
    elim (lookup name templates) [ some t ↦ claim_template name t ∷ rest | none ↦ rest ]

unfoldable pub volume_claim_templates :
    Range → List (Text × VolumeTemplate) → List PersistentVolumeClaim
unfolding claim_templates_of
volume_claim_templates range_keys templates =
    claim_templates_of templates (sort (range_keys (map_keys templates)))

abbrev meta_of : Service → ControllerParams → WorkloadMeta
meta_of service cp = record {
  name = service.name;
  namespace = service.namespace;
  labels = cp.labels;
  annotations = cp.annotations;
}

unfoldable pub new_stateful_set : Range → Service → ControllerParams → Generated
unfolding volume_claim_templates
new_stateful_set range_keys service cp =
    let (app, version) = app_and_version service in
    stateful_set (record {
      meta = meta_of service cp;
      replicas = none;
      match_labels = cp.selector_labels;
      template = cp.pod_template_spec;
      volume_claim_templates = volume_claim_templates range_keys cp.volume_templates;
      service_name = app ++ (str "-" ++ version);
      pod_management_policy = str "Parallel";
    })

unfoldable pub new_deployment : Service → ControllerParams → Generated
new_deployment service cp = deployment (record {
  meta = meta_of service cp;
  replicas = cp.scale.scale;
  match_labels = cp.selector_labels;
  template = cp.pod_template_spec;
  rolling_update = record {
    max_unavailable = cp.scale.max_unavailable;
    max_surge = cp.scale.max_surge;
  };
})

unfoldable pub new_daemon_set : Service → ControllerParams → Generated
new_daemon_set service cp = daemon_set (record {
  meta = meta_of service cp;
  match_labels = cp.selector_labels;
  template = cp.pod_template_spec;
  max_unavailable = cp.scale.max_unavailable;
})

module _ (lib : Libraries) where
  abbrev default_service_port : ServicePort
  default_service_port = record {
    name = str "default";
    port = pos 80;
    protocol = KubeProtocol.tcp;
    target_port = pos 80;
  }

  -- `newServiceSelector`, and the ports that replace its own.
  unfoldable pub service_selector : Service → KubeService
  unfolding service_named_ports
  service_selector service =
      let (app, version) = app_and_version service in
      let ports = service_named_ports lib.to_lower service in
      record {
        meta = record {
          name = app ++ (str "-" ++ version);
          namespace = service.namespace;
          labels = service_labels service;
          annotations = [];
        };
        service_type = str "ClusterIP";
        selector = selector_labels service;
        ports = if is_cons ports then ports else default_service_port ∷ [];
      }

module _ (range_keys : Range) where
  -- A daemon set, a stateful set or a deployment.
  unfoldable pub workload : Service → ControllerParams → Generated
  workload service cp =
      if service.spec.global
      then new_daemon_set service cp
      else if is_cons cp.volume_templates
      then new_stateful_set range_keys service cp
      else new_deployment service cp

module _ (lib : Libraries) (range_keys : Range) (safe_concat_name : List Text → Text) where
  unfoldable pub populate_workload : Service → List Generated
  populate_workload service =
      let (template, added) = Spec.populate_pod lib range_keys safe_concat_name service in
      if all_images_set template
      then added ++ (workload range_keys service (new_controller_params service template) ∷ [])
      else added

  unfoldable pub populate_service : Service → List Generated
  populate_service service = kube_service (service_selector lib service) ∷ populate_workload service
