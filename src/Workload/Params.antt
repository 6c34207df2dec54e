-- ===== src/Workload/Params.antt =====
-- modules/service/controllers/service/populate/podcontrollers/controllers.go: what the workload of
-- a service is made from.
use rio.Prelude.{Text, str, is_empty, Bool, true, false, not, ◌&&◌, Option, some, List, [], ◌∷◌}
use rio.Prelude.Int.{ℤ}
use rio.Api.Service.{Service, VolumeTemplate}
use rio.Kube.Pod.{IntOrString, KubeContainer, PodTemplateSpec}
use rio.Labels.{merge, selector_labels, service_labels}
use rio.Scale.{parse_scale}
use rio.Pod.Volumes.{normalize_volume_templates}

unfoldable pub images_set : List KubeContainer → Bool
images_set [] = true
images_set (c ∷ containers) = let rest = images_set containers in not (is_empty c.image) && rest

unfoldable pub all_images_set : PodTemplateSpec → Bool
unfolding images_set
all_images_set template =
    images_set template.spec.containers && images_set template.spec.init_containers

unfoldable pub workload_annotations : Service → List (Text × Text)
workload_annotations service = elim service.spec.service_mesh [
  | some false ↦ (str "rio.cattle.io/mesh", str "false") ∷ []
  | _ ↦ (str "rio.cattle.io/mesh", str "true") ∷ []
]

pub record ScaleParams : Type 0 where
  pub scale : Option ℤ
  pub max_surge : Option IntOrString
  pub max_unavailable : Option IntOrString

unfoldable pub parse_scale_params : Service → ScaleParams
unfolding parse_scale
parse_scale_params service = record {
  scale = parse_scale service;
  max_surge = service.spec.max_surge;
  max_unavailable = service.spec.max_unavailable;
}

pub record ControllerParams : Type 0 where
  pub scale : ScaleParams
  pub labels : List (Text × Text)
  pub annotations : List (Text × Text)
  pub selector_labels : List (Text × Text)
  pub volume_templates : List (Text × VolumeTemplate)
  pub pod_template_spec : PodTemplateSpec

unfoldable pub new_controller_params : Service → PodTemplateSpec → ControllerParams
unfolding parse_scale_params workload_annotations normalize_volume_templates merge
new_controller_params service template = record {
  scale = parse_scale_params service;
  labels = service_labels service;
  annotations = workload_annotations service;
  selector_labels = selector_labels service;
  volume_templates = normalize_volume_templates service;
  pod_template_spec = record template {
    labels = merge template.labels (selector_labels service ∷ []);
  };
}
