-- ===== src/Workload/Selects.antt =====
-- The pods of a workload have the labels that it and the Kubernetes service select.
use rio.Prelude.{
  Text, str, text_eq, ◌≡◌, some, List, [], ◌∷◌, Bool-cases, inl, inr, if-both, All, All-append,
  is_cons,
}
use rio.Prelude.Maps.{lookup}
use rio.Api.Service.{Service, Volume}
use rio.Kube.Pod.{PodTemplateSpec}
use rio.Kube.Workload.{Generated, access, kube_service, claim, deployment, stateful_set, daemon_set}
use rio.Labels.{selector_labels, merge}
use rio.Labels.Laws.{lookup-merge}
use rio.Pod.Libraries.{Libraries, Range}
use rio.Pod.Mounts.{All-of_map}
use rio.Pod.Claims.{All-tabulate}
use rio.Pod.Spec
use rio.Pod.Spec.{roles, persist_volume, claims_of, all_volumes}
use rio.Workload.Params.{all_images_set, new_controller_params}
use rio.Workload.Populate.{
  workload, new_stateful_set, new_deployment, new_daemon_set, service_selector, populate_workload,
  populate_service,
}

-- The labels have every label of the selector.
abbrev pub HasLabels : List (Text × Text) → List (Text × Text) → Type 0
HasLabels selector labels = All (λ l. lookup l.0 labels ≡ some l.1) selector

-- The pods of a workload match its own selector and this one.
abbrev pub IsSelected : List (Text × Text) → Generated → Type 0
IsSelected selector (deployment d) =
    HasLabels selector d.template.labels × HasLabels d.match_labels d.template.labels
IsSelected selector (stateful_set s) =
    HasLabels selector s.template.labels × HasLabels s.match_labels s.template.labels
IsSelected selector (daemon_set d) =
    HasLabels selector d.template.labels × HasLabels d.match_labels d.template.labels
IsSelected selector (access o) = Unit
IsSelected selector (kube_service s) = Unit
IsSelected selector (claim c) = Unit

module _ (service : Service) where
  merged-HasLabels :
      (base : List (Text × Text))
      → HasLabels (selector_labels service) (merge base (selector_labels service ∷ []))
  unfolding selector_labels lookup str text_eq
  merged-HasLabels base =
      (lookup-merge (str "app") base _, (lookup-merge (str "version") base _, tt))

  workload-IsSelected :
      (range_keys : Range) (template : PodTemplateSpec)
      → IsSelected
          (selector_labels service)
          (workload range_keys service (new_controller_params service template))
  unfolding workload new_stateful_set new_deployment new_daemon_set new_controller_params
  workload-IsSelected range_keys template =
      let labels = merged-HasLabels template.labels in
      if-both (IsSelected (selector_labels service)) service.spec.global _ _ (labels, labels)
        (if-both (IsSelected (selector_labels service))
          (is_cons (new_controller_params service template).volume_templates)
          (new_stateful_set range_keys service (new_controller_params service template))
          (new_deployment service (new_controller_params service template)) (labels, labels)
          (labels, labels))

  claims-AreSelected :
      (selector : List (Text × Text)) (vs : List Volume)
      → All (IsSelected selector) (claims_of service vs)
  unfolding claims_of
  claims-AreSelected selector [] = tt
  claims-AreSelected selector (v ∷ vs) = elim (Bool-cases v.persistent) [
    | inl p ↦ simp p (tt, claims-AreSelected selector vs)
    | inr p ↦ simp p (claims-AreSelected selector vs)
  ]

module _ (lib : Libraries) (range_keys : Range) (scn : List Text → Text) (service : Service) where
  abbrev selector : List (Text × Text)
  selector = selector_labels service

  added-AreSelected : All (IsSelected selector) (Spec.populate_pod lib range_keys scn service).1
  unfolding Spec.populate_pod roles persist_volume
  added-AreSelected =
      All-append (IsSelected selector) (roles scn service) (persist_volume service)
        (All-of_map (IsSelected selector) access _ (All-tabulate _ (λ o m. tt)))
        (claims-AreSelected service selector (all_volumes service))

  populate_workload-AreSelected :
      All (IsSelected selector) (populate_workload lib range_keys scn service)
  unfolding populate_workload
  populate_workload-AreSelected =
      elim (Bool-cases (all_images_set (Spec.populate_pod lib range_keys scn service).0)) [
        | inl set ↦ rw set (
            All-append (IsSelected selector) (Spec.populate_pod lib range_keys scn service).1 _
              added-AreSelected (workload-IsSelected service range_keys _, tt))
        | inr unset ↦ rw unset added-AreSelected
      ]

  -- The pods of every workload that is generated for a service have the labels that the workload
  -- selects and the labels that the Kubernetes service of the service selects.
  pub populate_service-AreSelected :
      All
        (IsSelected (service_selector lib service).selector)
        (populate_service lib range_keys scn service)
  unfolding populate_service service_selector
  populate_service-AreSelected = (tt, populate_workload-AreSelected)
