-- ===== src/Workload/Order.antt =====
-- The objects of a service do not depend on the order in which Go ranges over its maps.
use rio.Prelude.{
  Text, text_eq, text_eq_iff, ◌≡◌, refl, false, is_some, is_empty, List, [], ◌∷◌, ◌++◌, ap,
  Bool-cases, inl, inr, Member, arith,
}
use rio.Prelude.Maps.{lookup, insert}
use rio.Prelude.Unique.{Distinct, Distinct-snoc}
use rio.Api.Service.{Service, VolumeTemplate}
use rio.Kube.Pod.{PodTemplateSpec}
use rio.Pod.Libraries.{Libraries, Range, IsRange}
use rio.Pod.Volumes.{map_keys, add_template, add_templates, normalize_volume_templates}
use rio.Pod.Spec
use rio.Pod.Spec.{pod_spec}
use rio.Pod.Order.{sort-range, volumes-order}
use rio.Workload.Params.{new_controller_params}
use rio.Workload.Populate.{
  volume_claim_templates, new_stateful_set, workload, populate_workload, populate_service,
}

module _ {V : Type 0} where
  lookup-missing :
      (k : Text) (m : List (Text × V)) → is_some (lookup k m) ≡ false → ¬ Member k (map_keys m)
  unfolding lookup
  lookup-missing k [] h n = n
  lookup-missing k ((j, v) ∷ m) h (inl e) = absurd (ground (arith, text_eq_iff j k, e, h))
  lookup-missing k ((j, v) ∷ m) h (inr n) = elim (Bool-cases (text_eq j k)) [
    | inl same ↦ absurd (ground (arith, same, h))
    | inr other ↦ lookup-missing k m (ground (arith, other, h)) n
  ]

  map_keys-insert_new :
      (k : Text) (v : V) (m : List (Text × V))
      → is_some (lookup k m) ≡ false
      → map_keys (insert k v m) ≡ map_keys m ++ (k ∷ [])
  unfolding lookup insert
  map_keys-insert_new k v [] h = refl
  map_keys-insert_new k v ((j, w) ∷ m) h = elim (Bool-cases (text_eq j k)) [
    | inl same ↦ absurd (ground (arith, same, h))
    | inr other ↦
        rw other (ap (λ ks. j ∷ ks) (map_keys-insert_new k v m (ground (arith, other, h))))
  ]

add_template-Distinct :
    (t : VolumeTemplate) (m : List (Text × VolumeTemplate))
    → Distinct (map_keys m)
    → Distinct (map_keys (add_template t m))
unfolding add_template
add_template-Distinct t m d = elim (Bool-cases (is_some (lookup t.name m))) [
  | inl old ↦ rw old d
  | inr new ↦ elim (Bool-cases (is_empty t.name)) [
    | inl unnamed ↦ rw (new, unnamed) d
    | inr named ↦
        rw (new, named)
          (rw (map_keys-insert_new t.name t m new)
            (Distinct-snoc (map_keys m) t.name d (lookup-missing t.name m new)))
  ]
]

add_templates-Distinct :
    (ts : List VolumeTemplate) (m : List (Text × VolumeTemplate))
    → Distinct (map_keys m)
    → Distinct (map_keys (add_templates ts m))
unfolding add_templates
add_templates-Distinct [] m d = d
add_templates-Distinct (t ∷ ts) m d =
    add_templates-Distinct ts (add_template t m) (add_template-Distinct t m d)

-- The templates of a service are a map: no name twice.
pub templates-Distinct :
    (service : Service) → Distinct (map_keys (normalize_volume_templates service))
unfolding normalize_volume_templates
templates-Distinct service = add_templates-Distinct service.spec.volume_templates [] tt

module _ (r q : Range) (hr : IsRange r) (hq : IsRange q) where
  volume_claim_templates-order :
      (m : List (Text × VolumeTemplate))
      → Distinct (map_keys m)
      → volume_claim_templates r m ≡ volume_claim_templates q m
  unfolding volume_claim_templates
  volume_claim_templates-order m d = rw (sort-range r q hr hq (map_keys m) d) refl

module _ (r q : Range) (hr : IsRange r) (hq : IsRange q) (lib : Libraries) (service : Service) where
  pod_spec-order : pod_spec lib r service ≡ pod_spec lib q service
  unfolding pod_spec
  pod_spec-order = rw (volumes-order r q hr hq lib service) refl

  pod_template-order :
      (scn : List Text → Text)
      → Spec.populate_pod lib r scn service ≡ Spec.populate_pod lib q scn service
  unfolding Spec.populate_pod
  pod_template-order scn = rw pod_spec-order refl

  workload-order :
      (template : PodTemplateSpec)
      → workload r service (new_controller_params service template)
        ≡ workload q service (new_controller_params service template)
  unfolding workload new_stateful_set new_controller_params
  workload-order template =
      rw
        (volume_claim_templates-order r q hr hq (normalize_volume_templates service)
          (templates-Distinct service))
        refl

  populate_workload-order :
      (scn : List Text → Text)
      → populate_workload lib r scn service ≡ populate_workload lib q scn service
  unfolding populate_workload
  populate_workload-order scn =
      rw (pod_template-order scn) (rw (workload-order (Spec.populate_pod lib q scn service).0) refl)

module _ (lib : Libraries) (scn : List Text → Text) (service : Service) where
  -- The objects that a service is turned into, and their order, are the same for every two orders
  -- in which the maps are ranged over.
  pub populate_service-order :
      (r q : Range)
      → IsRange r
      → IsRange q
      → populate_service lib r scn service ≡ populate_service lib q scn service
  unfolding populate_service
  populate_service-order r q hr hq = rw (populate_workload-order r q hr hq lib service scn) refl
