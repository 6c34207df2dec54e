-- ===== src/Workload/Mounts.antt =====
-- What the containers of a workload mount is there: the volumes of its pods and, for a stateful
-- set, its claim templates.
use rio.Prelude.{
  Text, is_cons, ◌≡◌, refl, true, false, none, some, is_some, List, [], ◌∷◌, ◌++◌, map, Bool,
  Bool-cases, Option-cases, inl, inr, Member, Member-append_left, Member-append_right, All, All-map,
  text_eq, text_eq_iff, arith,
}
use rio.Prelude.Maps.{lookup}
use rio.Prelude.Sort.{sort-HasSameMembers}
use rio.Api.Service.{Service, VolumeTemplate}
use rio.Kube.Pod.{PodTemplateSpec}
use rio.Kube.Workload.{
  Generated, access, kube_service, claim, deployment, stateful_set, daemon_set,
  PersistentVolumeClaim,
}
use rio.Services.{to_named_containers}
use rio.Pod.Libraries.{Libraries, Range, IsRange}
use rio.Pod.Volumes.{map_keys, vol, normalize_volume_templates, volumes}
use rio.Pod.Container.{containers}
use rio.Pod.Names.{names_of}
use rio.Pod.Mounts.{HasNamedMounts, containers-AreBacked}
use rio.Workload.Params.{new_controller_params}
use rio.Workload.Populate.{
  claim_template, workload, new_stateful_set, volume_claim_templates, claim_templates_of,
}

claim_names : List PersistentVolumeClaim → List Text
claim_names cs = map (λ c. c.meta.name) cs

-- The names of the claims that a stateful set makes for a pod.
abbrev pub template_names : Generated → List Text
unfolding claim_names
template_names (stateful_set s) = claim_names s.volume_claim_templates
template_names (access o) = []
template_names (kube_service s) = []
template_names (claim c) = []
template_names (deployment d) = []
template_names (daemon_set d) = []

lookup-Member :
    {V : Type 0} (k : Text) (m : List (Text × V))
    → is_some (lookup k m) ≡ true
    → Member k (map_keys m)
unfolding lookup
lookup-Member k [] h = absurd (cc h)
lookup-Member k ((j, v) ∷ m) h = elim (Bool-cases (text_eq j k)) [
  | inl same ↦ inl (ground (arith, text_eq_iff j k, same))
  | inr other ↦ inr (lookup-Member k m (ground (arith, other, h)))
]

lookup-is_cons :
    {V : Type 0} (k : Text) (m : List (Text × V)) → is_some (lookup k m) ≡ true → is_cons m ≡ true
unfolding lookup
lookup-is_cons k [] h = absurd (cc h)
lookup-is_cons k (e ∷ m) h = refl

module _ (m : List (Text × VolumeTemplate)) (x : Text) (names : List Text) where
  claim_templates_of-found :
      (t : VolumeTemplate)
      → lookup x m ≡ some t
      → claim_templates_of m (x ∷ names) ≡ claim_template x t ∷ claim_templates_of m names
  unfolding claim_templates_of
  claim_templates_of-found t found = rw (found, claim_templates_of) refl

  claim_templates_of-missing :
      lookup x m ≡ none → claim_templates_of m (x ∷ names) ≡ claim_templates_of m names
  unfolding claim_templates_of
  claim_templates_of-missing missing = rw (missing, claim_templates_of) refl

claim_templates_of-Member :
    (m : List (Text × VolumeTemplate)) (n : Text) (names : List Text)
    → is_some (lookup n m) ≡ true
    → Member n names
    → Member (vol n) (claim_names (claim_templates_of m names))
unfolding claim_names
claim_templates_of-Member m n [] h i = elim i [ ]
claim_templates_of-Member m n (x ∷ names) h (inl e) = elim (Option-cases (lookup x m)) [
  | inl missing ↦ absurd (cc (h, e, missing))
  | inr (t, found) ↦ rw (claim_templates_of-found m x names t found) (inl (rw e refl))
]
claim_templates_of-Member m n (x ∷ names) h (inr i) = elim (Option-cases (lookup x m)) [
  | inl missing ↦
      rw (claim_templates_of-missing m x names missing) (claim_templates_of-Member m n names h i)
  | inr (t, found) ↦
      rw (claim_templates_of-found m x names t found)
        (inr (claim_templates_of-Member m n names h i))
]

module _ (range_keys : Range) (h : IsRange range_keys) (service : Service) where
  abbrev templates : List (Text × VolumeTemplate)
  templates = normalize_volume_templates service

  volume_claim_templates-Member :
      (n : Text)
      → is_some (lookup n templates) ≡ true
      → Member (vol n) (claim_names (volume_claim_templates range_keys templates))
  unfolding volume_claim_templates
  volume_claim_templates-Member n t = claim_templates_of-Member templates n _ t (
      (sort-HasSameMembers (range_keys (map_keys templates)) n).0
        ((h.same (map_keys templates) n).0 (lookup-Member n templates t)))

  module _ (template : PodTemplateSpec) where
    abbrev pub made : Generated
    made = workload range_keys service (new_controller_params service template)

    template_names-Member :
        (n : Text)
        → service.spec.global ≡ false
        → is_some (lookup n templates) ≡ true
        → Member (vol n) (template_names made)
    unfolding workload new_controller_params new_stateful_set claim_names
    template_names-Member n g t =
        rw (g, lookup-is_cons n templates t) (volume_claim_templates-Member n t)

module _ (lib : Libraries) (range_keys : Range) (service : Service)
    (template : PodTemplateSpec) where
  -- Every mount of a container of a workload names a volume of its pods or a claim template of the
  -- stateful set, if the service is not global and mounts configs and secrets by name.
  pub mounts-AreProvided :
      (init : Bool)
      → IsRange range_keys
      → service.spec.global ≡ false
      → All HasNamedMounts (to_named_containers service)
      → All
          (λ k.
            All
              (λ m. Member m.name (
                names_of (volumes lib range_keys service)
                ++ template_names
                    (workload range_keys service (new_controller_params service template))))
              k.volume_mounts)
          (containers lib service init)
  mounts-AreProvided init h g named =
      All-map (containers lib service init)
        (λ k backed.
          All-map k.volume_mounts
            (λ m b. elim b [
              | inl i ↦ Member-append_left m.name _ _ i
              | inr (n, e, t) ↦ rw e (
                  Member-append_right (vol n) (names_of (volumes lib range_keys service)) _
                    (template_names-Member range_keys h service template n g t))
            ])
            backed)
        (containers-AreBacked lib range_keys h service init named)
