-- ===== src/Workload/Images.antt =====
-- A workload is generated where every container of the service has an image.
use rio.Prelude.{
  Text, ◌≡◌, refl, true, false, ◌&&◌, not, is_empty, List, [], ◌∷◌, ◌++◌, Bool, Bool-cases, inl,
  inr, if◌then◌else◌, arith, sym,
}
use mathlib.Core.List.{append-nil}
use rio.Api.Service.{Service, NamedContainer}
use rio.Services.{to_named_containers}
use rio.Pod.Libraries.{Libraries, Range}
use rio.Pod.Container.{made_containers, containers, to_container}
use rio.Pod.Spec
use rio.Pod.Spec.{pod_spec, roles, persist_volume}
use rio.Workload.Params.{images_set, all_images_set, new_controller_params}
use rio.Workload.Populate.{workload, populate_workload}

-- Each container of the service has an image.
abbrev pub have_images : List NamedContainer → Bool
have_images [] = true
have_images (c ∷ cs) = let rest = have_images cs in not (is_empty c.container.image) && rest

module _ (lib : Libraries) where
  images_set-cons :
      (init : Bool) (c : NamedContainer) (cs : List NamedContainer)
      → images_set (made_containers lib init (c ∷ cs)) ≡ (
          if c.init
          then (if init
              then not (is_empty c.container.image) && images_set (made_containers lib init cs)
              else images_set (made_containers lib init cs))
          else if init
          then images_set (made_containers lib init cs)
          else not (is_empty c.container.image) && images_set (made_containers lib init cs))
  unfolding made_containers images_set to_container
  images_set-cons true c cs = elim (Bool-cases c.init) [ inl i ↦ simp i refl | inr i ↦ simp i refl ]
  images_set-cons false c cs = elim (Bool-cases c.init) [
    | inl i ↦ simp i refl
    | inr i ↦ simp i refl
  ]

  -- The two groups together are all containers.
  images_set-groups :
      (cs : List NamedContainer)
      → (images_set (made_containers lib false cs) && images_set (made_containers lib true cs))
        ≡ have_images cs
  unfolding made_containers images_set
  images_set-groups [] = refl
  images_set-groups (c ∷ cs) =
      ground (arith, images_set-cons false c cs, images_set-cons true c cs, images_set-groups cs)

module _ (lib : Libraries) (range_keys : Range) (scn : List Text → Text) (service : Service) where
  all_images_set-populate :
      all_images_set (Spec.populate_pod lib range_keys scn service).0
      ≡ have_images (to_named_containers service)
  unfolding all_images_set Spec.populate_pod pod_spec containers
  all_images_set-populate = images_set-groups lib (to_named_containers service)

  -- What is generated besides the Kubernetes service: the access objects and the claims of the
  -- service, and exactly if every one of its containers has an image, one workload behind them.
  pub populate_workload-eq :
      populate_workload lib range_keys scn service
      ≡ (roles scn service ++ persist_volume service)
        ++ (if have_images (to_named_containers service)
            then workload range_keys service
                (new_controller_params service (Spec.populate_pod lib range_keys scn service).0)
              ∷ []
            else [])
  unfolding populate_workload Spec.populate_pod
  populate_workload-eq = elim (Bool-cases (have_images (to_named_containers service))) [
    | inl set ↦ rw (all_images_set-populate, set) refl
    | inr unset ↦
        rw (all_images_set-populate, unset)
          (sym (append-nil (roles scn service ++ persist_volume service)))
  ]
