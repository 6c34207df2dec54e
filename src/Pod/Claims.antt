-- ===== src/Pod/Claims.antt =====
-- The claims that the volumes of a pod refer to (pod/volumes.go) are those that PersistVolume
-- (pod/pod.go) adds.
use rio.Prelude.{
  Text, ℕ, suc, is_empty, ◌≡◌, refl, true, false, is_some, List, [], ◌∷◌, ◌++◌, ◌&&◌, Bool-cases,
  Option-cases, Option, none, some, inl, inr, Member, All, All-map, All-append,
}
use mathlib.Core.Path.{subst}
use rio.Prelude.Maps.{lookup}
use rio.Prelude.Unique.{has}
use rio.Api.Service.{Service, NamedContainer, Volume, VolumeTemplate}
use rio.Kube.Pod.{
  KubeVolume, VolumeSource, secret, config_map, empty_dir, host_path, persistent_volume_claim,
}
use rio.Services.{to_named_containers, container_is_valid}
use rio.Pod.Libraries.{Libraries, Range, IsRange}
use rio.Pod.Volumes.{
  SortedVolumes, map_keys, listed, named_volume, normalize_volume, normalize_from,
  normalize_volumes, sort_volume, sort_each, sort_containers, sort_volumes,
  normalize_volume_templates, volumes, secret_volumes, config_volumes, disk_volumes,
  empty_dir_volumes, host_path_volumes, pvc_volumes, secret_volume, config_volume, empty_dir_volume,
  host_path_volume, pvc_volume,
}
use rio.Pod.Sorted.{Member-of_insert}
use rio.Pod.Order.{listed-HasSameMembers}
use rio.Pod.Mounts.{All-of_map}
use rio.Pod.Spec.{new_claim, claims_of, all_volumes, sidecar_volumes, persist_volume}

module _ {A : Type 0} (P : A → Type 0) where
  All-of_append_left : (xs ys : List A) → All P (xs ++ ys) → All P xs
  All-of_append_left [] ys h = tt
  All-of_append_left (x ∷ xs) ys (p, h) = (p, All-of_append_left xs ys h)

  All-of_append_right : (xs ys : List A) → All P (xs ++ ys) → All P ys
  All-of_append_right [] ys h = h
  All-of_append_right (x ∷ xs) ys (p, h) = All-of_append_right xs ys h

module _ {A : Type 0} {P : A → Type 0} where
  pub All-tabulate : (xs : List A) → ((x : A) → Member x xs → P x) → All P xs
  All-tabulate [] f = tt
  All-tabulate (x ∷ xs) f = (f x (inl refl), All-tabulate xs (λ y m. f y (inr m)))

module _ (lib : Libraries) (P : Text → Type 0) where
  -- The volume, if it is persistent, has the property by its name.
  abbrev IsRaw : Volume → Type 0
  IsRaw w = w.persistent ≡ true → P w.name

  -- The same of a volume that is no host path.
  abbrev IsNormal : Volume → Type 0
  IsNormal v = is_empty v.host_path ≡ true → v.persistent ≡ true → P v.name

  named_volume-IsNormal :
      (container_name : Text) (i : ℕ) (w : Volume)
      → (is_empty w.name && w.persistent) ≡ false
      → IsRaw w
      → IsNormal (named_volume lib container_name i w)
  named_volume-IsNormal container_name i w keep raw = elim (Bool-cases (is_empty w.name)) [
    | inl unnamed ↦ rw unnamed (λ e p. absurd (cc (keep, unnamed, p)))
    | inr has_name ↦ rw has_name (λ e p. raw p)
  ]

  abbrev IsNormalIfKept : Option Volume → Type 0
  IsNormalIfKept none = Unit
  IsNormalIfKept (some v) = IsNormal v

  normalize_volume-IsNormal :
      (container_name : Text) (i : ℕ) (w : Volume)
      → IsRaw w
      → IsNormalIfKept (normalize_volume lib container_name i w)
  unfolding normalize_volume
  normalize_volume-IsNormal container_name i w raw =
      elim (Bool-cases (is_empty w.name && w.persistent)) [
        | inl skipped ↦ rw skipped tt
        | inr keep ↦ elim (Bool-cases (is_empty w.host_path)) [
          | inl plain ↦ rw (keep, plain) (named_volume-IsNormal container_name i w keep raw)
          | inr host ↦ rw (keep, host) (λ e p. absurd (cc (host, e)))
        ]
      ]

  normalize_from-IsNormal :
      (container_name : Text) (i : ℕ) (ws : List Volume)
      → All IsRaw ws
      → All IsNormal (normalize_from lib container_name i ws)
  unfolding normalize_from
  normalize_from-IsNormal container_name i [] h = tt
  normalize_from-IsNormal container_name i (w ∷ ws) (raw, h) =
      let rest = normalize_from-IsNormal container_name (suc i) ws h in
      let first = normalize_volume-IsNormal container_name i w raw in
      elim (Option-cases (normalize_volume lib container_name i w)) [
        | inl skipped ↦ rw (skipped, normalize_from) rest
        | inr (v, kept) ↦ rw (kept, normalize_from) (subst IsNormalIfKept kept first, rest)
      ]

  module _ (templates : List (Text × VolumeTemplate)) where
    -- The names of the claims have the property.
    abbrev AreClaimed : SortedVolumes → Type 0
    AreClaimed s = (k : Text) → Member k (map_keys s.pvc) → P k

    sort_volume-AreClaimed :
        (v : Volume) (s : SortedVolumes)
        → IsNormal v
        → AreClaimed s
        → AreClaimed (sort_volume lib templates v s)
    unfolding sort_volume
    sort_volume-AreClaimed v s normal h k = elim (Bool-cases (has v.name s.all)) [
      | inl old ↦ rw old (h k)
      | inr fresh ↦ elim (Bool-cases (is_empty v.host_path)) [
        | inr host ↦ rw (fresh, host) (h k)
        | inl plain ↦ elim (Bool-cases (is_some (lookup v.name templates))) [
          | inl known ↦ elim (Bool-cases v.persistent) [
            | inl p ↦ rw (fresh, plain, known) (simp p (h k))
            | inr p ↦ rw (fresh, plain, known) (simp p (h k))
          ]
          | inr unknown ↦ elim (Bool-cases v.persistent) [
            | inl p ↦
                rw (fresh, plain, unknown)
                  (simp p (λ m. elim (Member-of_insert k v.name v s.pvc m) [
                    | inl e ↦ rw e (normal plain p)
                    | inr old ↦ h k old
                  ]))
            | inr p ↦ rw (fresh, plain, unknown) (simp p (h k))
          ]
        ]
      ]
    ]

    sort_each-AreClaimed :
        (vs : List Volume) (s : SortedVolumes)
        → All IsNormal vs
        → AreClaimed s
        → AreClaimed (sort_each lib templates vs s)
    unfolding sort_each
    sort_each-AreClaimed [] s hv h = h
    sort_each-AreClaimed (v ∷ vs) s (normal, hv) h =
        sort_each-AreClaimed vs _ hv (sort_volume-AreClaimed v s normal h)

    sort_containers-AreClaimed :
        (cs : List NamedContainer) (s : SortedVolumes)
        → All (λ c. All IsRaw c.container.volumes) cs
        → AreClaimed s
        → AreClaimed (sort_containers lib templates cs s)
    unfolding sort_containers normalize_volumes
    sort_containers-AreClaimed [] s hc h = h
    sort_containers-AreClaimed (c ∷ cs) s (raw, hc) h = sort_containers-AreClaimed cs _ hc (
        sort_each-AreClaimed (normalize_volumes lib c.name c.container.volumes) s
          (normalize_from-IsNormal c.name 0 c.container.volumes raw) h)

module _ (service : Service) where
  -- PersistVolume adds a claim of this name.
  abbrev pub IsClaimed : Text → Type 0
  IsClaimed name =
      (v : Volume) × (v.name ≡ name) × Member (new_claim service v) (persist_volume service)

  -- A volume of a pod that refers to a claim refers to one that is added.
  abbrev pub HasClaim : VolumeSource → Type 0
  HasClaim (persistent_volume_claim name) = IsClaimed name
  HasClaim (secret name optional) = Unit
  HasClaim (config_map name) = Unit
  HasClaim empty_dir = Unit
  HasClaim (host_path path type) = Unit

  -- The volume is claimed, if it is persistent.
  abbrev IsKept : Volume → Type 0
  IsKept v = v.persistent ≡ true → IsClaimed v.name

  claims_of-Member :
      (vs : List Volume)
      → All (λ v. v.persistent ≡ true → Member (new_claim service v) (claims_of service vs)) vs
  unfolding claims_of
  claims_of-Member [] = tt
  claims_of-Member (v ∷ vs) = elim (Bool-cases v.persistent) [
    | inl p ↦
        (λ q. simp p (inl refl), All-map vs (λ w h q. simp p (inr (h q))) (claims_of-Member vs))
    | inr p ↦ (λ q. absurd (cc (p, q)), All-map vs (λ w h q. simp p (h q)) (claims_of-Member vs))
  ]

  all_volumes-IsRaw : All (λ v. v.persistent ≡ true → IsClaimed v.name) (all_volumes service)
  unfolding persist_volume
  all_volumes-IsRaw =
      All-map (all_volumes service) (λ v h p. (v, refl, h p))
        (claims_of-Member (all_volumes service))

  sidecars-IsRaw :
      (cs : List NamedContainer)
      → All (λ v. v.persistent ≡ true → IsClaimed v.name) (sidecar_volumes cs)
      → All (λ c. All (λ v. v.persistent ≡ true → IsClaimed v.name) c.container.volumes) cs
  unfolding sidecar_volumes
  sidecars-IsRaw [] h = tt
  sidecars-IsRaw (c ∷ cs) h = (
    All-of_append_left IsKept c.container.volumes _ h,
    sidecars-IsRaw cs (All-of_append_right IsKept c.container.volumes _ h),
  )

  containers-IsRaw :
      All
        (λ c. All (λ v. v.persistent ≡ true → IsClaimed v.name) c.container.volumes)
        (to_named_containers service)
  unfolding to_named_containers all_volumes
  containers-IsRaw =
      let sidecars =
        sidecars-IsRaw service.spec.sidecars
          (All-of_append_right IsKept service.spec.container.volumes _ all_volumes-IsRaw) in
      elim (Bool-cases (container_is_valid service.spec.container)) [
        | inl valid ↦
            rw valid (
              All-of_append_left IsKept service.spec.container.volumes _ all_volumes-IsRaw,
              sidecars,
            )
        | inr invalid ↦ rw invalid sidecars
      ]

  host_path-HasClaim :
      (m : List (Text × Volume)) (x : Text) → HasClaim (host_path_volume m x).source
  host_path-HasClaim m x = elim (Option-cases (lookup x m)) [
    | inl missing ↦ rw (missing, host_path_volume) tt
    | inr (v, found) ↦ rw (found, host_path_volume) tt
  ]

module _ (lib : Libraries) (range_keys : Range) (service : Service) where
  abbrev cs : List NamedContainer
  cs = to_named_containers service

  abbrev sorted : SortedVolumes
  sorted = sort_volumes lib (normalize_volume_templates service) cs

  sorted-AreClaimed : (k : Text) → Member k (map_keys sorted.pvc) → IsClaimed service k
  unfolding sort_volumes
  sorted-AreClaimed =
      sort_containers-AreClaimed lib (λ k. IsClaimed service k) (normalize_volume_templates service)
        cs _ (containers-IsRaw service) (λ k m. absurd m)

  abbrev Claimed : KubeVolume → Type 0
  Claimed v = HasClaim service v.source

  -- Every claim that a volume of the pod refers to is one that PersistVolume adds.
  pub volumes-HaveClaims :
      IsRange range_keys → All (λ v. HasClaim service v.source) (volumes lib range_keys service)
  unfolding volumes secret_volumes config_volumes disk_volumes empty_dir_volumes host_path_volumes
      pvc_volumes
  volumes-HaveClaims h =
      All-append Claimed (secret_volumes range_keys cs) _
        (All-of_map Claimed secret_volume _ (All-tabulate _ (λ x m. tt)))
        (All-append Claimed (config_volumes range_keys cs) _
          (All-of_map Claimed config_volume _ (All-tabulate _ (λ x m. tt)))
          (All-append Claimed (empty_dir_volumes range_keys sorted.empty_dir) _
            (All-of_map Claimed empty_dir_volume _ (All-tabulate _ (λ x m. tt)))
            (All-append Claimed (host_path_volumes range_keys sorted.host_path) _
              (All-of_map Claimed (host_path_volume sorted.host_path) _
                (All-tabulate _ (λ x m. host_path-HasClaim service sorted.host_path x)))
              (All-of_map Claimed pvc_volume _ (
                All-tabulate (listed range_keys sorted.pvc) (λ x m.
                  sorted-AreClaimed x ((listed-HasSameMembers range_keys h sorted.pvc x).1 m)))))))
