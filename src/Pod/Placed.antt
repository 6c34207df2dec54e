-- ===== src/Pod/Placed.antt =====
-- sortVolumes of modules/service/controllers/service/populate/pod/volumes.go: every volume of the
-- containers is placed.
use rio.Prelude.{
  Text, ◌≡◌, refl, false, is_some, is_empty, List, [], ◌∷◌, Bool-cases, inl, inr, Member, All,
  All-map,
}
use rio.Prelude.Maps.{lookup}
use rio.Prelude.Unique.{has, Member-of_has}
use rio.Api.Service.{NamedContainer, Volume, VolumeTemplate}
use rio.Pod.Libraries.{Libraries}
use rio.Pod.Volumes.{
  SortedVolumes, sort_volume, sort_each, sort_containers, sort_volumes, normalize_volumes,
}
use rio.Pod.Sorted.{IsSourced, IsSortedWell, sort_volume-IsSortedWell}

module _ (lib : Libraries) (templates : List (Text × VolumeTemplate)) where
  -- What is seen after a round, if `v` is new.
  seen_after :
      (k : Text) (v : Volume) (s : SortedVolumes)
      → has v.name s.all ≡ false
      → Member k (v.name ∷ s.all)
      → Member k (sort_volume lib templates v s).all
  unfolding sort_volume
  seen_after k v s new m = elim (Bool-cases (is_empty v.host_path)) [
    | inr host ↦ rw (new, host) m
    | inl none ↦ elim (Bool-cases (is_some (lookup v.name templates))) [
      | inl known ↦ elim (Bool-cases v.persistent) [
        | inl p ↦ rw (new, none, known) (simp p m)
        | inr p ↦ rw (new, none, known) (simp p m)
      ]
      | inr unknown ↦ elim (Bool-cases v.persistent) [
        | inl p ↦ rw (new, none, unknown) (simp p m)
        | inr p ↦ rw (new, none, unknown) (simp p m)
      ]
    ]
  ]

  sort_volume-keeps :
      (k : Text) (v : Volume) (s : SortedVolumes)
      → Member k s.all
      → Member k (sort_volume lib templates v s).all
  unfolding sort_volume
  sort_volume-keeps k v s m = elim (Bool-cases (has v.name s.all)) [
    | inl old ↦ rw old m
    | inr new ↦ seen_after k v s new (inr m)
  ]

  sort_volume-seen :
      (v : Volume) (s : SortedVolumes) → Member v.name (sort_volume lib templates v s).all
  unfolding sort_volume
  sort_volume-seen v s = elim (Bool-cases (has v.name s.all)) [
    | inl old ↦ rw old (Member-of_has v.name s.all old)
    | inr new ↦ seen_after v.name v s new (inl refl)
  ]

  sort_each-IsSortedWell :
      (vs : List Volume) (s : SortedVolumes)
      → IsSortedWell templates s
      → IsSortedWell templates (sort_each lib templates vs s)
  unfolding sort_each
  sort_each-IsSortedWell [] s h = h
  sort_each-IsSortedWell (v ∷ vs) s h =
      sort_each-IsSortedWell vs _ (sort_volume-IsSortedWell lib templates v s h)

  sort_each-keeps :
      (k : Text) (vs : List Volume) (s : SortedVolumes)
      → Member k s.all
      → Member k (sort_each lib templates vs s).all
  unfolding sort_each
  sort_each-keeps k [] s m = m
  sort_each-keeps k (v ∷ vs) s m = sort_each-keeps k vs _ (sort_volume-keeps k v s m)

  sort_each-seen :
      (vs : List Volume) (s : SortedVolumes)
      → All (λ v. Member v.name (sort_each lib templates vs s).all) vs
  unfolding sort_each
  sort_each-seen [] s = tt
  sort_each-seen (v ∷ vs) s =
      (sort_each-keeps v.name vs _ (sort_volume-seen v s), sort_each-seen vs _)

  sort_containers-IsSortedWell :
      (cs : List NamedContainer) (s : SortedVolumes)
      → IsSortedWell templates s
      → IsSortedWell templates (sort_containers lib templates cs s)
  unfolding sort_containers
  sort_containers-IsSortedWell [] s h = h
  sort_containers-IsSortedWell (c ∷ cs) s h =
      sort_containers-IsSortedWell cs _
        (sort_each-IsSortedWell (normalize_volumes lib c.name c.container.volumes) s h)

  sort_containers-keeps :
      (k : Text) (cs : List NamedContainer) (s : SortedVolumes)
      → Member k s.all
      → Member k (sort_containers lib templates cs s).all
  unfolding sort_containers
  sort_containers-keeps k [] s m = m
  sort_containers-keeps k (c ∷ cs) s m =
      sort_containers-keeps k cs _
        (sort_each-keeps k (normalize_volumes lib c.name c.container.volumes) s m)

  -- The names of a container's volumes are in the set.
  abbrev VolumesSeen : List Text → NamedContainer → Type 0
  VolumesSeen all c =
      All (λ v. Member v.name all) (normalize_volumes lib c.name c.container.volumes)

  sort_containers-seen :
      (cs : List NamedContainer) (s : SortedVolumes)
      → All (VolumesSeen (sort_containers lib templates cs s).all) cs
  unfolding sort_containers
  sort_containers-seen [] s = tt
  sort_containers-seen (c ∷ cs) s = (
    All-map (normalize_volumes lib c.name c.container.volumes)
        (λ v m. sort_containers-keeps v.name cs _ m)
        (sort_each-seen (normalize_volumes lib c.name c.container.volumes) s),
    sort_containers-seen cs _,
  )

  pub sort_volumes-IsSortedWell :
      (cs : List NamedContainer) → IsSortedWell templates (sort_volumes lib templates cs)
  unfolding sort_volumes
  sort_volumes-IsSortedWell cs = sort_containers-IsSortedWell cs _ (record {
    empty_seen = λ k m. m;
    host_seen = λ k m. m;
    pvc_seen = λ k m. m;
    empty_host = λ k m n. m;
    empty_pvc = λ k m n. m;
    host_pvc = λ k m n. m;
    sourced = λ k m. absurd m;
  })

  -- The names of a container's volumes have volumes of the pod or templates.
  abbrev pub VolumesSourced : SortedVolumes → NamedContainer → Type 0
  VolumesSourced s c =
      All (λ v. IsSourced templates s v.name) (normalize_volumes lib c.name c.container.volumes)

  pub sort_volumes-VolumesSourced :
      (cs : List NamedContainer) → All (VolumesSourced (sort_volumes lib templates cs)) cs
  unfolding sort_volumes
  sort_volumes-VolumesSourced cs =
      let well = sort_volumes-IsSortedWell cs in
      All-map cs
        (λ c seen.
          All-map (normalize_volumes lib c.name c.container.volumes) (λ v m. well.sourced v.name m)
            seen)
        (sort_containers-seen cs _)
