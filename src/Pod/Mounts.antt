-- ===== src/Pod/Mounts.antt =====
-- The volumes that the containers of a pod mount (pod/containers.go and pod/volumes.go).
use rio.Prelude.{
  Text, str, is_empty, ◌≡◌, refl, true, false, is_some, List, [], ◌∷◌, ◌++◌, map, Bool, Bool-cases,
  ◌⊎◌, inl, inr, Member, Member-append_left, Member-append_right, All, All-map, All-append,
}
use rio.Prelude.Maps.{lookup}
use rio.Prelude.Prefixed.{Member-map, prefixed}
use rio.Api.Service.{Service, NamedContainer, DataMount, Volume}
use rio.Kube.Pod.{VolumeMount}
use rio.Services.{to_named_containers}
use rio.Stringers.DataMount.{configs_default_path, secrets_default_path}
use rio.Pod.Libraries.{Libraries, Range, IsRange}
use rio.Pod.Volumes.{
  SortedVolumes, map_keys, vol, remove_duplicate_and_sort, mount_names, secret_names, config_names,
  listed, sort_volumes, normalize_volumes, normalize_volume_templates, volumes,
}
use rio.Pod.Container.{
  data_mount, data_mounts, volume_mounts, mounts, to_container, made_containers, containers,
}
use rio.Pod.Sorted.{IsSourced}
use rio.Pod.Placed.{sort_volumes-VolumesSourced, VolumesSourced}
use rio.Pod.Order.{names-HasSameMembers, listed-HasSameMembers}
use rio.Pod.Names.{names_of, volumes-names}

-- Configs and secrets are mounted by name.
abbrev pub IsNamed : DataMount → Type 0
IsNamed m = is_empty m.name ≡ false

abbrev pub HasNamedMounts : NamedContainer → Type 0
HasNamedMounts c = All IsNamed c.container.configs × All IsNamed c.container.secrets

mount_names-Member :
    (ms : List DataMount) → All IsNamed ms → All (λ m. Member m.name (mount_names ms)) ms
unfolding mount_names
mount_names-Member [] h = tt
mount_names-Member (m ∷ ms) (n, h) =
    (rw n (inl refl), All-map ms (λ x i. rw n (inr i)) (mount_names-Member ms h))

-- A container's mounts are among those of all containers.
AllIn : List Text → List DataMount → Type 0
AllIn names ms = All (λ m. Member m.name names) ms

secret_names-AllIn :
    (cs : List NamedContainer)
    → All HasNamedMounts cs
    → All (λ c. AllIn (secret_names cs) c.container.secrets) cs
unfolding secret_names AllIn
secret_names-AllIn [] h = tt
secret_names-AllIn (c ∷ cs) ((nc, ns), h) = (
  All-map c.container.secrets (λ m i. Member-append_left m.name _ _ i)
      (mount_names-Member c.container.secrets ns),
  All-map cs (λ d hd. All-map d.container.secrets (λ m i. Member-append_right m.name _ _ i) hd)
      (secret_names-AllIn cs h),
)

config_names-AllIn :
    (cs : List NamedContainer)
    → All HasNamedMounts cs
    → All (λ c. AllIn (config_names cs) c.container.configs) cs
unfolding config_names AllIn
config_names-AllIn [] h = tt
config_names-AllIn (c ∷ cs) ((nc, ns), h) = (
  All-map c.container.configs (λ m i. Member-append_left m.name _ _ i)
      (mount_names-Member c.container.configs nc),
  All-map cs (λ d hd. All-map d.container.configs (λ m i. Member-append_right m.name _ _ i) hd)
      (config_names-AllIn cs h),
)

module _ {A B : Type 0} (P : B → Type 0) where
  pub All-of_map : (f : A → B) (xs : List A) → All (λ x. P (f x)) xs → All P (map f xs)
  All-of_map f [] h = tt
  All-of_map f (x ∷ xs) (p, h) = (p, All-of_map f xs h)

module _ {A : Type 0} {P Q R : A → Type 0} where
  All-zip : (xs : List A) → ((x : A) → P x → Q x → R x) → All P xs → All Q xs → All R xs
  All-zip [] f h k = tt
  All-zip (x ∷ xs) f (p, h) (q, k) = (f x p q, All-zip xs f h k)

module _ (lib : Libraries) (range_keys : Range) (h : IsRange range_keys) (service : Service) where
  abbrev pod_volumes : List Text
  pod_volumes = names_of (volumes lib range_keys service)

  -- A volume of the pod, or one made from a template of the service.
  abbrev pub IsBacked : Text → Type 0
  IsBacked name =
      Member name (names_of (volumes lib range_keys service))
      ⊎ ((n : Text) × (name ≡ vol n)
          × (is_some (lookup n (normalize_volume_templates service)) ≡ true))

  abbrev cs : List NamedContainer
  cs = to_named_containers service

  abbrev sorted : SortedVolumes
  sorted = sort_volumes lib (normalize_volume_templates service) cs

  secret-IsBacked : (name : Text) → Member name (secret_names cs) → IsBacked (str "secret-" ++ name)
  secret-IsBacked name m = inl (
      rw (volumes-names range_keys h lib service) (
        Member-append_left _ _ _ (
          Member-map (λ x. str "secret-" ++ x) name _
            ((names-HasSameMembers range_keys h (secret_names cs) name).0 m))))

  config-IsBacked : (name : Text) → Member name (config_names cs) → IsBacked (str "config-" ++ name)
  config-IsBacked name m = inl (
      rw (volumes-names range_keys h lib service) (
        Member-append_right _ _ _ (
          Member-append_left _ _ _ (
            Member-map (λ x. str "config-" ++ x) name _
              ((names-HasSameMembers range_keys h (config_names cs) name).0 m)))))

  abbrev secrets_part : List Text
  secrets_part = prefixed (str "secret-") (remove_duplicate_and_sort range_keys (secret_names cs))

  abbrev configs_part : List Text
  configs_part = prefixed (str "config-") (remove_duplicate_and_sort range_keys (config_names cs))

  listed-IsBacked :
      (name : Text)
      → Member name (
          listed range_keys sorted.empty_dir
          ++ (listed range_keys sorted.host_path ++ listed range_keys sorted.pvc))
      → IsBacked (vol name)
  listed-IsBacked name m = inl (
      rw (volumes-names range_keys h lib service) (
        Member-append_right (vol name) secrets_part (configs_part ++ _) (
          Member-append_right (vol name) configs_part _
            (Member-map (λ x. str "vol-" ++ x) name _ m))))

  in_list :
      (name : Text) (m : List (Text × Volume))
      → Member name (map_keys m)
      → Member name (listed range_keys m)
  in_list name m i = (listed-HasSameMembers range_keys h m name).0 i

  sourced-IsBacked :
      (name : Text)
      → IsSourced (normalize_volume_templates service) sorted name
      → IsBacked (vol name)
  sourced-IsBacked name (inl e) =
      listed-IsBacked name (Member-append_left _ _ _ (in_list name sorted.empty_dir e))
  sourced-IsBacked name (inr (inl p)) = listed-IsBacked name (
      Member-append_right _ (listed range_keys sorted.empty_dir) _
        (Member-append_left _ _ _ (in_list name sorted.host_path p)))
  sourced-IsBacked name (inr (inr (inl c))) = listed-IsBacked name (
      Member-append_right _ (listed range_keys sorted.empty_dir) _
        (Member-append_right _ (listed range_keys sorted.host_path) _ (in_list name sorted.pvc c)))
  sourced-IsBacked name (inr (inr (inr t))) = inr (name, refl, t)

  abbrev AreBacked : List VolumeMount → Type 0
  AreBacked ms = All (λ m. IsBacked m.name) ms

  container-AreBacked :
      (c : NamedContainer)
      → AllIn (config_names cs) c.container.configs
      → AllIn (secret_names cs) c.container.secrets
      → VolumesSourced lib (normalize_volume_templates service) sorted c
      → AreBacked (mounts lib c.name c.container)
  unfolding AllIn mounts data_mounts data_mount volume_mounts str
  container-AreBacked c configs secrets sourced =
      All-append (λ m. IsBacked m.name) _ _
        (All-of_map (λ m. IsBacked m.name) (data_mount configs_default_path (str "config"))
          c.container.configs
          (All-map c.container.configs (λ m i. config-IsBacked m.name i) configs))
        (All-append (λ m. IsBacked m.name) _ _
          (All-of_map (λ m. IsBacked m.name) (data_mount secrets_default_path (str "secret"))
            c.container.secrets
            (All-map c.container.secrets (λ m i. secret-IsBacked m.name i) secrets))
          (All-of_map (λ m. IsBacked m.name) _ (normalize_volumes lib c.name c.container.volumes)
            (All-map (normalize_volumes lib c.name c.container.volumes)
              (λ v s. sourced-IsBacked v.name s) sourced)))

  named_containers-AreBacked :
      All HasNamedMounts cs → All (λ c. AreBacked (mounts lib c.name c.container)) cs
  named_containers-AreBacked named =
      All-zip cs (λ c f s. f s)
        (All-zip cs (λ c g s. container-AreBacked c g s) (config_names-AllIn cs named)
          (secret_names-AllIn cs named))
        (sort_volumes-VolumesSourced lib (normalize_volume_templates service) cs)

  made-AreBacked :
      (init : Bool) (ds : List NamedContainer)
      → All (λ c. AreBacked (mounts lib c.name c.container)) ds
      → All (λ k. AreBacked k.volume_mounts) (made_containers lib init ds)
  unfolding made_containers to_container
  made-AreBacked init [] b = tt
  made-AreBacked true (c ∷ ds) (p, b) = elim (Bool-cases c.init) [
    | inl e ↦ rw e (p, made-AreBacked true ds b)
    | inr e ↦ rw e (made-AreBacked true ds b)
  ]
  made-AreBacked false (c ∷ ds) (p, b) = elim (Bool-cases c.init) [
    | inl e ↦ rw e (made-AreBacked false ds b)
    | inr e ↦ rw e (p, made-AreBacked false ds b)
  ]

  -- Every mount of a container of the pod is backed, if configs and secrets are mounted by name.
  pub containers-AreBacked :
      (init : Bool)
      → All HasNamedMounts (to_named_containers service)
      → All (λ k. All (λ m. IsBacked m.name) k.volume_mounts) (containers lib service init)
  unfolding containers
  containers-AreBacked init named =
      made-AreBacked init (to_named_containers service) (named_containers-AreBacked named)
