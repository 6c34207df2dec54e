-- ===== src/Pod/Names.antt =====
-- The names of the volumes of a pod (pod/volumes.go).
use rio.Prelude.{
  Text, ℕ, str, arith, ◌≡◌, refl, sym, ap, ◌∙◌, List, [], ◌∷◌, ◌++◌, map, inl, inr, Member,
}
use rio.Prelude.Unique.{Distinct, Member-append_cases}
use rio.Prelude.Prefixed.{Distinct-append, Distinct-prefixed, Member-of_map, prefixed}
use mathlib.Core.List.{map-append}
use rio.Api.Service.{Service, Volume}
use rio.Kube.Pod.{KubeVolume}
use rio.Services.{to_named_containers}
use rio.Pod.Libraries.{Libraries, Range, IsRange}
use rio.Pod.Volumes.{
  SortedVolumes, map_keys, remove_duplicate_and_sort, secret_names, config_names, secret_volume,
  config_volume, empty_dir_volume, host_path_volume, pvc_volume, secret_volumes, config_volumes,
  empty_dir_volumes, host_path_volumes, pvc_volumes, disk_volumes, volumes, listed, sort_volumes,
  normalize_volume_templates,
}
use rio.Pod.Sorted.{AreApart}
use rio.Pod.Placed.{sort_volumes-IsSortedWell}
use rio.Pod.Order.{names-Distinct, listed-HasSameMembers}

abbrev pub names_of : List KubeVolume → List Text
names_of vs = map (λ v. v.name) vs

names_of-append : (vs ws : List KubeVolume) → names_of (vs ++ ws) ≡ names_of vs ++ names_of ws
names_of-append vs ws = map-append (λ v. v.name) vs ws

-- Volumes that are named by a prefix.
names_of-prefixed :
    (f : Text → KubeVolume) (p : Text)
    → ((x : Text) → (f x).name ≡ p ++ x)
    → (xs : List Text) → names_of (map f xs) ≡ prefixed p xs
names_of-prefixed f p e [] = refl
names_of-prefixed f p e (x ∷ xs) = cc (e x, names_of-prefixed f p e xs)

-- Prefixes with different first bytes keep names apart.
AreOther : List Text → List Text → Type 0
AreOther xs ys = (k : Text) → Member k xs → ¬ Member k ys

prefixed-AreOther :
    (p q : Text)
    → ((s t : Text) → ¬ (p ++ s ≡ q ++ t))
    → (xs ys : List Text) → AreOther (prefixed p xs) (prefixed q ys)
unfolding AreOther
prefixed-AreOther p q differ xs ys k m n =
    let (s, ms, es) = Member-of_map (λ z. p ++ z) k xs m in
    let (t, mt, et) = Member-of_map (λ z. q ++ z) k ys n in differ s t (sym es ∙ et)

AreOther-append : (xs ys zs : List Text) → AreOther xs ys → AreOther xs zs → AreOther xs (ys ++ zs)
unfolding AreOther
AreOther-append xs ys zs f g k m n = elim (Member-append_cases k ys zs n) [
  | inl a ↦ f k m a
  | inr b ↦ g k m b
]

abbrev first : Text → ℕ
first [] = 0
first (c ∷ s) = c

secret_other : (s t : Text) → ¬ (str "secret-" ++ s ≡ str "config-" ++ t)
unfolding str
secret_other s t e = let n : 115 ≡ 99 = ap first e in absurd (omega (arith, n))

secret_vol_other : (s t : Text) → ¬ (str "secret-" ++ s ≡ str "vol-" ++ t)
unfolding str
secret_vol_other s t e = let n : 115 ≡ 118 = ap first e in absurd (omega (arith, n))

config_vol_other : (s t : Text) → ¬ (str "config-" ++ s ≡ str "vol-" ++ t)
unfolding str
config_vol_other s t e = let n : 99 ≡ 118 = ap first e in absurd (omega (arith, n))

module _ (range_keys : Range) (h : IsRange range_keys) where
  abbrev names : List Text → List Text
  names xs = remove_duplicate_and_sort range_keys xs

  -- Maps without a common name are listed without one.
  listed-AreOther :
      (m n : List (Text × Volume))
      → AreApart m n
      → AreOther (listed range_keys m) (listed range_keys n)
  unfolding AreOther
  listed-AreOther m n apart k i j =
      apart k ((listed-HasSameMembers range_keys h m k).1 i)
        ((listed-HasSameMembers range_keys h n k).1 j)

  listed-Distinct : (m : List (Text × Volume)) → Distinct (listed range_keys m)
  listed-Distinct m = names-Distinct range_keys h (range_keys (map_keys m))

  module _ (lib : Libraries) (service : Service) where
    abbrev sorted : SortedVolumes
    sorted = sort_volumes lib (normalize_volume_templates service) (to_named_containers service)

    abbrev disk_names : List Text
    disk_names =
        listed range_keys sorted.empty_dir
        ++ (listed range_keys sorted.host_path ++ listed range_keys sorted.pvc)

    disk_names-Distinct : Distinct disk_names
    unfolding AreOther
    disk_names-Distinct =
        let well =
          sort_volumes-IsSortedWell lib (normalize_volume_templates service)
            (to_named_containers service) in
        Distinct-append (listed range_keys sorted.empty_dir) _ (listed-Distinct sorted.empty_dir)
          (Distinct-append (listed range_keys sorted.host_path) _ (listed-Distinct sorted.host_path)
            (listed-Distinct sorted.pvc)
            (listed-AreOther sorted.host_path sorted.pvc well.host_pvc))
          (AreOther-append (listed range_keys sorted.empty_dir) (listed range_keys sorted.host_path)
            _ (listed-AreOther sorted.empty_dir sorted.host_path well.empty_host)
            (listed-AreOther sorted.empty_dir sorted.pvc well.empty_pvc))

    disk_volumes-names :
        names_of (disk_volumes lib range_keys (to_named_containers service) service)
        ≡ prefixed (str "vol-") disk_names
    unfolding disk_volumes empty_dir_volumes host_path_volumes pvc_volumes
    disk_volumes-names =
        rw (names_of-append, names_of-append)
          (rw
            (
              names_of-prefixed empty_dir_volume (str "vol-") (λ x. refl),
              names_of-prefixed (host_path_volume sorted.host_path) (str "vol-") (λ x. refl),
              names_of-prefixed pvc_volume (str "vol-") (λ x. refl),
            )
            (sym (
              map-append (λ x. str "vol-" ++ x) (listed range_keys sorted.empty_dir) _
              ∙ ap (λ ns. prefixed (str "vol-") (listed range_keys sorted.empty_dir) ++ ns)
                  (map-append (λ x. str "vol-" ++ x) (listed range_keys sorted.host_path) _))))

    pub volumes-names :
        names_of (volumes lib range_keys service)
        ≡ prefixed (str "secret-") (names (secret_names (to_named_containers service)))
          ++ (prefixed (str "config-") (names (config_names (to_named_containers service)))
              ++ prefixed (str "vol-") disk_names)
    unfolding volumes secret_volumes config_volumes
    volumes-names =
        rw (names_of-append, names_of-append)
          (rw
            (
              names_of-prefixed secret_volume (str "secret-") (λ x. refl),
              names_of-prefixed config_volume (str "config-") (λ x. refl),
              disk_volumes-names,
            )
            refl)

    -- No two volumes of a pod have the same name.
    pub volumes-Distinct : Distinct (names_of (volumes lib range_keys service))
    unfolding AreOther
    volumes-Distinct =
        let secrets = names (secret_names (to_named_containers service)) in
        let configs = names (config_names (to_named_containers service)) in
        rw volumes-names (
          Distinct-append (prefixed (str "secret-") secrets) _
            (Distinct-prefixed (str "secret-") secrets (names-Distinct range_keys h _))
            (Distinct-append (prefixed (str "config-") configs) _
              (Distinct-prefixed (str "config-") configs (names-Distinct range_keys h _))
              (Distinct-prefixed (str "vol-") disk_names disk_names-Distinct)
              (prefixed-AreOther (str "config-") (str "vol-") config_vol_other configs disk_names))
            (AreOther-append (prefixed (str "secret-") secrets) _ _
              (prefixed-AreOther (str "secret-") (str "config-") secret_other secrets configs)
              (prefixed-AreOther (str "secret-") (str "vol-") secret_vol_other secrets disk_names)))
