-- ===== src/Pod/Order.antt =====
-- removeDuplicateAndSort of modules/service/controllers/service/populate/pod/volumes.go: what it
-- lists, for every order of the ranges.
use rio.Prelude.{Text, ◌≡◌, List, [], ◌∷◌, Bool-cases, inl, inr}
use rio.Prelude.Sort.{sort, HasSameMembers, sort-HasSameMembers, Distinct-sort}
use rio.Prelude.Canonical.{sort_canonical}
use rio.Prelude.Unique.{has, Distinct, Member-of_has, not-Member_of_has}
use rio.Api.Service.{Service, NamedContainer, Volume}
use rio.Services.{to_named_containers}
use rio.Pod.Libraries.{Libraries, Range, IsRange}
use rio.Pod.Volumes.{
  map_keys, set_of, remove_duplicate_and_sort, secret_volumes, config_volumes, empty_dir_volumes,
  host_path_volumes, pvc_volumes, disk_volumes, volumes, secret_names, config_names, listed,
  sort_volumes, normalize_volume_templates,
}

pub HasSameMembers-trans :
    (xs ys zs : List Text) → HasSameMembers xs ys → HasSameMembers ys zs → HasSameMembers xs zs
HasSameMembers-trans xs ys zs f g k = (λ m. (g k).0 ((f k).0 m), λ m. (f k).1 ((g k).1 m))

pub HasSameMembers-sym : (xs ys : List Text) → HasSameMembers xs ys → HasSameMembers ys xs
HasSameMembers-sym xs ys f k = ((f k).1, (f k).0)

set_of-Distinct : (array : List Text) → Distinct (set_of array)
unfolding set_of
set_of-Distinct [] = tt
set_of-Distinct (s ∷ array) = elim (Bool-cases (has s (set_of array))) [
  | inl old ↦ rw old (set_of-Distinct array)
  | inr new ↦ rw new (not-Member_of_has s (set_of array) new, set_of-Distinct array)
]

set_of-HasSameMembers : (array : List Text) → HasSameMembers array (set_of array)
unfolding set_of
set_of-HasSameMembers [] k = (λ m. m, λ m. m)
set_of-HasSameMembers (s ∷ array) k =
    let same = set_of-HasSameMembers array k in
    elim (Bool-cases (has s (set_of array))) [
      | inl old ↦ rw old (
        λ m. elim m [
          | inl e ↦ rw e (Member-of_has s (set_of array) old)
          | inr later ↦ same.0 later
        ],
        λ m. inr (same.1 m),
      )
      | inr new ↦ rw new (
        λ m. elim m [ inl e ↦ inl e | inr later ↦ inr (same.0 later) ],
        λ m. elim m [ inl e ↦ inl e | inr later ↦ inr (same.1 later) ],
      )
    ]

module _ (range_keys : Range) (h : IsRange range_keys) where
  -- The same texts are listed.
  pub names-HasSameMembers :
      (array : List Text) → HasSameMembers array (remove_duplicate_and_sort range_keys array)
  unfolding remove_duplicate_and_sort
  names-HasSameMembers array = HasSameMembers-trans _ _ _ (set_of-HasSameMembers array) (
      HasSameMembers-trans _ _ _ (h.same (set_of array))
        (sort-HasSameMembers (range_keys (set_of array))))

  pub names-Distinct : (array : List Text) → Distinct (remove_duplicate_and_sort range_keys array)
  unfolding remove_duplicate_and_sort
  names-Distinct array =
      Distinct-sort (range_keys (set_of array)) (h.once (set_of array) (set_of-Distinct array))

  pub listed-HasSameMembers :
      (m : List (Text × Volume)) → HasSameMembers (map_keys m) (listed range_keys m)
  listed-HasSameMembers m =
      HasSameMembers-trans _ _ _ (h.same (map_keys m))
        (names-HasSameMembers (range_keys (map_keys m)))

module _ (r q : Range) (hr : IsRange r) (hq : IsRange q) where
  -- The keys of a map in two orders.
  range-HasSameMembers : (ks : List Text) → HasSameMembers (r ks) (q ks)
  range-HasSameMembers ks =
      HasSameMembers-trans _ _ _ (HasSameMembers-sym _ _ (hr.same ks)) (hq.same ks)

  -- The keys of a map are sorted to one list, whatever the order of the range.
  pub sort-range : (ks : List Text) → Distinct ks → sort (r ks) ≡ sort (q ks)
  sort-range ks d =
      sort_canonical (r ks) (q ks) (hr.once ks d) (hq.once ks d) (range-HasSameMembers ks)

  names_canonical :
      (xs ys : List Text)
      → HasSameMembers xs ys
      → remove_duplicate_and_sort r xs ≡ remove_duplicate_and_sort q ys
  unfolding remove_duplicate_and_sort
  names_canonical xs ys same =
      sort_canonical (r (set_of xs)) (q (set_of ys)) (hr.once _ (set_of-Distinct xs))
        (hq.once _ (set_of-Distinct ys))
        (HasSameMembers-trans (r (set_of xs)) xs (q (set_of ys))
          (HasSameMembers-trans (r (set_of xs)) (set_of xs) xs
            (HasSameMembers-sym _ _ (hr.same (set_of xs)))
            (HasSameMembers-sym _ _ (set_of-HasSameMembers xs)))
          (HasSameMembers-trans xs ys (q (set_of ys)) same (
            HasSameMembers-trans ys (set_of ys) _ (set_of-HasSameMembers ys)
              (hq.same (set_of ys)))))

  listed_canonical : (m : List (Text × Volume)) → listed r m ≡ listed q m
  listed_canonical m =
      names_canonical (r (map_keys m)) (q (map_keys m)) (range-HasSameMembers (map_keys m))

  names-order : (xs : List Text) → remove_duplicate_and_sort r xs ≡ remove_duplicate_and_sort q xs
  names-order xs = names_canonical xs xs (λ k. (λ m. m, λ m. m))

  disk_volumes-order :
      (lib : Libraries) (cs : List NamedContainer) (service : Service)
      → disk_volumes lib r cs service ≡ disk_volumes lib q cs service
  unfolding disk_volumes empty_dir_volumes host_path_volumes pvc_volumes
  disk_volumes-order lib cs service =
      let sorted = sort_volumes lib (normalize_volume_templates service) cs in
      cc (
        listed_canonical sorted.empty_dir,
        listed_canonical sorted.host_path,
        listed_canonical sorted.pvc,
      )

  -- The volumes of a pod do not depend on the order of the ranges.
  pub volumes-order :
      (lib : Libraries) (service : Service) → volumes lib r service ≡ volumes lib q service
  unfolding volumes secret_volumes config_volumes
  volumes-order lib service =
      let cs = to_named_containers service in
      cc (
        names-order (secret_names cs),
        names-order (config_names cs),
        disk_volumes-order lib cs service,
      )
