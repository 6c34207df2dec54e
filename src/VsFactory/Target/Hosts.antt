-- ===== src/VsFactory/Target/Hosts.antt =====
-- What determineHosts returns.
use rio.Prelude.{
  Text, ◌≡◌, refl, ap, ◌∙◌, Option, some, List, [], ◌∷◌, map, Member, ◌⊎◌, inl, inr, sym,
}
use rio.Prelude.Unique.{
  Unique, none_kept, add_new, Distinct, IsUnique, add_new-IsUnique, add_new-seen, add_new-keeps,
  add_new-only,
}
use rio.Prelude.Sort.{
  sort, HasSameMembers, sort-IsSorted, IsSorted, sort-HasSameMembers, Distinct-sort,
}
use rio.VsFactory.Target.{itself, add_hosts, determine_hosts}

module _ (parse_host : Text → Option Text) where
  -- The hosts of URLs that all parse.
  abbrev pub AreHosts : List Text → List Text → Type 0
  AreHosts [] [] = Unit
  AreHosts [] (host ∷ hosts) = ⊥
  AreHosts (endpoint ∷ endpoints) [] = ⊥
  AreHosts (endpoint ∷ endpoints) (host ∷ hosts) =
      (parse_host endpoint ≡ some host) × AreHosts endpoints hosts

  -- The hosts that are added are those that were found before and those of the URLs.
  record IsAdded (hosts : List Text) (before after : Unique Text) : Type 0 where
    unique : IsUnique itself after
    keeps : (k : Text) → Member k before.seen → Member k after.seen
    adds : (k : Text) → Member k hosts → Member k after.seen
    only : (k : Text) → Member k after.seen → Member k before.seen ⊎ Member k hosts

  IsAdded-cons :
      (host : Text) (hosts : List Text) (before after : Unique Text)
      → IsAdded hosts (add_new itself host before) after
      → IsAdded (host ∷ hosts) before after
  IsAdded-cons host hosts before after h = record {
    unique = h.unique;
    keeps = λ k m. h.keeps k (add_new-keeps itself k host before m);
    adds = λ k m. elim m [
      | inl e ↦ h.keeps k (rw e (add_new-seen itself host before))
      | inr m ↦ h.adds k m
    ];
    only = λ k m. elim (h.only k m) [
      | inl old ↦ elim (add_new-only itself k host before old) [
        | inl e ↦ inr (inl e)
        | inr old ↦ inl old
      ]
      | inr new ↦ inr (inr new)
    ];
  }

  add_hosts-IsAdded :
      (endpoints hosts : List Text) (before : Unique Text)
      → AreHosts endpoints hosts
      → IsUnique itself before
      → (after : Unique Text) × (add_hosts parse_host endpoints before ≡ some after)
        × IsAdded hosts before after
  unfolding add_hosts
  add_hosts-IsAdded [] [] before h u = (
    before,
    refl,
    record { unique = u; keeps = λ k m. m; adds = λ k m. absurd m; only = λ k m. inl m },
  )
  add_hosts-IsAdded [] (host ∷ hosts) before h u = elim h [ ]
  add_hosts-IsAdded (endpoint ∷ endpoints) [] before h u = elim h [ ]
  add_hosts-IsAdded (endpoint ∷ endpoints) (host ∷ hosts) before (e, h) u =
      let (after, found, added) =
        add_hosts-IsAdded endpoints hosts (add_new itself host before) h
          (add_new-IsUnique itself host before u) in
      (after, rw (e, add_hosts) found, IsAdded-cons host hosts before after added)

  map-itself : (hosts : List Text) → map itself hosts ≡ hosts
  map-itself [] = refl
  map-itself (host ∷ hosts) = ap (λ more. host ∷ more) (map-itself hosts)

  -- If all endpoints of a service parse, its hosts are their hosts, sorted and without duplicates.
  pub determine_hosts-IsSorted :
      (endpoints hosts : List Text)
      → AreHosts endpoints hosts
      → (result : List Text) × (determine_hosts parse_host endpoints ≡ some result)
        × IsSorted result
        × Distinct result
        × HasSameMembers hosts result
  unfolding determine_hosts
  determine_hosts-IsSorted endpoints hosts h =
      let (after, found, added) =
        add_hosts-IsAdded endpoints hosts none_kept h (record { same = refl; distinct = tt }) in
      let seen : after.seen ≡ after.kept = added.unique.same ∙ map-itself after.kept in
      let sorted = sort-HasSameMembers after.seen in
      (
        sort after.kept,
        rw (found, determine_hosts) refl,
        sort-IsSorted after.kept,
        rw (sym seen) (Distinct-sort after.seen added.unique.distinct),
        λ k. (
          λ m. rw (sym seen) ((sorted k).0 (added.adds k m)),
          λ m. elim (added.only k ((sorted k).1 (rw seen m))) [
            | inl never ↦ absurd never
            | inr new ↦ new
          ],
        ),
      )
