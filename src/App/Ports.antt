-- ===== src/App/Ports.antt =====
-- The ports of the Kubernetes service of an app.
use rio.Prelude.{
  Text, text_eq, text_eq_iff, ◌≡◌, refl, ap, ◌∙◌, All, All-map, Member, Bool-cases, inl, inr, List,
  [], ◌∷◌, map, if◌then◌else◌,
}
use mathlib.Core.Path.{ap₂}
use rio.Prelude.Maps.{insert}
use rio.Prelude.Unique.{Distinct}
use rio.Prelude.Sort.{
  sort, sort_by, map-sort_by, IsSorted, sort-IsSorted, sort-HasSameMembers, Distinct-sort,
}
use rio.Kube.{ServicePort}
use rio.Api.Service.{Service}
use rio.Ports.{service_named_ports}
use rio.App.{add_named, add_revisions, ports_for_service, or_default}

-- What an insertion does to the keys of a map.
put : Text → List Text → List Text
put k [] = k ∷ []
put k (j ∷ ks) = if text_eq j k then k ∷ ks else j ∷ put k ks

put-only : (x k : Text) (ks : List Text) → Member x (put k ks) → Member x (k ∷ ks)
unfolding put
put-only x k [] = λ m. m
put-only x k (j ∷ ks) = elim (Bool-cases (text_eq j k)) [
  | inl same ↦ rw same (λ m. elim m [ inl e ↦ inl e | inr old ↦ inr (inr old) ])
  | inr other ↦ rw other (λ m. elim m [
    | inl e ↦ inr (inl e)
    | inr m ↦ elim (put-only x k ks m) [ inl e ↦ inl e | inr old ↦ inr (inr old) ]
  ])
]

put-keeps : (x k : Text) (ks : List Text) → Member x (k ∷ ks) → Member x (put k ks)
unfolding put
put-keeps x k [] m = m
put-keeps x k (j ∷ ks) m = elim (Bool-cases (text_eq j k)) [
  | inl same ↦ rw same (unite x k j ks ((text_eq_iff j k).0 same) m)
  | inr other ↦ rw other (into x k j ks (put-keeps x k ks) m)
]
  where
    unite : (x k j : Text) (ks : List Text) → j ≡ k → Member x (k ∷ j ∷ ks) → Member x (k ∷ ks)
    unite x k j ks e (inl f) = inl f
    unite x k j ks e (inr (inl f)) = inl (f ∙ e)
    unite x k j ks e (inr (inr m)) = inr m

    into :
        (x k j : Text) (ks : List Text)
        → (Member x (k ∷ ks) → Member x (put k ks))
        → Member x (k ∷ j ∷ ks)
        → Member x (j ∷ put k ks)
    into x k j ks f (inl e) = inr (f (inl e))
    into x k j ks f (inr (inl e)) = inl e
    into x k j ks f (inr (inr m)) = inr (f (inr m))

Distinct-put : (k : Text) (ks : List Text) → Distinct ks → Distinct (put k ks)
unfolding put
Distinct-put k [] d = (λ m. m, tt)
Distinct-put k (j ∷ ks) (fresh, d) = elim (Bool-cases (text_eq j k)) [
  | inl same ↦ rw same (λ m. fresh (rw ((text_eq_iff j k).0 same) m), d)
  | inr other ↦ rw other (
    λ m. elim (put-only j k ks m) [
      | inl e ↦ absurd (cc (other, (text_eq_iff j k).1 e))
      | inr old ↦ fresh old
    ],
    Distinct-put k ks d,
  )
]

abbrev keys : List (Text × ServicePort) → List Text
keys ports = map (λ e. e.0) ports

keys-insert :
    (k : Text) (p : ServicePort) (ports : List (Text × ServicePort))
    → keys (insert k p ports) ≡ put k (keys ports)
unfolding insert put
keys-insert k p [] = refl
keys-insert k p ((j, q) ∷ ports) = elim (Bool-cases (text_eq j k)) [
  | inl same ↦ rw same refl
  | inr other ↦ rw other (ap (λ ks. j ∷ ks) (keys-insert k p ports))
]

abbrev AreNames : List (Text × ServicePort) → Type 0
AreNames ports = All (λ e. e.1.name ≡ e.0) ports

insert-AreNames :
    (p : ServicePort) (ports : List (Text × ServicePort))
    → AreNames ports
    → AreNames (insert p.name p ports)
unfolding insert
insert-AreNames p [] h = (refl, tt)
insert-AreNames p ((j, q) ∷ ports) (e, h) = elim (Bool-cases (text_eq j p.name)) [
  | inl same ↦ rw same (refl, h)
  | inr other ↦ rw other (e, insert-AreNames p ports h)
]

-- A map from names to ports of these names, without duplicates.
record IsNamed (ports : List (Text × ServicePort)) : Type 0 where
  names : AreNames ports
  distinct : Distinct (keys ports)

module _ (p : ServicePort) (ports : List (Text × ServicePort)) where
  insert-IsNamed : IsNamed ports → IsNamed (insert p.name p ports)
  insert-IsNamed h = record {
    names = insert-AreNames p ports h.names;
    distinct = rw (keys-insert p.name p ports) (Distinct-put p.name (keys ports) h.distinct);
  }

  insert-keeps :
      (x : Text) → Member x (p.name ∷ keys ports) → Member x (keys (insert p.name p ports))
  insert-keeps x m = rw (keys-insert p.name p ports) (put-keeps x p.name (keys ports) m)

add_named-IsNamed :
    (more : List ServicePort) (ports : List (Text × ServicePort))
    → IsNamed ports
    → IsNamed (add_named more ports)
unfolding add_named
add_named-IsNamed [] ports h = h
add_named-IsNamed (p ∷ more) ports h =
    add_named-IsNamed more (insert p.name p ports) (insert-IsNamed p ports h)

add_named-keeps :
    (more : List ServicePort) (ports : List (Text × ServicePort)) (x : Text)
    → Member x (keys ports)
    → Member x (keys (add_named more ports))
unfolding add_named
add_named-keeps [] ports x m = m
add_named-keeps (p ∷ more) ports x m =
    add_named-keeps more (insert p.name p ports) x (insert-keeps p ports x (inr m))

-- The ports are in the map by their names.
abbrev AreAdded : List ServicePort → List (Text × ServicePort) → Type 0
AreAdded more ports = All (λ p. Member p.name (keys ports)) more

add_named-AreAdded :
    (more : List ServicePort) (ports : List (Text × ServicePort))
    → AreAdded more (add_named more ports)
unfolding add_named
add_named-AreAdded [] ports = tt
add_named-AreAdded (p ∷ more) ports = (
  add_named-keeps more (insert p.name p ports) p.name (insert-keeps p ports p.name (inl refl)),
  add_named-AreAdded more (insert p.name p ports),
)

module _ (to_lower : Text → Text) where
  add_revisions-IsNamed :
      (revisions : List Service) (ports : List (Text × ServicePort))
      → IsNamed ports
      → IsNamed (add_revisions to_lower revisions ports)
  unfolding add_revisions
  add_revisions-IsNamed [] ports h = h
  add_revisions-IsNamed (rev ∷ revisions) ports h =
      add_revisions-IsNamed revisions _
        (add_named-IsNamed (service_named_ports to_lower rev) ports h)

  add_revisions-keeps :
      (revisions : List Service) (ports : List (Text × ServicePort)) (x : Text)
      → Member x (keys ports)
      → Member x (keys (add_revisions to_lower revisions ports))
  unfolding add_revisions
  add_revisions-keeps [] ports x m = m
  add_revisions-keeps (rev ∷ revisions) ports x m =
      add_revisions-keeps revisions _ x
        (add_named-keeps (service_named_ports to_lower rev) ports x m)

  add_revisions-AreAdded :
      (revisions : List Service) (ports : List (Text × ServicePort))
      → All
          (λ rev.
            AreAdded (service_named_ports to_lower rev) (add_revisions to_lower revisions ports))
          revisions
  unfolding add_revisions
  add_revisions-AreAdded [] ports = tt
  add_revisions-AreAdded (rev ∷ revisions) ports = (
    All-map (service_named_ports to_lower rev) (λ p m. add_revisions-keeps revisions _ p.name m)
        (add_named-AreAdded (service_named_ports to_lower rev) ports),
    add_revisions-AreAdded revisions (add_named (service_named_ports to_lower rev) ports),
  )

names-keys :
    (ports : List (Text × ServicePort))
    → AreNames ports
    → map (λ p. p.name) (map (λ e. e.1) ports) ≡ keys ports
names-keys [] h = refl
names-keys (e ∷ ports) (n, h) = ap₂ (λ k ks. k ∷ ks) n (names-keys ports h)

abbrev pub names : List ServicePort → List Text
names ports = map (λ p. p.name) ports

-- Sorted by their names, which are distinct.
pub record IsOrdered (ports : List ServicePort) : Type 0 where
  pub sorted : IsSorted (names ports)
  pub distinct : Distinct (names ports)

or_default-IsOrdered :
    (to_lower : Text → Text) (ports : List ServicePort)
    → IsOrdered ports
    → IsOrdered (or_default to_lower ports)
or_default-IsOrdered to_lower [] h = record { sorted = tt; distinct = (λ m. m, tt) }
or_default-IsOrdered to_lower (p ∷ ports) h = h

or_default-keeps :
    (to_lower : Text → Text) (ports : List ServicePort) (x : Text)
    → Member x (names ports)
    → Member x (names (or_default to_lower ports))
or_default-keeps to_lower [] x m = absurd m
or_default-keeps to_lower (p ∷ ports) x m = m

-- The ports of an app's service are sorted by their names, which are distinct, and every port of
-- every revision is among them by its name.
pub ports_for_service-IsOrdered :
    (to_lower : Text → Text) (revisions : List Service)
    → IsOrdered (ports_for_service to_lower revisions)
      × All
          (λ rev.
            All
              (λ p. Member p.name (names (ports_for_service to_lower revisions)))
              (service_named_ports to_lower rev))
          revisions
unfolding ports_for_service
ports_for_service-IsOrdered to_lower revisions =
    let ports = add_revisions to_lower revisions [] in
    let h = add_revisions-IsNamed to_lower revisions [] (record { names = tt; distinct = tt }) in
    let sorted : names (sort_by (λ p. p.name) (map (λ e. e.1) ports)) ≡ sort (keys ports) =
      map-sort_by (λ p. p.name) (map (λ e. e.1) ports) ∙ ap sort (names-keys ports h.names) in
    (
      or_default-IsOrdered to_lower _ (record {
        sorted = rw sorted (sort-IsSorted (keys ports));
        distinct = rw sorted (Distinct-sort (keys ports) h.distinct);
      }),
      All-map revisions
          (λ rev added.
            All-map (service_named_ports to_lower rev)
              (λ p m.
                or_default-keeps to_lower _ p.name
                  (rw sorted ((sort-HasSameMembers (keys ports) p.name).0 m)))
              added)
          (add_revisions-AreAdded to_lower revisions []),
    )
