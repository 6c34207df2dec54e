-- ===== src/Pod/Sorted.antt =====
-- sortVolumes of modules/service/controllers/service/populate/pod/volumes.go: what its maps hold.
use rio.Prelude.{
  Text, text_eq, text_eq_iff, ◌≡◌, sym, true, is_some, is_empty, List, [], ◌∷◌, Bool-cases, ◌⊎◌,
  inl, inr, Member,
}
use rio.Prelude.Maps.{lookup, insert}
use rio.Prelude.Unique.{has, not-Member_of_has}
use rio.Api.Service.{Volume, VolumeTemplate}
use rio.Pod.Libraries.{Libraries}
use rio.Pod.Volumes.{SortedVolumes, map_keys, sort_volume}

module _ {V : Type 0} where
  pub Member-of_insert :
      (j k : Text) (v : V) (m : List (Text × V))
      → Member j (map_keys (insert k v m))
      → Member j (k ∷ map_keys m)
  unfolding insert
  Member-of_insert j k v [] = λ h. h
  Member-of_insert j k v ((i, w) ∷ m) = elim (Bool-cases (text_eq i k)) [
    | inl same ↦ rw same (λ h. elim h [ inl e ↦ inl e | inr n ↦ inr (inr n) ])
    | inr other ↦ rw other (λ h. elim h [
      | inl e ↦ inr (inl e)
      | inr n ↦ elim (Member-of_insert j k v m n) [ inl e ↦ inl e | inr o ↦ inr (inr o) ]
    ])
  ]

  pub insert-Member :
      (j k : Text) (v : V) (m : List (Text × V))
      → Member j (k ∷ map_keys m)
      → Member j (map_keys (insert k v m))
  unfolding insert
  insert-Member j k v [] = λ h. h
  insert-Member j k v ((i, w) ∷ m) = elim (Bool-cases (text_eq i k)) [
    | inl same ↦
        let e = (text_eq_iff i k).0 same in
        rw same
          (λ h. elim h [ inl a ↦ inl a | inr (inl a) ↦ inl (rw (sym e) a) | inr (inr n) ↦ inr n ])
    | inr other ↦ rw other (λ h. elim h [
      | inl a ↦ inr (insert-Member j k v m (inl a))
      | inr (inl a) ↦ inl a
      | inr (inr n) ↦ inr (insert-Member j k v m (inr n))
    ])
  ]

-- No name is in both maps.
abbrev pub AreApart : List (Text × Volume) → List (Text × Volume) → Type 0
AreApart m n = (k : Text) → Member k (map_keys m) → ¬ Member k (map_keys n)

abbrev AreSeen : List (Text × Volume) → List Text → Type 0
AreSeen m all = (k : Text) → Member k (map_keys m) → Member k all

module _ (templates : List (Text × VolumeTemplate)) where
  -- The name has a volume of the pod, or a template.
  abbrev pub IsSourced : SortedVolumes → Text → Type 0
  IsSourced s k =
      Member k (map_keys s.empty_dir)
      ⊎ Member k (map_keys s.host_path)
      ⊎ Member k (map_keys s.pvc)
      ⊎ (is_some (lookup k templates) ≡ true)

  -- The maps have no name in common, their names are seen, and what is seen has a source.
  pub record IsSortedWell (s : SortedVolumes) : Type 0 where
    pub empty_seen : AreSeen s.empty_dir s.all
    pub host_seen : AreSeen s.host_path s.all
    pub pvc_seen : AreSeen s.pvc s.all
    pub empty_host : AreApart s.empty_dir s.host_path
    pub empty_pvc : AreApart s.empty_dir s.pvc
    pub host_pvc : AreApart s.host_path s.pvc
    pub sourced : (k : Text) → Member k s.all → IsSourced s k

module _ (v : Volume) (m n : List (Text × Volume)) (all : List Text) where
  AreSeen-later : AreSeen m all → AreSeen m (v.name ∷ all)
  AreSeen-later h k i = inr (h k i)

  AreSeen-insert : AreSeen m all → AreSeen (insert v.name v m) (v.name ∷ all)
  AreSeen-insert h k i = elim (Member-of_insert k v.name v m i) [
    | inl e ↦ inl e
    | inr old ↦ inr (h k old)
  ]

  AreApart-insert_left :
      ¬ Member v.name all → AreSeen n all → AreApart m n → AreApart (insert v.name v m) n
  AreApart-insert_left new seen h k i j = elim (Member-of_insert k v.name v m i) [
    | inl e ↦ new (rw (sym e) (seen k j))
    | inr old ↦ h k old j
  ]

  AreApart-insert_right :
      ¬ Member v.name all → AreSeen n all → AreApart n m → AreApart n (insert v.name v m)
  AreApart-insert_right new seen h k i j = elim (Member-of_insert k v.name v m j) [
    | inl e ↦ new (rw (sym e) (seen k i))
    | inr old ↦ h k i old
  ]

module _ (lib : Libraries) (templates : List (Text × VolumeTemplate)) where
  module _ (v : Volume) (s : SortedVolumes) where
    abbrev with_host : SortedVolumes
    with_host = record s { all = v.name ∷ s.all; host_path = insert v.name v s.host_path }

    abbrev with_pvc : SortedVolumes
    with_pvc = record s { all = v.name ∷ s.all; pvc = insert v.name v s.pvc }

    abbrev with_empty : SortedVolumes
    with_empty = record s { all = v.name ∷ s.all; empty_dir = insert v.name v s.empty_dir }

    module _ (h : IsSortedWell templates s) (new : ¬ Member v.name s.all) where
      with_host-IsSortedWell : IsSortedWell templates with_host
      with_host-IsSortedWell = record {
        empty_seen = AreSeen-later v s.empty_dir [] s.all h.empty_seen;
        host_seen = AreSeen-insert v s.host_path [] s.all h.host_seen;
        pvc_seen = AreSeen-later v s.pvc [] s.all h.pvc_seen;
        empty_host =
            AreApart-insert_right v s.host_path s.empty_dir s.all new h.empty_seen h.empty_host;
        empty_pvc = h.empty_pvc;
        host_pvc = AreApart-insert_left v s.host_path s.pvc s.all new h.pvc_seen h.host_pvc;
        sourced = λ k m. elim m [
          | inl e ↦ inr (inl (insert-Member k v.name v s.host_path (inl e)))
          | inr old ↦ elim (h.sourced k old) [
            | inl a ↦ inl a
            | inr (inl b) ↦ inr (inl (insert-Member k v.name v s.host_path (inr b)))
            | inr (inr c) ↦ inr (inr c)
          ]
        ];
      }

      with_pvc-IsSortedWell : IsSortedWell templates with_pvc
      with_pvc-IsSortedWell = record {
        empty_seen = AreSeen-later v s.empty_dir [] s.all h.empty_seen;
        host_seen = AreSeen-later v s.host_path [] s.all h.host_seen;
        pvc_seen = AreSeen-insert v s.pvc [] s.all h.pvc_seen;
        empty_host = h.empty_host;
        empty_pvc = AreApart-insert_right v s.pvc s.empty_dir s.all new h.empty_seen h.empty_pvc;
        host_pvc = AreApart-insert_right v s.pvc s.host_path s.all new h.host_seen h.host_pvc;
        sourced = λ k m. elim m [
          | inl e ↦ inr (inr (inl (insert-Member k v.name v s.pvc (inl e))))
          | inr old ↦ elim (h.sourced k old) [
            | inl a ↦ inl a
            | inr (inl b) ↦ inr (inl b)
            | inr (inr (inl c)) ↦ inr (inr (inl (insert-Member k v.name v s.pvc (inr c))))
            | inr (inr (inr d)) ↦ inr (inr (inr d))
          ]
        ];
      }

      with_empty-IsSortedWell : IsSortedWell templates with_empty
      with_empty-IsSortedWell = record {
        empty_seen = AreSeen-insert v s.empty_dir [] s.all h.empty_seen;
        host_seen = AreSeen-later v s.host_path [] s.all h.host_seen;
        pvc_seen = AreSeen-later v s.pvc [] s.all h.pvc_seen;
        empty_host =
            AreApart-insert_left v s.empty_dir s.host_path s.all new h.host_seen h.empty_host;
        empty_pvc = AreApart-insert_left v s.empty_dir s.pvc s.all new h.pvc_seen h.empty_pvc;
        host_pvc = h.host_pvc;
        sourced = λ k m. elim m [
          | inl e ↦ inl (insert-Member k v.name v s.empty_dir (inl e))
          | inr old ↦ elim (h.sourced k old) [
            | inl a ↦ inl (insert-Member k v.name v s.empty_dir (inr a))
            | inr rest ↦ inr rest
          ]
        ];
      }

      with_template-IsSortedWell :
          is_some (lookup v.name templates) ≡ true
          → IsSortedWell templates (record s { all = v.name ∷ s.all })
      with_template-IsSortedWell t = record {
        empty_seen = AreSeen-later v s.empty_dir [] s.all h.empty_seen;
        host_seen = AreSeen-later v s.host_path [] s.all h.host_seen;
        pvc_seen = AreSeen-later v s.pvc [] s.all h.pvc_seen;
        empty_host = h.empty_host;
        empty_pvc = h.empty_pvc;
        host_pvc = h.host_pvc;
        sourced = λ k m. elim m [ inl e ↦ inr (inr (inr (rw e t))) | inr old ↦ h.sourced k old ];
      }

    pub sort_volume-IsSortedWell :
        IsSortedWell templates s → IsSortedWell templates (sort_volume lib templates v s)
    unfolding sort_volume
    sort_volume-IsSortedWell h = elim (Bool-cases (has v.name s.all)) [
      | inl old ↦ rw old h
      | inr fresh ↦
          let new = not-Member_of_has v.name s.all fresh in
          elim (Bool-cases (is_empty v.host_path)) [
            | inr host ↦ rw (fresh, host) (with_host-IsSortedWell h new)
            | inl none ↦ elim (Bool-cases (is_some (lookup v.name templates))) [
              | inl known ↦ elim (Bool-cases v.persistent) [
                | inl p ↦ rw (fresh, none, known) (simp p (with_template-IsSortedWell h new known))
                | inr p ↦ rw (fresh, none, known) (simp p (with_empty-IsSortedWell h new))
              ]
              | inr unknown ↦ elim (Bool-cases v.persistent) [
                | inl p ↦ rw (fresh, none, unknown) (simp p (with_pvc-IsSortedWell h new))
                | inr p ↦ rw (fresh, none, unknown) (simp p (with_empty-IsSortedWell h new))
              ]
            ]
          ]
    ]
