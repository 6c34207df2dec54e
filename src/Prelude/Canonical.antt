-- ===== src/Prelude/Canonical.antt =====
-- Sorting forgets the order: lists of distinct texts with the same members are sorted to one list.
use rio.Prelude.Strings.{Text}
use rio.Prelude.Lists.{Member, All, All-map}
use rio.Prelude.Unique.{Distinct}
use rio.Prelude.Sort.{
  text_leb, sort, IsSorted, HasSameMembers, sort-IsSorted, sort-HasSameMembers, Distinct-sort,
}
use mathlib.Core.Path.{◌≡◌, refl, sym, ap, ◌∙◌, subst}
use mathlib.Core.Logic.{inl, inr}
use mathlib.Core.List.{List, [], ◌∷◌}
use mathlib.Core.Bool.{true}
use native.Mathlib.Omega.{arith}

text_leb_antisym : (s t : Text) → text_leb s t ≡ true → text_leb t s ≡ true → s ≡ t
unfolding text_leb
text_leb_antisym [] [] h k = refl
text_leb_antisym [] (d ∷ t) h k = absurd (cc)
text_leb_antisym (c ∷ s) [] h k = absurd (cc)
text_leb_antisym (c ∷ s) (d ∷ t) h k = ground (arith, text_leb_antisym s t)

text_leb_trans : (r s t : Text) → text_leb r s ≡ true → text_leb s t ≡ true → text_leb r t ≡ true
unfolding text_leb
text_leb_trans [] s t h k = refl
text_leb_trans (b ∷ r) [] t h k = absurd (cc)
text_leb_trans (b ∷ r) (c ∷ s) [] h k = absurd (cc)
text_leb_trans (b ∷ r) (c ∷ s) (d ∷ t) h k = ground (arith, text_leb_trans r s t)

-- At most each text of the list.
abbrev IsLeast : Text → List Text → Type 0
IsLeast s ts = All (λ t. text_leb s t ≡ true) ts

IsLeast-of_IsSorted : (s : Text) (ts : List Text) → IsSorted (s ∷ ts) → IsLeast s ts
IsLeast-of_IsSorted s [] h = tt
IsLeast-of_IsSorted s (t ∷ ts) (below, h) =
    (below, All-map ts (λ u k. text_leb_trans s t u below k) (IsLeast-of_IsSorted t ts h))

IsSorted-rest : (s : Text) (ts : List Text) → IsSorted (s ∷ ts) → IsSorted ts
IsSorted-rest s [] h = tt
IsSorted-rest s (t ∷ ts) h = h.1

IsLeast-Member : (s k : Text) (ts : List Text) → IsLeast s ts → Member k ts → text_leb s k ≡ true
IsLeast-Member s k [] h m = elim m [ ]
IsLeast-Member s k (t ∷ ts) (le, h) (inl e) = rw e le
IsLeast-Member s k (t ∷ ts) (le, h) (inr m) = IsLeast-Member s k ts h m

-- The first of two sorted lists with the same members are equal.
same_first :
    (s t : Text) (ss ts : List Text)
    → IsSorted (s ∷ ss)
    → IsSorted (t ∷ ts)
    → HasSameMembers (s ∷ ss) (t ∷ ts)
    → s ≡ t
same_first s t ss ts hs ht same = elim ((same s).0 (inl refl)) [
  | inl e ↦ e
  | inr m ↦ elim ((same t).1 (inl refl)) [
    | inl e ↦ sym e
    | inr n ↦
        text_leb_antisym s t (IsLeast-Member s t ss (IsLeast-of_IsSorted s ss hs) n)
          (IsLeast-Member t s ts (IsLeast-of_IsSorted t ts ht) m)
  ]
]

-- A member of the rest of a list is one of the rest of the other.
rest_Member :
    (s k : Text) (ss ts : List Text)
    → ¬ Member s ss
    → (Member k (s ∷ ss) → Member k (s ∷ ts))
    → Member k ss
    → Member k ts
rest_Member s k ss ts new f m = elim (f (inr m)) [ inl e ↦ absurd (new (rw (sym e) m)) | inr n ↦ n ]

rest_HasSameMembers :
    (s : Text) (ss ts : List Text)
    → ¬ Member s ss
    → ¬ Member s ts
    → HasSameMembers (s ∷ ss) (s ∷ ts)
    → HasSameMembers ss ts
rest_HasSameMembers s ss ts ns nt same k =
    (rest_Member s k ss ts ns (same k).0, rest_Member s k ts ss nt (same k).1)

eq_of_IsSorted :
    (ss ts : List Text)
    → IsSorted ss
    → IsSorted ts
    → Distinct ss
    → Distinct ts
    → HasSameMembers ss ts
    → ss ≡ ts
eq_of_IsSorted [] [] hs ht ds dt same = refl
eq_of_IsSorted [] (t ∷ ts) hs ht ds dt same = absurd ((same t).1 (inl refl))
eq_of_IsSorted (s ∷ ss) [] hs ht ds dt same = absurd ((same s).0 (inl refl))
eq_of_IsSorted (s ∷ ss) (t ∷ ts) hs ht (ns, ds) (nt, dt) same =
    let e = same_first s t ss ts hs ht same in
    ap (λ u. u ∷ ss) e
    ∙ ap (λ us. t ∷ us)
        (eq_of_IsSorted ss ts (IsSorted-rest s ss hs) (IsSorted-rest t ts ht) ds dt (
          rest_HasSameMembers t ss ts (rw (sym e) ns) nt
            (subst (λ u. HasSameMembers (u ∷ ss) (t ∷ ts)) e same)))

-- `sort` gives one list for all orders of distinct texts.
pub sort_canonical :
    (ss ts : List Text) → Distinct ss → Distinct ts → HasSameMembers ss ts → sort ss ≡ sort ts
sort_canonical ss ts ds dt same =
    eq_of_IsSorted (sort ss) (sort ts) (sort-IsSorted ss) (sort-IsSorted ts) (Distinct-sort ss ds)
      (Distinct-sort ts dt)
      (λ k. (
        λ m. (sort-HasSameMembers ts k).0 ((same k).0 ((sort-HasSameMembers ss k).1 m)),
        λ m. (sort-HasSameMembers ss k).0 ((same k).1 ((sort-HasSameMembers ts k).1 m)),
      ))
