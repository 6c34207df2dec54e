-- ===== src/Prelude/Sort.antt =====
-- sort.Strings of Go's standard library: the order of bytes, lexicographically.
use rio.Prelude.Strings.{Text}
use rio.Prelude.Lists.{Member, All}
use rio.Prelude.Tests.{if◌then◌else◌, ltb, ◌==◌, Bool-cases}
use rio.Prelude.Unique.{Distinct}
use mathlib.Core.Path.{◌≡◌, refl, sym, ap, ◌∙◌}
use mathlib.Core.Logic.{◌↔◌, inl, inr}
use mathlib.Core.List.{List, [], ◌∷◌, map}
use mathlib.Core.Bool.{Bool, true, false, ◌||◌, ◌&&◌}
use native.Mathlib.Omega.{arith}

unfoldable pub text_leb : Text → Text → Bool
text_leb [] t = true
text_leb (c ∷ s) [] = false
text_leb (c ∷ s) (d ∷ t) = ltb c d || (c == d && text_leb s t)

unfoldable pub insert_sorted : Text → List Text → List Text
unfolding text_leb
insert_sorted s [] = s ∷ []
insert_sorted s (t ∷ ts) = if text_leb s t then s ∷ t ∷ ts else t ∷ insert_sorted s ts

unfoldable pub sort : List Text → List Text
unfolding insert_sorted
sort [] = []
sort (t ∷ ts) = insert_sorted t (sort ts)

-- sort.Slice by texts that are distinct, so that there is one order.
insert_by : {A : Type 0} → (A → Text) → A → List A → List A
insert_by key a [] = a ∷ []
insert_by key a (b ∷ bs) =
    let rest = insert_by key a bs in if text_leb (key a) (key b) then a ∷ b ∷ bs else b ∷ rest

unfoldable pub sort_by : {A : Type 0} → (A → Text) → List A → List A
unfolding insert_by
sort_by key [] = []
sort_by key (a ∷ bs) = insert_by key a (sort_by key bs)

text_leb_total : (s t : Text) → text_leb s t ≡ false → text_leb t s ≡ true
unfolding text_leb
text_leb_total [] t h = cc
text_leb_total (c ∷ s) [] h = refl
text_leb_total (c ∷ s) (d ∷ t) h = ground (arith, text_leb_total s t)

-- Each text is at most the next one.
abbrev pub IsSorted : List Text → Type 0
IsSorted [] = Unit
IsSorted (t ∷ []) = Unit
IsSorted (s ∷ t ∷ ts) = (text_leb s t ≡ true) × IsSorted (t ∷ ts)

-- At most the first of a list.
abbrev IsBelow : Text → List Text → Type 0
IsBelow s [] = Unit
IsBelow s (t ∷ ts) = text_leb s t ≡ true

IsSorted-cons : (s : Text) (ts : List Text) → IsBelow s ts → IsSorted ts → IsSorted (s ∷ ts)
IsSorted-cons s [] below h = tt
IsSorted-cons s (t ∷ ts) below h = (below, h)

IsSorted-tail : (t : Text) (ts : List Text) → IsSorted (t ∷ ts) → IsBelow t ts × IsSorted ts
IsSorted-tail t [] h = (tt, tt)
IsSorted-tail t (u ∷ ts) h = h

IsBelow-insert_sorted :
    (r s : Text) (ts : List Text)
    → text_leb r s ≡ true
    → IsBelow r ts
    → IsBelow r (insert_sorted s ts)
unfolding insert_sorted
IsBelow-insert_sorted r s [] h below = h
IsBelow-insert_sorted r s (t ∷ ts) h below = elim (Bool-cases (text_leb s t)) [
  | inl before ↦ rw before h
  | inr after ↦ rw after below
]

insert_sorted-IsSorted : (s : Text) (ts : List Text) → IsSorted ts → IsSorted (insert_sorted s ts)
unfolding insert_sorted
insert_sorted-IsSorted s [] h = tt
insert_sorted-IsSorted s (t ∷ ts) h = elim (Bool-cases (text_leb s t)) [
  | inl before ↦ rw before (before, h)
  | inr after ↦
      let (below, sorted) = IsSorted-tail t ts h in
      rw after (
        IsSorted-cons t (insert_sorted s ts)
          (IsBelow-insert_sorted t s ts (text_leb_total s t after) below)
          (insert_sorted-IsSorted s ts sorted))
]

pub sort-IsSorted : (ts : List Text) → IsSorted (sort ts)
unfolding sort
sort-IsSorted [] = tt
sort-IsSorted (t ∷ ts) = insert_sorted-IsSorted t (sort ts) (sort-IsSorted ts)

Member-cons_map :
    (k t : Text) (ts us : List Text)
    → (Member k ts → Member k us)
    → Member k (t ∷ ts)
    → Member k (t ∷ us)
Member-cons_map k t ts us f (inl e) = inl e
Member-cons_map k t ts us f (inr m) = inr (f m)

Member-swap : (k s t : Text) (ts : List Text) → Member k (s ∷ t ∷ ts) → Member k (t ∷ s ∷ ts)
Member-swap k s t ts (inl e) = inr (inl e)
Member-swap k s t ts (inr (inl e)) = inl e
Member-swap k s t ts (inr (inr m)) = inr (inr m)

-- The same members.
abbrev pub HasSameMembers : List Text → List Text → Type 0
HasSameMembers ts us = (k : Text) → Member k ts ↔ Member k us

insert_sorted-HasSameMembers :
    (s : Text) (ts : List Text) → HasSameMembers (s ∷ ts) (insert_sorted s ts)
unfolding insert_sorted
insert_sorted-HasSameMembers s [] k = (λ m. m, λ m. m)
insert_sorted-HasSameMembers s (t ∷ ts) k = elim (Bool-cases (text_leb s t)) [
  | inl before ↦ rw before (λ m. m, λ m. m)
  | inr after ↦
      let same = insert_sorted-HasSameMembers s ts k in
      rw after (
        λ m. Member-cons_map k t (s ∷ ts) (insert_sorted s ts) same.0 (Member-swap k s t ts m),
        λ m. Member-swap k t s ts (Member-cons_map k t (insert_sorted s ts) (s ∷ ts) same.1 m),
      )
]

pub sort-HasSameMembers : (ts : List Text) → HasSameMembers ts (sort ts)
unfolding sort
sort-HasSameMembers [] k = (λ m. m, λ m. m)
sort-HasSameMembers (t ∷ ts) k =
    let same = sort-HasSameMembers ts k in
    let inserted = insert_sorted-HasSameMembers t (sort ts) k in
    (
      λ m. inserted.0 (Member-cons_map k t ts (sort ts) same.0 m),
      λ m. Member-cons_map k t (sort ts) ts same.1 (inserted.1 m),
    )

Distinct-insert_sorted :
    (s : Text) (ts : List Text) → ¬ Member s ts → Distinct ts → Distinct (insert_sorted s ts)
unfolding insert_sorted
Distinct-insert_sorted s [] new d = (new, d)
Distinct-insert_sorted s (t ∷ ts) new (fresh, d) = elim (Bool-cases (text_leb s t)) [
  | inl before ↦ rw before (new, (fresh, d))
  | inr after ↦ rw after (
    λ m. elim ((insert_sorted-HasSameMembers s ts t).1 m) [
      | inl e ↦ new (inl (sym e))
      | inr old ↦ fresh old
    ],
    Distinct-insert_sorted s ts (λ m. new (inr m)) d,
  )
]

pub Distinct-sort : (ts : List Text) → Distinct ts → Distinct (sort ts)
unfolding sort
Distinct-sort [] d = tt
Distinct-sort (t ∷ ts) (fresh, d) =
    Distinct-insert_sorted t (sort ts) (λ m. fresh ((sort-HasSameMembers ts t).1 m))
      (Distinct-sort ts d)

All-insert_by :
    {A : Type 0} (P : A → Type 0) (key : A → Text) (a : A) (bs : List A)
    → P a
    → All P bs
    → All P (insert_by key a bs)
unfolding insert_by
All-insert_by P key a [] h hs = (h, hs)
All-insert_by P key a (b ∷ bs) h (k, hs) = elim (Bool-cases (text_leb (key a) (key b))) [
  | inl before ↦ rw before (h, (k, hs))
  | inr after ↦ rw after (k, All-insert_by P key a bs h hs)
]

pub All-sort_by :
    {A : Type 0} (P : A → Type 0) (key : A → Text) (bs : List A) → All P bs → All P (sort_by key bs)
unfolding sort_by
All-sort_by P key [] h = tt
All-sort_by P key (b ∷ bs) (h, hs) =
    All-insert_by P key b (sort_by key bs) h (All-sort_by P key bs hs)

map-insert_by :
    {A : Type 0} (key : A → Text) (a : A) (bs : List A)
    → map key (insert_by key a bs) ≡ insert_sorted (key a) (map key bs)
unfolding insert_by insert_sorted
map-insert_by key a [] = refl
map-insert_by key a (b ∷ bs) = elim (Bool-cases (text_leb (key a) (key b))) [
  | inl before ↦ rw before refl
  | inr after ↦ rw after (ap (λ ks. key b ∷ ks) (map-insert_by key a bs))
]

-- Sorting values by their keys sorts the keys.
pub map-sort_by :
    {A : Type 0} (key : A → Text) (bs : List A) → map key (sort_by key bs) ≡ sort (map key bs)
unfolding sort_by sort
map-sort_by key [] = refl
map-sort_by key (b ∷ bs) =
    map-insert_by key b (sort_by key bs) ∙ ap (insert_sorted (key b)) (map-sort_by key bs)
