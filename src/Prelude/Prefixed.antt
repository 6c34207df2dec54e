-- ===== src/Prelude/Prefixed.antt =====
-- Lists of texts behind a prefix, and distinct texts in several lists.
use rio.Prelude.Strings.{Text}
use rio.Prelude.Lists.{Member}
use rio.Prelude.Unique.{Distinct, Member-append_cases}
use mathlib.Core.Path.{◌≡◌, refl, ap}
use mathlib.Core.Logic.{inl, inr}
use mathlib.Core.List.{List, [], ◌∷◌, ◌++◌, map}

module _ {A B : Type 0} where
  pub Member-map : (f : A → B) (a : A) (xs : List A) → Member a xs → Member (f a) (map f xs)
  Member-map f a [] m = elim m [ ]
  Member-map f a (x ∷ xs) (inl e) = inl (ap f e)
  Member-map f a (x ∷ xs) (inr m) = inr (Member-map f a xs m)

  pub Member-of_map :
      (f : A → B) (b : B) (xs : List A) → Member b (map f xs) → (a : A) × Member a xs × (b ≡ f a)
  Member-of_map f b [] m = elim m [ ]
  Member-of_map f b (x ∷ xs) (inl e) = (x, inl refl, e)
  Member-of_map f b (x ∷ xs) (inr m) = let (a, n, e) = Member-of_map f b xs m in (a, inr n, e)

pub Distinct-append :
    (xs ys : List Text)
    → Distinct xs
    → Distinct ys
    → ((k : Text) → Member k xs → ¬ Member k ys)
    → Distinct (xs ++ ys)
Distinct-append [] ys dx dy apart = dy
Distinct-append (x ∷ xs) ys (new, dx) dy apart = (
  λ m. elim (Member-append_cases x xs ys m) [
    | inl old ↦ new old
    | inr other ↦ apart x (inl refl) other
  ],
  Distinct-append xs ys dx dy (λ k m. apart k (inr m)),
)

prefix-injective : (p s t : Text) → p ++ s ≡ p ++ t → s ≡ t
prefix-injective [] s t e = e
prefix-injective (c ∷ p) s t e = prefix-injective p s t (cc e)

-- The texts behind a prefix.
abbrev pub prefixed : Text → List Text → List Text
prefixed p xs = map (λ x. p ++ x) xs

pub Distinct-prefixed : (p : Text) (xs : List Text) → Distinct xs → Distinct (prefixed p xs)
Distinct-prefixed p [] d = tt
Distinct-prefixed p (x ∷ xs) (new, d) = (
  λ m.
      let (y, n, e) = Member-of_map (λ z. p ++ z) (p ++ x) xs m in
      new (rw (prefix-injective p x y e) n),
  Distinct-prefixed p xs d,
)
