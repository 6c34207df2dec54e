-- ===== src/Prelude/Lists.antt =====
-- Lists measured and tested by native numbers and Booleans, membership, and options.
use Prim.Native.Nat.{ℕ, suc, ◌+◌}
use mathlib.Core.Path.{◌≡◌, refl}
use mathlib.Core.Logic.{◌⊎◌, inl, inr}
use mathlib.Core.List.{List, [], ◌∷◌, ◌++◌}
use mathlib.Core.Option.{Option, none, some}
use mathlib.Core.Bool.{Bool, true, false, ◌||◌}
use native.Mathlib.Omega.{arith}

module _ {ℓ} {A : Type ℓ} where
  abbrev pub length : List A → ℕ
  length [] = 0
  length (x ∷ xs) = suc (length xs)

  pub length-append : (xs ys : List A) → length (xs ++ ys) ≡ length xs + length ys
  length-append [] ys = omega arith
  length-append (x ∷ xs) ys = omega (arith, length-append xs ys)

  -- `len(xs) > 0`
  abbrev pub is_cons : List A → Bool
  is_cons [] = false
  is_cons (x ∷ xs) = true

  -- A loop with an early `return true`.
  unfoldable pub any : (A → Bool) → List A → Bool
  any p [] = false
  any p (x ∷ xs) = p x || any p xs

module _ {A : Type 0} where
  -- A membership whose cases can be matched.
  abbrev pub Member : A → List A → Type 0
  Member a [] = ⊥
  Member a (x ∷ xs) = (a ≡ x) ⊎ Member a xs

  pub Member-append_left : (a : A) (xs ys : List A) → Member a xs → Member a (xs ++ ys)
  Member-append_left a [] ys m = elim m [ ]
  Member-append_left a (x ∷ xs) ys (inl e) = inl e
  Member-append_left a (x ∷ xs) ys (inr m) = inr (Member-append_left a xs ys m)

  pub Member-append_right : (a : A) (xs ys : List A) → Member a ys → Member a (xs ++ ys)
  Member-append_right a [] ys m = m
  Member-append_right a (x ∷ xs) ys m = inr (Member-append_right a xs ys m)

module _ {ℓ κ} {A : Type ℓ} (P : A → Type κ) where
  abbrev pub All : List A → Type κ
  All [] = Unit
  All (x ∷ xs) = P x × All xs

  pub All-append : (xs ys : List A) → All xs → All ys → All (xs ++ ys)
  All-append [] ys h k = k
  All-append (x ∷ xs) ys (p, h) k = (p, All-append xs ys h k)

module _ {A : Type 0} where
  -- Each element of `xs` is one of `ys`.
  abbrev pub IsSubset : List A → List A → Type 0
  IsSubset xs ys = All (λ x. Member x ys) xs

  pub IsSubset-append_left : (xs ys zs : List A) → IsSubset xs ys → IsSubset xs (ys ++ zs)
  IsSubset-append_left [] ys zs h = tt
  IsSubset-append_left (x ∷ xs) ys zs (m, h) =
      (Member-append_left x ys zs m, IsSubset-append_left xs ys zs h)

  pub IsSubset-append_right : (xs ys zs : List A) → IsSubset xs zs → IsSubset xs (ys ++ zs)
  IsSubset-append_right [] ys zs h = tt
  IsSubset-append_right (x ∷ xs) ys zs (m, h) =
      (Member-append_right x ys zs m, IsSubset-append_right xs ys zs h)

  IsSubset-cons : (x : A) (xs ys : List A) → IsSubset xs ys → IsSubset xs (x ∷ ys)
  IsSubset-cons x [] ys h = tt
  IsSubset-cons x (y ∷ xs) ys (m, h) = (inr m, IsSubset-cons x xs ys h)

  pub IsSubset-refl : (xs : List A) → IsSubset xs xs
  IsSubset-refl [] = tt
  IsSubset-refl (x ∷ xs) = (inl refl, IsSubset-cons x xs xs (IsSubset-refl xs))

module _ {ℓ κ μ} {A : Type ℓ} {P : A → Type κ} {Q : A → Type μ} where
  pub All-map : (xs : List A) → ((x : A) → P x → Q x) → All P xs → All Q xs
  All-map [] f h = tt
  All-map (x ∷ xs) f (p, h) = (f x p, All-map xs f h)

module _ {A : Type 0} {P : A → Type 0} where
  pub All-of_Member : (xs : List A) → ((x : A) → Member x xs → P x) → All P xs
  All-of_Member [] h = tt
  All-of_Member (x ∷ xs) h = (h x (inl refl), All-of_Member xs (λ y m. h y (inr m)))

module _ {ℓ} {A : Type ℓ} where
  -- A pointer that is set.
  abbrev pub is_some : Option A → Bool
  is_some none = false
  is_some (some a) = true

-- Lists of one length, related element by element.
abbrev pub Pointwise : {A B : Type 0} → (A → B → Type 0) → List A → List B → Type 0
Pointwise R [] [] = Unit
Pointwise R (x ∷ xs) (y ∷ ys) = R x y × Pointwise R xs ys
Pointwise R _ _ = ⊥

module _ {A B : Type 0} (R : A → B → Type 0) where
  pub Member-Pointwise :
      (x : A) (xs : List A) (ys : List B)
      → Pointwise R xs ys
      → Member x xs
      → (y : B) × Member y ys × R x y
  Member-Pointwise x (z ∷ xs) (y ∷ ys) (r, rs) (inl e) = (y, inl refl, rw e r)
  Member-Pointwise x (z ∷ xs) (y ∷ ys) (r, rs) (inr m) =
      let (found, at, related) = Member-Pointwise x xs ys rs m in (found, inr at, related)
  Member-Pointwise x [] ys rs m = elim m [ ]
  Member-Pointwise x (z ∷ xs) [] rs m = absurd rs

  pub Pointwise-Member :
      (y : B) (xs : List A) (ys : List B)
      → Pointwise R xs ys
      → Member y ys
      → (x : A) × Member x xs × R x y
  Pointwise-Member y (x ∷ xs) (z ∷ ys) (r, rs) (inl e) = (x, inl refl, rw e r)
  Pointwise-Member y (x ∷ xs) (z ∷ ys) (r, rs) (inr m) =
      let (found, at, related) = Pointwise-Member y xs ys rs m in (found, inr at, related)
  Pointwise-Member y xs [] rs m = elim m [ ]
  Pointwise-Member y [] (z ∷ ys) rs m = absurd rs
