-- ===== src/Prelude/Strings.antt =====
-- Go strings as lists of bytes, with the operations of package strings that the code uses.
use Prim.Native.Nat.{ℕ, compare, Ordering}
use Prim.Native.Char.{code}
use Prim.Native.String.{String}
use rio.Prelude.Tests.{if◌then◌else◌}
use mathlib.Core.Path.{◌≡◌, refl}
use mathlib.Core.Logic.{◌↔◌, ◌≢◌}
use mathlib.Core.List.{List, [], ◌∷◌, ◌++◌}
use mathlib.Core.Bool.{Bool, true, false, ◌||◌}
use native.Mathlib.Omega.{arith}

abbrev pub Text : Type 0
Text = List ℕ

-- A literal. It is shut, so that proofs see it whole.
unfoldable pub str : String → Text
str String.[] = []
str (String.◌∷◌ c s) = code c ∷ str s

-- `a == b`
unfoldable pub text_eq : Text → Text → Bool
text_eq [] [] = true
text_eq (x ∷ xs) (y ∷ ys) = elim (compare x y) [ Ordering.eq ↦ text_eq xs ys | _ ↦ false ]
text_eq _ _ = false

pub text_eq_refl : (s : Text) → text_eq s s ≡ true
unfolding text_eq
text_eq_refl [] = refl
text_eq_refl (x ∷ xs) = ground (arith, text_eq_refl xs)

pub eq_of_text_eq : (s t : Text) → text_eq s t ≡ true → s ≡ t
unfolding text_eq
eq_of_text_eq [] [] h = refl
eq_of_text_eq (x ∷ xs) (y ∷ ys) h = ground (arith, eq_of_text_eq xs ys)
eq_of_text_eq [] (y ∷ ys) h = cc
eq_of_text_eq (x ∷ xs) [] h = cc

pub text_eq_iff : (s t : Text) → (text_eq s t ≡ true) ↔ (s ≡ t)
text_eq_iff s t = (eq_of_text_eq s t, λ e. rw e (text_eq_refl t))

-- `s == ""`
abbrev pub is_empty : Text → Bool
is_empty [] = true
is_empty (c ∷ s) = false

-- strings.HasSuffix
unfoldable pub has_suffix : Text → Text → Bool
unfolding text_eq
has_suffix [] t = is_empty t
has_suffix (c ∷ s) t = text_eq (c ∷ s) t || has_suffix s t

-- strings.HasPrefix
unfoldable pub has_prefix : Text → Text → Bool
has_prefix s [] = true
has_prefix [] (d ∷ t) = false
has_prefix (c ∷ s) (d ∷ t) =
    let rest = has_prefix s t in elim (compare c d) [ Ordering.eq ↦ rest | _ ↦ false ]

drop_first : Text → Text → Text
drop_first s [] = s
drop_first [] (d ∷ t) = []
drop_first (c ∷ s) (d ∷ t) = drop_first s t

-- strings.TrimPrefix
unfoldable pub trim_prefix : Text → Text → Text
unfolding has_prefix drop_first
trim_prefix s prefix = elim (has_prefix s prefix) [ true ↦ drop_first s prefix | false ↦ s ]

pub has_prefix-append : (prefix s : Text) → has_prefix (prefix ++ s) prefix ≡ true
unfolding has_prefix
has_prefix-append [] s = refl
has_prefix-append (c ∷ prefix) s = ground (arith, has_prefix-append prefix s)

drop_first-append : (prefix s : Text) → drop_first (prefix ++ s) prefix ≡ s
unfolding drop_first
drop_first-append [] s = refl
drop_first-append (c ∷ prefix) s = drop_first-append prefix s

pub trim_prefix-append : (prefix s : Text) → trim_prefix (prefix ++ s) prefix ≡ s
unfolding trim_prefix
trim_prefix-append prefix s =
    rw (has_prefix-append prefix s, trim_prefix) (drop_first-append prefix s)

-- strings.TrimSuffix
unfoldable pub trim_suffix : Text → Text → Text
trim_suffix [] t = []
trim_suffix (c ∷ s) t = let rest = trim_suffix s t in if text_eq (c ∷ s) t then [] else c ∷ rest

-- strings.Split at a separator of one byte: the parts between.
unfoldable pub split_on : ℕ → Text → List Text
split_on separator [] = [] ∷ []
split_on separator (c ∷ s) =
    let rest = split_on separator s in
    elim (compare c separator) [
      | Ordering.eq ↦ [] ∷ rest
      | _ ↦ elim rest [ [] ↦ [] | part ∷ parts ↦ (c ∷ part) ∷ parts ]
    ]

-- None of the bytes is this one.
abbrev pub Lacks : ℕ → Text → Type 0
Lacks c [] = Unit
Lacks c (d ∷ s) = (c ≢ d) × Lacks c s

pub split_on-Lacks : (c : ℕ) (s : Text) → Lacks c s → split_on c s ≡ s ∷ []
unfolding split_on
split_on-Lacks c [] h = refl
split_on-Lacks c (d ∷ s) (n, h) = ground (arith, split_on-Lacks c s h)

pub split_on-append :
    (c : ℕ) (s t : Text) → Lacks c s → split_on c (s ++ (c ∷ t)) ≡ s ∷ split_on c t
unfolding split_on
split_on-append c [] t h = ground arith
split_on-append c (d ∷ s) t (n, h) = ground (arith, split_on-append c s t h)

-- At an end of one byte.
module _ (c : ℕ) where
  text_eq-longer : (d : ℕ) (s : Text) → text_eq (d ∷ (s ++ (c ∷ []))) (c ∷ []) ≡ false
  unfolding text_eq
  text_eq-longer d [] = ground arith
  text_eq-longer d (e ∷ s) = ground arith

  pub trim_suffix-append : (s : Text) → trim_suffix (s ++ (c ∷ [])) (c ∷ []) ≡ s
  unfolding trim_suffix
  trim_suffix-append [] = ground (arith, text_eq_refl (c ∷ []))
  trim_suffix-append (d ∷ s) = rw (trim_suffix-append s, text_eq-longer d s) refl

  pub has_suffix-append : (s : Text) → has_suffix (s ++ (c ∷ [])) (c ∷ []) ≡ true
  unfolding has_suffix
  has_suffix-append [] = ground (arith, text_eq_refl (c ∷ []))
  has_suffix-append (d ∷ s) = rw (has_suffix-append s, text_eq-longer d s) refl

  -- Another last byte is no such end.
  pub not-has_suffix-append :
      (d : ℕ) (s : Text) → d ≢ c → has_suffix (s ++ (d ∷ [])) (c ∷ []) ≡ false
  unfolding has_suffix text_eq
  not-has_suffix-append d [] n = ground arith
  not-has_suffix-append d (e ∷ []) n = ground (arith, not-has_suffix-append d [] n)
  not-has_suffix-append d (e ∷ f ∷ s) n = ground (arith, not-has_suffix-append d (f ∷ s) n)
