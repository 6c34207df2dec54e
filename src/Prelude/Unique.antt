-- ===== src/Prelude/Unique.antt =====
-- The loop that keeps the first of the values with the same key:
-- `if seen[key] { continue }; seen[key] = true; kept = append(kept, a)`.
use rio.Prelude.Strings.{Text, text_eq, text_eq_iff}
use rio.Prelude.Lists.{any, Member, Member-append_left, Member-append_right}
use rio.Prelude.Tests.{if◌then◌else◌, Bool-cases}
use mathlib.Core.Path.{◌≡◌, refl, ap, sym, ◌∙◌}
use mathlib.Core.Logic.{◌⊎◌, inl, inr}
use mathlib.Core.List.{List, [], ◌∷◌, ◌++◌, map, map-append}
use mathlib.Core.Bool.{Bool, true, false}
use native.Mathlib.Omega.{arith}

-- `seen[k]`: the map holds `true` for the keys that are listed.
unfoldable pub has : Text → List Text → Bool
unfolding any
has k seen = any (λ j. text_eq j k) seen

pub Member-of_has : (k : Text) (seen : List Text) → has k seen ≡ true → Member k seen
unfolding has any
Member-of_has k [] h = absurd (cc)
Member-of_has k (j ∷ seen) h = elim (Bool-cases (text_eq j k)) [
  | inl same ↦ inl (sym ((text_eq_iff j k).0 same))
  | inr other ↦ inr (Member-of_has k seen (ground (arith, other)))
]

pub has-of_Member : (k : Text) (seen : List Text) → Member k seen → has k seen ≡ true
unfolding has any
has-of_Member k [] m = elim m [ ]
has-of_Member k (j ∷ seen) (inl e) = ground (arith, text_eq_iff j k)
has-of_Member k (j ∷ seen) (inr m) = ground (arith, has-of_Member k seen m)

pub not-Member_of_has : (k : Text) (seen : List Text) → has k seen ≡ false → ¬ Member k seen
not-Member_of_has k seen new m = absurd (cc (new, has-of_Member k seen m))

-- No key twice.
abbrev pub Distinct : List Text → Type 0
Distinct [] = Unit
Distinct (k ∷ ks) = (¬ Member k ks) × Distinct ks

pub Member-append_cases :
    (k : Text) (ks ls : List Text) → Member k (ks ++ ls) → Member k ks ⊎ Member k ls
Member-append_cases k [] ls m = inr m
Member-append_cases k (j ∷ ks) ls (inl e) = inl (inl e)
Member-append_cases k (j ∷ ks) ls (inr m) = elim (Member-append_cases k ks ls m) [
  | inl before ↦ inl (inr before)
  | inr after ↦ inr after
]

pub Distinct-snoc :
    (ks : List Text) (k : Text) → Distinct ks → ¬ Member k ks → Distinct (ks ++ (k ∷ []))
Distinct-snoc [] k d new = (λ m. m, tt)
Distinct-snoc (j ∷ ks) k (fresh, d) new = (
  λ m. elim (Member-append_cases j ks (k ∷ []) m) [
    | inl old ↦ fresh old
    | inr (inl e) ↦ new (inl (sym e))
    | inr (inr never) ↦ never
  ],
  Distinct-snoc ks k d (λ m. new (inr m)),
)

-- What is kept so far, and the keys that the map has.
pub record Unique (A : Type 0) : Type 0 where
  pub kept : List A
  pub seen : List Text

module _ {A : Type 0} where
  abbrev pub none_kept : Unique A
  none_kept = record { kept = []; seen = [] }

  module _ (key : A → Text) where
    unfoldable pub add_new : A → Unique A → Unique A
    unfolding has
    add_new a u =
        let grown : Unique A = record {
          kept = u.kept ++ (a ∷ []);
          seen = u.seen ++ (key a ∷ []);
        } in
        if has (key a) u.seen then u else grown

    -- The keys of what is kept are those that were seen, and they are distinct.
    pub record IsUnique (u : Unique A) : Type 0 where
      pub same : u.seen ≡ map key u.kept
      pub distinct : Distinct u.seen

    pub add_new-IsUnique : (a : A) (u : Unique A) → IsUnique u → IsUnique (add_new a u)
    unfolding add_new
    add_new-IsUnique a u h = elim (Bool-cases (has (key a) u.seen)) [
      | inl old ↦ rw old h
      | inr new ↦ rw new (record {
        same = ap (λ ks. ks ++ (key a ∷ [])) h.same ∙ sym (map-append key u.kept (a ∷ []));
        distinct = Distinct-snoc u.seen (key a) h.distinct (not-Member_of_has (key a) u.seen new);
      })
    ]

    -- The keys seen stay, and the new one is among them.
    pub add_new-seen : (a : A) (u : Unique A) → Member (key a) (add_new a u).seen
    unfolding add_new
    add_new-seen a u = elim (Bool-cases (has (key a) u.seen)) [
      | inl old ↦ rw old (Member-of_has _ _ old)
      | inr new ↦ rw new (Member-append_right _ u.seen _ (inl refl))
    ]

    pub add_new-keeps :
        (k : Text) (a : A) (u : Unique A) → Member k u.seen → Member k (add_new a u).seen
    unfolding add_new
    add_new-keeps k a u m = elim (Bool-cases (has (key a) u.seen)) [
      | inl old ↦ rw old m
      | inr new ↦ rw new (Member-append_left k u.seen _ m)
    ]

    appended :
        (k : Text) (a : A) (u : Unique A)
        → Member k u.seen ⊎ Member k (key a ∷ [])
        → Member k (key a ∷ u.seen)
    appended k a u (inl m) = inr m
    appended k a u (inr (inl e)) = inl e
    appended k a u (inr (inr m)) = inr (absurd m)

    -- No other key is seen.
    pub add_new-only :
        (k : Text) (a : A) (u : Unique A) → Member k (add_new a u).seen → Member k (key a ∷ u.seen)
    unfolding add_new
    add_new-only k a u = elim (Bool-cases (has (key a) u.seen)) [
      | inl old ↦ rw old (λ m. inr m)
      | inr new ↦ rw new (λ m. appended k a u (Member-append_cases k u.seen (key a ∷ []) m))
    ]
