-- ===== src/Stringers/Permission/Pieces.antt =====
-- The pieces of a text, joined to another at a byte of ASCII.
use rio.Prelude.{
  Text, ℕ, ◌<◌, ◌≡◌, refl, sym, ap, Bool-cases, true, false, inl, inr, arith, [], ◌∷◌, ◌++◌,
}
use rio.Stringers.Permission.{is_space, is_space_2, is_space_3, space, piece, pieces, flatten}

pieces-one : (c : ℕ) → pieces (c ∷ []) ≡ piece c ∷ []
unfolding pieces
pieces-one c = refl

pieces-none : pieces [] ≡ []
unfolding pieces
pieces-none = refl

pieces-two : (c d : ℕ) → is_space_2 c d ≡ false → pieces (c ∷ d ∷ []) ≡ piece c ∷ pieces (d ∷ [])
unfolding pieces
pieces-two c d other = rw (other, pieces) refl

pieces-three :
    (c d e : ℕ) (s : Text)
    → is_space_3 c d e ≡ false
    → is_space_2 c d ≡ false
    → pieces (c ∷ d ∷ e ∷ s) ≡ piece c ∷ pieces (d ∷ e ∷ s)
unfolding pieces
pieces-three c d e s none other = rw (none, pieces) (rw other refl)

pieces-of_3 :
    (c d e : ℕ) (s : Text)
    → is_space_3 c d e ≡ true
    → pieces (c ∷ d ∷ e ∷ s) ≡ space (c ∷ d ∷ e ∷ []) ∷ pieces s
unfolding pieces
pieces-of_3 c d e s three = rw (three, pieces) refl

pieces-end_of_2 : (c d : ℕ) → is_space_2 c d ≡ true → pieces (c ∷ d ∷ []) ≡ space (c ∷ d ∷ []) ∷ []
unfolding pieces
pieces-end_of_2 c d two = rw (two, pieces) refl

pieces-of_2 :
    (c d e : ℕ) (s : Text)
    → is_space_3 c d e ≡ false
    → is_space_2 c d ≡ true
    → pieces (c ∷ d ∷ e ∷ s) ≡ space (c ∷ d ∷ []) ∷ pieces (e ∷ s)
unfolding pieces
pieces-of_2 c d e s none two = rw (none, pieces) (rw two refl)

-- A byte of ASCII is no part of a longer space.
module _ (x : ℕ) (ascii : x < 128) where
  ascii-first_of_2 : (d : ℕ) → is_space_2 x d ≡ false
  unfolding is_space_2
  ascii-first_of_2 d = ground arith

  ascii-last_of_2 : (c : ℕ) → is_space_2 c x ≡ false
  unfolding is_space_2
  ascii-last_of_2 c = ground arith

  ascii-first_of_3 : (d e : ℕ) → is_space_3 x d e ≡ false
  unfolding is_space_3
  ascii-first_of_3 d e = ground arith

  ascii-second_of_3 : (c e : ℕ) → is_space_3 c x e ≡ false
  unfolding is_space_3
  ascii-second_of_3 c e = ground arith

  ascii-last_of_3 : (c d : ℕ) → is_space_3 c d x ≡ false
  unfolding is_space_3
  ascii-last_of_3 c d = ground arith

  pieces-ascii : (s : Text) → pieces (x ∷ s) ≡ piece x ∷ pieces s
  pieces-ascii [] = rw pieces-none (pieces-one x)
  pieces-ascii (d ∷ []) = pieces-two x d (ascii-first_of_2 d)
  pieces-ascii (d ∷ e ∷ s) = pieces-three x d e s (ascii-first_of_3 d e) (ascii-first_of_2 d)

  pub pieces-append : (v s : Text) → pieces (v ++ (x ∷ s)) ≡ pieces v ++ (piece x ∷ pieces s)
  pieces-append [] s = rw pieces-none (pieces-ascii s)
  pieces-append (c ∷ []) [] =
      rw (pieces-two c x (ascii-last_of_2 c))
        (rw pieces-none (rw (pieces-one c) (rw (pieces-one x) refl)))
  pieces-append (c ∷ []) (d ∷ s) =
      rw (pieces-three c x d s (ascii-second_of_3 c d) (ascii-last_of_2 c))
        (rw (pieces-one c) (rw (pieces-ascii (d ∷ s)) refl))
  pieces-append (c ∷ d ∷ []) s = elim (Bool-cases (is_space_2 c d)) [
    | inl two ↦
        rw (pieces-of_2 c d x s (ascii-last_of_3 c d) two)
          (rw (pieces-end_of_2 c d two) (rw (pieces-ascii s) refl))
    | inr other ↦
        rw (pieces-three c d x s (ascii-last_of_3 c d) other)
          (rw (pieces-two c d other) (rw (pieces-append (d ∷ []) s) refl))
  ]
  pieces-append (c ∷ d ∷ e ∷ v) s = elim (Bool-cases (is_space_3 c d e)) [
    | inl three ↦
        rw (pieces-of_3 c d e _ three)
          (rw (pieces-of_3 c d e v three) (rw (pieces-append v s) refl))
    | inr none ↦ elim (Bool-cases (is_space_2 c d)) [
      | inl two ↦
          rw (pieces-of_2 c d e _ none two)
            (rw (pieces-of_2 c d e v none two) (rw (pieces-append (e ∷ v) s) refl))
      | inr other ↦
          rw (pieces-three c d e _ none other)
            (rw (pieces-three c d e v none other) (rw (pieces-append (d ∷ e ∷ v) s) refl))
    ]
  ]

flatten-piece : (c : ℕ) (s : Text) → flatten (pieces s) ≡ s → flatten (piece c ∷ pieces s) ≡ c ∷ s
unfolding flatten
flatten-piece c s e = elim (Bool-cases (is_space c)) [
  | inl blank ↦ rw blank (ap (λ t. c ∷ t) e)
  | inr other ↦ rw other (ap (λ t. c ∷ t) e)
]

pub flatten-pieces : (s : Text) → flatten (pieces s) ≡ s
unfolding flatten
flatten-pieces [] = rw pieces-none refl
flatten-pieces (c ∷ []) =
    rw (pieces-one c) (rw (sym pieces-none) (flatten-piece c [] (flatten-pieces [])))
flatten-pieces (c ∷ d ∷ []) = elim (Bool-cases (is_space_2 c d)) [
  | inl two ↦ rw (pieces-end_of_2 c d two) refl
  | inr other ↦ rw (pieces-two c d other) (flatten-piece c (d ∷ []) (flatten-pieces (d ∷ [])))
]
flatten-pieces (c ∷ d ∷ e ∷ s) = elim (Bool-cases (is_space_3 c d e)) [
  | inl three ↦ rw (pieces-of_3 c d e s three) (ap (λ t. c ∷ d ∷ e ∷ t) (flatten-pieces s))
  | inr none ↦ elim (Bool-cases (is_space_2 c d)) [
    | inl two ↦ rw (pieces-of_2 c d e s none two) (ap (λ t. c ∷ d ∷ t) (flatten-pieces (e ∷ s)))
    | inr other ↦
        rw (pieces-three c d e s none other)
          (flatten-piece c (d ∷ e ∷ s) (flatten-pieces (d ∷ e ∷ s)))
  ]
]
