-- ===== src/Strconv/Laws.antt =====
-- Reading back what is printed.
use rio.Prelude.{
  Text, ℕ, zero, suc, ◌+◌, ◌*◌, ◌/◌, ◌%◌, ◌^◌, ◌≤◌, ◌<◌, ◌≡◌, arith, ltb, true, some, [], ◌∷◌,
  Bool-cases, inl, inr,
}
use mathlib.Core.Path.{◌∙◌, ap}
use rio.Prelude.Int.{ℤ, pos, negsuc}
use rio.Strconv.{digits_before, format_ℕ, format_int, read_digits, atoi}

-- Digits are read up to a digit as their number.
read_digits-cons :
    (m d : ℕ) (rest : Text)
    → d < 10
    → read_digits m ((48 + d) ∷ rest) ≡ read_digits (m * 10 + d) rest
unfolding read_digits
read_digits-cons m d rest h = ground arith

read_digits-digits_before :
    (fuel n : ℕ) (rest : Text)
    → n < fuel
    → read_digits 0 (digits_before fuel n rest) ≡ read_digits n rest
unfolding digits_before
read_digits-digits_before zero n rest h = elim h [ ]
read_digits-digits_before (suc fuel) n rest h = elim (Bool-cases (ltb n 10)) [
  | inl small ↦
      rw small
        (read_digits-cons 0 n rest (ground arith) ∙ ap (λ m. read_digits m rest) (omega arith))
  | inr large ↦ rw large (
      read_digits-digits_before fuel (n / 10) ((48 + n % 10) ∷ rest) (ground arith)
      ∙ read_digits-cons (n / 10) (n % 10) rest (omega arith)
      ∙ ap (λ m. read_digits m rest) (omega arith))
]

-- A text that starts with a digit.
abbrev StartsWithDigit : Text → Type 0
StartsWithDigit [] = ⊥
StartsWithDigit (c ∷ s) = (48 ≤ c) × (c ≤ 57)

digits_before-StartsWithDigit :
    (fuel n : ℕ) (rest : Text) → n < fuel → StartsWithDigit (digits_before fuel n rest)
unfolding digits_before
digits_before-StartsWithDigit zero n rest h = elim h [ ]
digits_before-StartsWithDigit (suc fuel) n rest h = elim (Bool-cases (ltb n 10)) [
  | inl small ↦ rw small (ground arith, ground arith)
  | inr large ↦
      rw large (digits_before-StartsWithDigit fuel (n / 10) ((48 + n % 10) ∷ rest) (ground arith))
]

read_digits-format_ℕ : (n : ℕ) → read_digits 0 (format_ℕ n) ≡ some n
unfolding format_ℕ read_digits
read_digits-format_ℕ n = read_digits-digits_before (suc n) n [] (omega arith)

format_ℕ-StartsWithDigit : (n : ℕ) → StartsWithDigit (format_ℕ n)
unfolding format_ℕ
format_ℕ-StartsWithDigit n = digits_before-StartsWithDigit (suc n) n [] (omega arith)

atoi_of_digits :
    (t : Text) (n : ℕ)
    → StartsWithDigit t
    → read_digits 0 t ≡ some n
    → n < 2 ^ 63
    → atoi t ≡ (pos n, true)
unfolding atoi
atoi_of_digits [] n d h k = elim d [ ]
atoi_of_digits (c ∷ s) n d h k = ground arith

atoi_of_minus :
    (t : Text) (n : ℕ)
    → StartsWithDigit t
    → read_digits 0 t ≡ some (suc n)
    → n < 2 ^ 63
    → atoi (45 ∷ t) ≡ (negsuc n, true)
unfolding atoi
atoi_of_minus [] n d h k = elim d [ ]
atoi_of_minus (c ∷ s) n d h k = ground arith

-- The integers of 64 bits.
abbrev pub IsInt64 : ℤ → Type 0
IsInt64 (pos n) = n < 2 ^ 63
IsInt64 (negsuc n) = n < 2 ^ 63

pub atoi-format_int : (n : ℤ) → IsInt64 n → atoi (format_int n) ≡ (n, true)
unfolding format_int
atoi-format_int (pos n) h =
    atoi_of_digits (format_ℕ n) n (format_ℕ-StartsWithDigit n) (read_digits-format_ℕ n) h
atoi-format_int (negsuc n) h =
    atoi_of_minus (format_ℕ (suc n)) n (format_ℕ-StartsWithDigit (suc n))
      (read_digits-format_ℕ (suc n)) h
