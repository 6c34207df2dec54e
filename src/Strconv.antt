-- ===== src/Strconv.antt =====
-- Package strconv of Go's standard library, as far as the code uses it: Atoi, and the decimal form
-- of an integer that fmt's %d and %v and FormatInt print.
pub mod Laws
use rio.Prelude.{
  Text, ℕ, zero, suc, ◌+◌, ◌-◌, ◌*◌, ◌/◌, ◌%◌, ◌^◌, ◌==◌, ltb, leb, Bool, true, false, ◌&&◌, Option,
  none, some, [], ◌∷◌, if◌then◌else◌,
}
use rio.Prelude.Int.{ℤ, pos, negsuc}

-- The decimal digits of a number in front of `rest`; the fuel is at least the number of digits.
unfoldable pub digits_before : ℕ → ℕ → Text → Text
digits_before zero n rest = rest
digits_before (suc fuel) n rest =
    let more = digits_before fuel (n / 10) ((48 + n % 10) ∷ rest) in
    if ltb n 10 then (48 + n) ∷ rest else more

-- A number has at most as many digits as it has units, plus one.
unfoldable pub format_ℕ : ℕ → Text
unfolding digits_before
format_ℕ n = digits_before (suc n) n []

unfoldable pub format_int : ℤ → Text
unfolding format_ℕ
format_int (pos n) = format_ℕ n
format_int (negsuc n) = b'-' ∷ format_ℕ (suc n)

-- The value of a text of digits in front of which `n` has been read.
unfoldable pub read_digits : ℕ → Text → Option ℕ
read_digits n [] = some n
read_digits n (c ∷ s) =
    let rest = read_digits (n * 10 + (c - 48)) s in if leb 48 c && leb c 57 then rest else none

abbrev at_least_one_digit : Text → Option ℕ
at_least_one_digit [] = none
at_least_one_digit (c ∷ s) = read_digits 0 (c ∷ s)

-- The sign, and the digits after it.
abbrev sign_and_digits : Text → Bool × Text
sign_and_digits [] = (false, [])
sign_and_digits (c ∷ s) =
    if c == b'-' then (true, s) else if c == b'+' then (false, s) else (false, c ∷ s)

-- The value and whether there is no error; out of range it is the nearest number of 64 bits.
unfoldable pub atoi : Text → ℤ × Bool
unfolding read_digits
atoi s =
    let (negative, digits) = sign_and_digits s in
    elim (at_least_one_digit digits) [
      | none ↦ (pos 0, false)
      | some n ↦
          if negative
          then (if n == 0
              then (pos 0, true)
              else if leb n (2 ^ 63)
              then (negsuc (n - 1), true)
              else (negsuc (2 ^ 63 - 1), false))
          else if ltb n (2 ^ 63)
          then (pos n, true)
          else (pos (2 ^ 63 - 1), false)
    ]
