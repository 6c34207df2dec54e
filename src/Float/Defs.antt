-- ===== src/Float/Defs.antt =====
-- float64 as a record of operations, and the facts about it that the theorems use.
use rio.Prelude.{ℕ, ◌+◌, ◌*◌, ◌/◌, ◌^◌, ◌≤◌, ◌<◌, ◌≡◌, Bool, true, false}
use rio.Prelude.Int.{ℤ, pos}

-- `of_int` and `to_int` are the conversions float64(n) and int(f), the latter truncating;
-- `decimal m n` is the constant m / n.
pub record Float64 : Type 1 where
  pub F : Type 0
  pub of_int : ℤ → F
  pub decimal : ℕ → ℕ → F
  pub add : F → F → F
  pub sub : F → F → F
  pub mul : F → F → F
  pub div : F → F → F
  pub lt : F → F → Bool
  pub abs : F → F
  pub round : F → F
  pub floor : F → F
  pub to_int : F → ℤ

-- Consequences of correct rounding, at magnitudes where no intermediate result overflows.
pub record IsIeee (f : Float64) : Type 1 where
  -- Not a NaN.
  pub IsNumber : f.F → Type 0
  pub number_div : (a b : ℕ) → 0 < b → IsNumber (f.div (f.of_int (pos a)) (f.of_int (pos b)))
  pub number_add_half : (x : f.F) → IsNumber x → IsNumber (f.add x (f.decimal 5 10))
  pub number_sub_half : (x : f.F) → IsNumber x → IsNumber (f.sub x (f.decimal 5 10))
  pub number_decimal : (m n : ℕ) → 0 < n → IsNumber (f.decimal m n)
  -- The truncated quotient of two integers is exact.
  pub div_trunc :
      (a b : ℕ)
      → a < 2 ^ 53
      → 0 < b
      → b < 2 ^ 53
      → f.to_int (f.div (f.of_int (pos a)) (f.of_int (pos b))) ≡ pos (a / b)
  -- A percentage is truncated, and loses at most one more unit by rounding.
  pub percent :
      (a b : ℕ)
      → a ≤ b
      → 0 < b
      → b < 2 ^ 40
      → (m : ℕ) × (f.to_int
            (f.mul (f.div (f.of_int (pos a)) (f.of_int (pos b))) (f.of_int (pos 100)))
          ≡ pos m)
        × (m * b ≤ 100 * a)
        × (100 * a < (m + 2) * b)
  -- A product with a factor between 0.5 and 1.25 lies between the two exact products.
  pub mul_floor :
      (n : ℕ) (r : f.F)
      → n < 2 ^ 50
      → IsNumber r
      → f.lt r (f.decimal 5 10) ≡ false
      → f.lt (f.decimal 125 100) r ≡ false
      → (m : ℕ) × (f.to_int (f.floor (f.mul (f.of_int (pos n)) r)) ≡ pos m)
        × (n / 2 ≤ m)
        × (4 * m ≤ 5 * n)
  -- 1.0 is neutral, and the floor of a number in [0.5, 1.0) is 0.
  pub one_mul_floor :
      (r : f.F)
      → IsNumber r
      → f.lt r (f.decimal 5 10) ≡ false
      → f.lt r (f.decimal 1 1) ≡ true
      → f.to_int (f.floor (f.mul (f.of_int (pos 1)) r)) ≡ pos 0
  -- A quotient of at most 1/4, plus 0.5, is at most 0.75.
  pub quarter_add_half :
      (a b : ℕ)
      → 0 < b
      → 4 * a ≤ b
      → f.lt (f.add (f.div (f.of_int (pos a)) (f.of_int (pos b))) (f.decimal 5 10)) (f.decimal 1 1)
        ≡ true
  -- A nonnegative number plus 0.5 is not below 0.5.
  pub add_half :
      (a b : ℕ)
      → 0 < b
      → f.lt (f.add (f.div (f.of_int (pos a)) (f.of_int (pos b))) (f.decimal 5 10)) (f.decimal 5 10)
        ≡ false
  -- Constants compare as the numbers that they stand for.
  pub decimal_lt :
      (m n p q : ℕ) → 0 < n → 0 < q → p * n ≤ m * q → f.lt (f.decimal m n) (f.decimal p q) ≡ false
  pub lt_trans_one :
      (r : f.F) → IsNumber r → f.lt r (f.decimal 1 1) ≡ true → f.lt (f.decimal 125 100) r ≡ false
