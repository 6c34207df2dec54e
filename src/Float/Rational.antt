-- ===== src/Float/Rational.antt =====
-- The exact rationals as an instance of `Float64`, which meets the facts that the theorems use.
use rio.Prelude.{ℕ, zero, suc, ◌+◌, ◌-◌, ◌*◌, ◌/◌, ◌≤◌, ◌<◌, ◌≡◌, arith, Bool, true, false}
use mathlib.Core.Path.{ap, ap₂, ◌∙◌}
use native.Mathlib.Nat.{
  le-div_iff_mul-le, div-mul-le_self, mul-le-mul_left, mul-le-mul_right, le_of_mul-le-mul_right,
  div-one, div-eq_of_lt,
}
use rio.Prelude.Int.{ℤ, pos, negsuc, ltb_ℤ, ◌+ℤ◌, ◌-ℤ◌}
use rio.Float.Defs.{Float64, IsIeee}

-- `num / (less + 1)`
pub record Rat : Type 0 where
  pub num : ℤ
  pub less : ℕ

abbrev den : Rat → ℕ
den r = suc r.less

-- The product of an integer and a natural number.
abbrev scale : ℤ → ℕ → ℤ
scale (pos n) k = pos (n * k)
scale (negsuc n) zero = pos 0
scale (negsuc n) (suc k) = negsuc (suc n * suc k - 1)

abbrev times : ℤ → ℤ → ℤ
times a (pos k) = scale a k
times a (negsuc k) = pos 0 -ℤ scale a (suc k)

abbrev of_ℤ : ℤ → Rat
of_ℤ n = record { num = n; less = 0 }

abbrev ratio : ℕ → ℕ → Rat
ratio m n = record { num = pos m; less = n - 1 }

abbrev add_Rat : Rat → Rat → Rat
add_Rat a b = record { num = scale a.num (den b) +ℤ scale b.num (den a); less = den a * den b - 1 }

abbrev sub_Rat : Rat → Rat → Rat
sub_Rat a b = record { num = scale a.num (den b) -ℤ scale b.num (den a); less = den a * den b - 1 }

abbrev mul_Rat : Rat → Rat → Rat
mul_Rat a b = record { num = times a.num b.num; less = den a * den b - 1 }

-- The code divides by positive numbers; a quotient by 0 is taken as 0.
abbrev div_Rat : Rat → Rat → Rat
div_Rat a b = elim b.num [
  | pos k ↦ record { num = scale a.num (den b); less = den a * k - 1 }
  | negsuc k ↦ record { num = pos 0 -ℤ scale a.num (den b); less = den a * suc k - 1 }
]

abbrev lt_Rat : Rat → Rat → Bool
lt_Rat a b = ltb_ℤ (scale a.num (den b)) (scale b.num (den a))

abbrev floor_ℤ : Rat → ℤ
floor_ℤ r = elim r.num [ pos n ↦ pos (n / den r) | negsuc n ↦ negsuc (n / den r) ]

abbrev trunc : Rat → ℤ
trunc r = elim r.num [ pos n ↦ pos (n / den r) | negsuc n ↦ pos 0 -ℤ pos (suc n / den r) ]

abbrev round_ℤ : Rat → ℤ
round_ℤ r = elim r.num [
  | pos n ↦ pos ((2 * n + den r) / (2 * den r))
  | negsuc n ↦ pos 0 -ℤ pos ((2 * suc n + den r) / (2 * den r))
]

abbrev abs_Rat : Rat → Rat
abs_Rat r = elim r.num [ pos n ↦ r | negsuc n ↦ record r { num = pos (suc n) } ]

abbrev pub rational : Float64
rational = record {
  F = Rat;
  of_int = of_ℤ;
  decimal = ratio;
  add = add_Rat;
  sub = sub_Rat;
  mul = mul_Rat;
  div = div_Rat;
  lt = lt_Rat;
  abs = abs_Rat;
  round = λ r. of_ℤ (round_ℤ r);
  floor = λ r. of_ℤ (floor_ℤ r);
  to_int = trunc;
}

halves : (p d : ℕ) → 5 * suc d ≤ p * 10 → suc d ≤ 2 * p
halves p d h = omega arith

fourths : (p d : ℕ) → p * 100 ≤ 125 * suc d → 4 * p ≤ 5 * suc d
fourths p d h = omega arith

half_le : (n p d : ℕ) → 5 * suc d ≤ p * 10 → n / 2 ≤ n * p / suc d
half_le n p d h = (le-div_iff_mul-le (omega arith)).1 (scaled n p d (n / 2) h (omega arith))
  where
    scaled : (n p d q : ℕ) → 5 * suc d ≤ p * 10 → 2 * q ≤ n → q * suc d ≤ n * p
    scaled n p d q h k = omega (arith, mul-le-mul_left q (halves p d h), mul-le-mul_right p k)

le_five_fourths : (n p d : ℕ) → p * 100 ≤ 125 * suc d → 4 * (n * p / suc d) ≤ 5 * n
le_five_fourths n p d h = scaled n p d (n * p / suc d) h (div-mul-le_self (n * p) (suc d))
  where
    scaled : (n p d m : ℕ) → p * 100 ≤ 125 * suc d → m * suc d ≤ n * p → 4 * m ≤ 5 * n
    scaled n p d m h k =
        le_of_mul-le-mul_right {k = suc d} (omega (arith, mul-le-mul_left n (fourths p d h), k))
          (omega arith)

div_one : (k d : ℕ) → k / suc (1 * suc d - 1) / 1 ≡ k / suc d
div_one k d = div-one _ ∙ ap (λ b. k / b) (omega arith)

below_one : (k d : ℕ) → k < suc d → k / suc d ≡ 0
below_one k d h = div-eq_of_lt h

div_trunc_Rat : (a b : ℕ) → 0 < b → trunc (div_Rat (of_ℤ (pos a)) (of_ℤ (pos b))) ≡ pos (a / b)
div_trunc_Rat a zero h = elim h [ ]
div_trunc_Rat a (suc b) h = ap pos (ap₂ ◌/◌ (omega arith) (omega arith))

mul_floor_num :
    (n : ℕ) (p : ℤ) (d : ℕ)
    → lt_Rat (record { num = p; less = d }) (ratio 5 10) ≡ false
    → lt_Rat (ratio 125 100) (record { num = p; less = d }) ≡ false
    → (m : ℕ) × (trunc (of_ℤ (floor_ℤ (mul_Rat (of_ℤ (pos n)) (record { num = p; less = d }))))
        ≡ pos m)
      × (n / 2 ≤ m)
      × (4 * m ≤ 5 * n)
mul_floor_num n (pos p) d low high = (
  n * p / suc d,
  ap pos (div_one (n * p) d),
  half_le n p d (ground arith),
  le_five_fourths n p d (ground arith),
)
mul_floor_num n (negsuc p) d low high = absurd (ground arith)

mul_floor_Rat :
    (n : ℕ) (r : Rat)
    → lt_Rat r (ratio 5 10) ≡ false
    → lt_Rat (ratio 125 100) r ≡ false
    → (m : ℕ) × (trunc (of_ℤ (floor_ℤ (mul_Rat (of_ℤ (pos n)) r))) ≡ pos m)
      × (n / 2 ≤ m)
      × (4 * m ≤ 5 * n)
mul_floor_Rat n r low high = mul_floor_num n r.num r.less low high

one_mul_floor_num :
    (p : ℤ) (d : ℕ)
    → lt_Rat (record { num = p; less = d }) (ratio 5 10) ≡ false
    → lt_Rat (record { num = p; less = d }) (ratio 1 1) ≡ true
    → trunc (of_ℤ (floor_ℤ (mul_Rat (of_ℤ (pos 1)) (record { num = p; less = d })))) ≡ pos 0
one_mul_floor_num (pos p) d low high =
    ap pos (div_one (1 * p) d ∙ below_one (1 * p) d (ground arith))
one_mul_floor_num (negsuc p) d low high = absurd (ground arith)

quarter_add_half_Rat :
    (a b : ℕ)
    → 0 < b
    → 4 * a ≤ b
    → lt_Rat (add_Rat (div_Rat (of_ℤ (pos a)) (of_ℤ (pos b))) (ratio 5 10)) (ratio 1 1) ≡ true
unfolding ◌+ℤ◌
quarter_add_half_Rat a zero h k = elim h [ ]
quarter_add_half_Rat a (suc b) h k = ground arith

add_half_Rat :
    (a b : ℕ)
    → 0 < b
    → lt_Rat (add_Rat (div_Rat (of_ℤ (pos a)) (of_ℤ (pos b))) (ratio 5 10)) (ratio 5 10) ≡ false
unfolding ◌+ℤ◌
add_half_Rat a zero h = elim h [ ]
add_half_Rat a (suc b) h = ground arith

below_next : (x d : ℕ) → x < (x / suc d + 2) * suc d
below_next x d = omega arith

percent_Rat :
    (a b : ℕ)
    → 0 < b
    → (m : ℕ) × (trunc (mul_Rat (div_Rat (of_ℤ (pos a)) (of_ℤ (pos b))) (of_ℤ (pos 100))) ≡ pos m)
      × (m * b ≤ 100 * a)
      × (100 * a < (m + 2) * b)
percent_Rat a zero h = elim h [ ]
percent_Rat a (suc b) h = (
  100 * a / suc b,
  ap pos (ap₂ ◌/◌ (omega arith) (omega arith)),
  div-mul-le_self (100 * a) (suc b),
  below_next (100 * a) b,
)

ratio_lt : (m n p q : ℕ) → 0 < n → 0 < q → p * n ≤ m * q → lt_Rat (ratio m n) (ratio p q) ≡ false
ratio_lt m zero p q h k l = elim h [ ]
ratio_lt m (suc n) p zero h k l = elim k [ ]
ratio_lt m (suc n) p (suc q) h k l = ground arith

lt_trans_one_num :
    (p : ℤ) (d : ℕ)
    → lt_Rat (record { num = p; less = d }) (ratio 1 1) ≡ true
    → lt_Rat (ratio 125 100) (record { num = p; less = d }) ≡ false
lt_trans_one_num (pos p) d h = ground arith
lt_trans_one_num (negsuc p) d h = ground arith

pub rational-IsIeee : IsIeee rational
rational-IsIeee = record {
  IsNumber = λ r. Unit;
  number_div = λ a b h. tt;
  number_add_half = λ x h. tt;
  number_sub_half = λ x h. tt;
  number_decimal = λ m n h. tt;
  div_trunc = λ a b ha h hb. div_trunc_Rat a b h;
  percent = λ a b h k small. percent_Rat a b k;
  mul_floor = λ n r h k low high. mul_floor_Rat n r low high;
  one_mul_floor = λ r h low high. one_mul_floor_num r.num r.less low high;
  quarter_add_half = quarter_add_half_Rat;
  add_half = add_half_Rat;
  decimal_lt = ratio_lt;
  lt_trans_one = λ r h k. lt_trans_one_num r.num r.less k;
}
