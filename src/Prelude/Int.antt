-- ===== src/Prelude/Int.antt =====
-- Go's `int` (64 bits): integers over the native numbers, under the library's names (its ℤ stands
-- on the unary ℕ), with the wrap-around of 64 bits as a function of its own.
use rio.Prelude.Tests.{ltb, leb, ◌==◌, if◌then◌else◌}
use Prim.Native.Nat.{ℕ, suc, ◌+◌, ◌-◌, ◌*◌, ◌%◌, ◌^◌, ◌≤◌, ◌<◌}
use mathlib.Core.Path.{◌≡◌, ◌∙◌}
use mathlib.Core.Bool.{Bool, true}
use native.Mathlib.Omega.{arith}

-- `negsuc n` is -(n + 1).
pub data ℤ : Type 0 where
  pos : ℕ → ℤ
  negsuc : ℕ → ℤ

abbrev pub pos_part : ℤ → ℕ
pos_part (pos n) = n
pos_part (negsuc n) = 0

abbrev pub neg_part : ℤ → ℕ
neg_part (pos n) = 0
neg_part (negsuc n) = suc n

-- a - b, as an integer.
abbrev pub sub_ℕ : ℕ → ℕ → ℤ
sub_ℕ a b = if leb b a then pos (a - b) else negsuc (b - a - 1)

infixl 65 ◌+ℤ◌ ◌-ℤ◌
infix 50 ◌≤ℤ◌
unfoldable pub ◌+ℤ◌ : ℤ → ℤ → ℤ
a +ℤ b = sub_ℕ (pos_part a + pos_part b) (neg_part a + neg_part b)

unfoldable pub ◌-ℤ◌ : ℤ → ℤ → ℤ
a -ℤ b = sub_ℕ (pos_part a + neg_part b) (neg_part a + pos_part b)

unfoldable pub ◌*ℤ◌ : ℤ → ℤ → ℤ
◌*ℤ◌ a b =
    sub_ℕ (pos_part a * pos_part b + neg_part a * neg_part b)
      (pos_part a * neg_part b + neg_part a * pos_part b)

abbrev pub ◌≤ℤ◌ : ℤ → ℤ → Type 0
a ≤ℤ b = pos_part a + neg_part b ≤ pos_part b + neg_part a

abbrev pub ltb_ℤ : ℤ → ℤ → Bool
ltb_ℤ a b = ltb (pos_part a + neg_part b) (pos_part b + neg_part a)

abbrev pub eqb_ℤ : ℤ → ℤ → Bool
eqb_ℤ a b = (pos_part a + neg_part b) == (pos_part b + neg_part a)

pub eq_of_eqb_ℤ : (a b : ℤ) → eqb_ℤ a b ≡ true → a ≡ b
eq_of_eqb_ℤ a b h = ground arith

pub +ℤ_parts :
    (a b : ℤ)
    → pos_part (a +ℤ b) + neg_part a + neg_part b ≡ neg_part (a +ℤ b) + pos_part a + pos_part b
unfolding ◌+ℤ◌
+ℤ_parts a b = ground arith

pub -ℤ_parts :
    (a b : ℤ)
    → pos_part (a -ℤ b) + neg_part a + pos_part b ≡ neg_part (a -ℤ b) + pos_part a + neg_part b
unfolding ◌-ℤ◌
-ℤ_parts a b = ground arith

pub eq_of_parts : (a b : ℤ) → pos_part a + neg_part b ≡ pos_part b + neg_part a → a ≡ b
eq_of_parts a b h = ground arith

-- One of the two parts is 0.
pub one_part : (a : ℤ) → pos_part a * neg_part a ≡ 0
one_part (pos n) = omega arith
one_part (negsuc n) = omega arith

-- The bit pattern of `w` bits, read as a signed number: two's complement.
abbrev pub signed : ℕ → ℕ → ℤ
signed half r = if ltb r half then pos r else negsuc (half + half - r - 1)

-- Reduction of an exact result into `w` bits, for `half` = 2 ^ (w - 1).
unfoldable pub wrap : ℕ → ℤ → ℤ
wrap half (pos n) = signed half (n % (half + half))
wrap half (negsuc n) = signed half (half + half - 1 - n % (half + half))

abbrev pub half64 : ℕ
half64 = 2 ^ 63

unfoldable pub wrap64 : ℤ → ℤ
unfolding wrap
wrap64 = wrap half64

abbrev pub half32 : ℕ
half32 = 2 ^ 31

-- `int32(n)`
unfoldable pub to_int32 : ℤ → ℤ
unfolding wrap
to_int32 = wrap half32

-- Numbers of at most 62 bits, whose sums and differences fit in 64.
pub record Fits62 (a : ℤ) : Type 0 where
  pub upper : pos_part a < 2 ^ 62
  pub lower : neg_part a < 2 ^ 62

pub wrap64_of_small : (a : ℤ) → pos_part a < 2 ^ 63 → neg_part a < 2 ^ 63 → wrap64 a ≡ a
unfolding wrap64
wrap64_of_small (pos n) h k = ground arith
wrap64_of_small (negsuc n) h k = ground arith

-- Go's `+`, `-` and `*` on `int`.
unfoldable pub add64 : ℤ → ℤ → ℤ
unfolding wrap64 ◌+ℤ◌
add64 a b = wrap64 (a +ℤ b)

unfoldable pub sub64 : ℤ → ℤ → ℤ
unfolding wrap64 ◌-ℤ◌
sub64 a b = wrap64 (a -ℤ b)

unfoldable pub mul64 : ℤ → ℤ → ℤ
unfolding wrap64 ◌*ℤ◌
mul64 a b = wrap64 (◌*ℤ◌ a b)

pub +ℤ-small :
    (a b : ℤ) → Fits62 a → Fits62 b → (pos_part (a +ℤ b) < 2 ^ 63) × (neg_part (a +ℤ b) < 2 ^ 63)
unfolding ◌+ℤ◌
+ℤ-small a b ha hb = ground arith

pub -ℤ-small :
    (a b : ℤ) → Fits62 a → Fits62 b → (pos_part (a -ℤ b) < 2 ^ 63) × (neg_part (a -ℤ b) < 2 ^ 63)
unfolding ◌-ℤ◌
-ℤ-small a b ha hb = ground arith

pub add64-eq : (a b : ℤ) → Fits62 a → Fits62 b → add64 a b ≡ a +ℤ b
unfolding add64
add64-eq a b ha hb = let (p, n) = +ℤ-small a b ha hb in wrap64_of_small (a +ℤ b) p n

pub sub64-eq : (a b : ℤ) → Fits62 a → Fits62 b → sub64 a b ≡ a -ℤ b
unfolding sub64
sub64-eq a b ha hb = let (p, n) = -ℤ-small a b ha hb in wrap64_of_small (a -ℤ b) p n

-- The distance between two integers.
abbrev pub dist : ℤ → ℤ → ℕ
dist a b =
    (pos_part a + neg_part b - (pos_part b + neg_part a))
    + (pos_part b + neg_part a - (pos_part a + neg_part b))

-- Numbers whose differences have at most 62 bits.
pub record Fits60 (a : ℤ) : Type 0 where
  pub upper : pos_part a < 2 ^ 60
  pub lower : neg_part a < 2 ^ 60

pub Fits62-sub : (a b : ℤ) → Fits60 a → Fits60 b → Fits62 (a -ℤ b)
unfolding ◌-ℤ◌
Fits62-sub a b ha hb = record { upper = ground arith; lower = ground arith }

pub Fits62-of_Fits60 : {a : ℤ} → Fits60 a → Fits62 a
Fits62-of_Fits60 h = record { upper = omega (arith, h.upper); lower = omega (arith, h.lower) }

add-sub_cancel : (a b : ℤ) → b +ℤ (a -ℤ b) ≡ a
unfolding ◌+ℤ◌ ◌-ℤ◌
add-sub_cancel a b = ground arith

-- `b += a - b` sets b to a.
pub add64-sub64 : (a b : ℤ) → Fits60 a → Fits60 b → add64 b (sub64 a b) ≡ a
add64-sub64 a b ha hb =
    rw (sub64-eq a b (Fits62-of_Fits60 ha) (Fits62-of_Fits60 hb))
      (add64-eq b (a -ℤ b) (Fits62-of_Fits60 hb) (Fits62-sub a b ha hb) ∙ add-sub_cancel a b)

pub add64-pos : (a b : ℕ) → a < 2 ^ 60 → b < 2 ^ 60 → add64 (pos a) (pos b) ≡ pos (a + b)
unfolding add64
add64-pos a b ha hb = ground arith

pub sub64-pos : (a b : ℕ) → a < 2 ^ 60 → b ≤ a → sub64 (pos a) (pos b) ≡ pos (a - b)
unfolding sub64
sub64-pos a b ha hb = ground arith

-- `uint32(n)`
unfoldable pub to_uint32 : ℤ → ℕ
to_uint32 (pos n) = n % 2 ^ 32
to_uint32 (negsuc n) = 2 ^ 32 - 1 - n % 2 ^ 32
