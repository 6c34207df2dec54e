-- ===== src/Rollout/Step.antt =====
-- One round of an incremental rollout, and the rounds that lead to the goal.
use rio.Prelude.{
  ℕ, ◌+◌, ◌-◌, ◌*◌, ◌/◌, ◌^◌, ◌≤◌, ◌<◌, ◌≡◌, refl, arith, Bool, true, false, Bool-cases, inl, inr,
  ◌⊎◌, ◌||◌, ◌&&◌, ltb, if◌then◌else◌,
}
use rio.Prelude.Int.{
  ℤ, pos, negsuc, ltb_ℤ, dist, add64, sub64, ◌+ℤ◌, ◌-ℤ◌, Fits60, add64-sub64, sub64-eq, add64-eq,
  Fits62-of_Fits60,
}
use rio.Float.Defs.{Float64, IsIeee}
use rio.Rollout.Weights.{neg64, abs, raw_rate, clamp, increment_flux, next_weight}

-- `m` more or less, in 64 bits.
add64_up : (c : ℤ) (m : ℕ) → Fits60 c → m < 2 ^ 60 → add64 c (pos m) ≡ c +ℤ pos m
add64_up c m h k =
    add64-eq c (pos m) (Fits62-of_Fits60 h) (record { upper = omega arith; lower = omega arith })

add64_down : (c : ℤ) (m : ℕ) → Fits60 c → m < 2 ^ 60 → add64 c (neg64 (pos m)) ≡ c -ℤ pos m
unfolding neg64 sub64 add64
add64_down c m h k = ground (arith, h.upper, h.lower)

-- The distance to `g` after a move by `m`, up or down.
dist-up :
    (g m : ℕ) (c : ℤ)
    → ltb_ℤ (pos g -ℤ c) (pos 0) ≡ false
    → dist (pos g) (c +ℤ pos m) ≡ dist (pos g) c - m + (m - dist (pos g) c)
unfolding ◌+ℤ◌ ◌-ℤ◌
dist-up g m c h = ground arith

dist-down :
    (g m : ℕ) (c : ℤ)
    → ltb_ℤ (pos g -ℤ c) (pos 0) ≡ true
    → dist (pos g) (c -ℤ pos m) ≡ dist (pos g) c - m + (m - dist (pos g) c)
unfolding ◌-ℤ◌
dist-down g m c h = ground arith

abs-sub : (g : ℕ) (c : ℤ) → g < 2 ^ 60 → Fits60 c → abs (pos g -ℤ c) ≡ pos (dist (pos g) c)
unfolding abs sub64 ◌-ℤ◌
abs-sub g c h k = ground (arith, k.upper, k.lower)

far_le : {n d : ℕ} {a : ℤ} (b : Bool) → (ltb_ℤ a (pos n) || b) ≡ false → a ≡ pos d → n ≤ d
far_le b far size = ground arith

abbrev pub at_least_one : ℤ → ℤ
at_least_one c = if ltb_ℤ c (pos 1) then pos 1 else c

at_least_one-pos : (c : ℤ) → (k : ℕ) × (at_least_one c ≡ pos k)
at_least_one-pos (pos n) = (if ltb n 1 then 1 else n, ground arith)
at_least_one-pos (negsuc n) = (1, ground arith)

module _ (f : Float64) (laws : IsIeee f) where
  open f use {F, of_int, decimal, add, sub, mul, div, lt, floor, to_int}

  raw_rate-number : (g c : ℕ) → 0 < g → laws.IsNumber (raw_rate f (pos g) (pos c))
  unfolding raw_rate
  raw_rate-number g c h = elim (Bool-cases (ltb_ℤ (pos g) (pos c))) [
    | inl e ↦ rw e (laws.number_sub_half _ (laws.number_div c g h))
    | inr e ↦ rw e (laws.number_add_half _ (laws.number_div c g h))
  ]

  clamp_bounds :
      (r : F)
      → laws.IsNumber r
      → laws.IsNumber (clamp f r)
        × (lt (clamp f r) (decimal 5 10) ≡ false)
        × (lt (decimal 125 100) (clamp f r) ≡ false)
  unfolding clamp
  clamp_bounds r h = elim (Bool-cases (lt (decimal 125 100) r)) [
    | inl above ↦
        rw (above, laws.decimal_lt 125 100 5 10 (omega arith) (omega arith) (omega arith))
          (
            laws.number_decimal 125 100 (omega arith),
            laws.decimal_lt 125 100 5 10 (omega arith) (omega arith) (omega arith),
            laws.decimal_lt 125 100 125 100 (omega arith) (omega arith) (omega arith),
          )
    | inr within ↦ rw within (elim (Bool-cases (lt r (decimal 5 10))) [
      | inl below ↦ rw below (
        laws.number_decimal 5 10 (omega arith),
        laws.decimal_lt 5 10 5 10 (omega arith) (omega arith) (omega arith),
        laws.decimal_lt 125 100 5 10 (omega arith) (omega arith) (omega arith),
      )
      | inr inside ↦ rw inside (h, inside, within)
    ])
  ]

  -- One increment lies between half the configured one and five fourths of it.
  increment_flux_bounds :
      (n g : ℕ) (c : ℤ)
      → n < 2 ^ 50
      → (m : ℕ) × (increment_flux f (pos n) (pos g) c ≡ pos m) × (n / 2 ≤ m) × (4 * m ≤ 5 * n)
  unfolding increment_flux
  increment_flux_bounds n g c h = elim (Bool-cases (ltb_ℤ (pos g) (pos 100))) [
    | inl small ↦ rw small (n, refl, omega arith, omega arith)
    | inr large ↦
        let (k, e) = at_least_one-pos c in
        let (number, low, high) =
          clamp_bounds (raw_rate f (pos g) (pos k)) (raw_rate-number g k (ground arith)) in
        rw (large, e) (laws.mul_floor n (clamp f (raw_rate f (pos g) (pos k))) h number low high)
  ]

  module _ (n g : ℕ) (c : ℤ) (off : Bool) (hn : n < 2 ^ 50) (hg : g < 2 ^ 50) (hc : Fits60 c) where
    goal-Fits60 : Fits60 (pos g)
    goal-Fits60 = record { upper = omega arith; lower = omega arith }

    -- A round reaches the goal, or moves by an increment `m` from at least the increment away.
    pub next_weight_cases :
        (next_weight f (pos n) (pos g) c off ≡ pos g)
        ⊎ ((m : ℕ) × (n / 2 ≤ m)
            × (4 * m ≤ 5 * n)
            × (n ≤ dist (pos g) c)
            × (dist (pos g) (next_weight f (pos n) (pos g) c off)
                ≡ dist (pos g) c - m + (m - dist (pos g) c)))
    unfolding next_weight
    next_weight_cases =
        let (m, flux, low, high) = increment_flux_bounds n g c hn in
        let whole = sub64-eq (pos g) c (Fits62-of_Fits60 goal-Fits60) (Fits62-of_Fits60 hc) in
        let size : abs (sub64 (pos g) c) ≡ pos (dist (pos g) c) =
          rw whole (abs-sub g c (omega arith) hc) in
        elim (Bool-cases
          (ltb_ℤ (abs (sub64 (pos g) c)) (pos n) || ltb_ℤ (pos 0) (sub64 (pos g) c) && off)) [
            | inl near ↦ inl (rw near (add64-sub64 (pos g) c goal-Fits60 hc))
            | inr far ↦
                let apart : n ≤ dist (pos g) c = far_le _ far size in
                elim (Bool-cases (ltb_ℤ (sub64 (pos g) c) (pos 0))) [
                  | inl down ↦ inr (
                    m,
                    low,
                    high,
                    apart,
                    rw (far, down, flux, add64_down c m hc (omega arith))
                        (dist-down g m c (rw whole at down)),
                  )
                  | inr up ↦ inr (
                    m,
                    low,
                    high,
                    apart,
                    rw (far, up, flux, add64_up c m hc (omega arith))
                        (dist-up g m c (rw whole at up)),
                  )
                ]
          ]
