-- ===== src/Rollout/Progress.antt =====
-- The rounds of an incremental rollout of one revision: they reach the goal, or they do not move.
use rio.Prelude.{
  ℕ, zero, suc, ◌-◌, ◌+◌, ◌*◌, ◌/◌, ◌^◌, ◌≤◌, ◌<◌, ◌≡◌, refl, sym, arith, Bool, false, inl, inr,
  Bool-cases, if◌then◌else◌,
}
use rio.Prelude.Int.{
  ℤ, pos, negsuc, ltb_ℤ, eqb_ℤ, dist, Fits60, eq_of_eqb_ℤ, eq_of_parts, add64-pos, sub64-pos,
}
use rio.Float.Defs.{Float64, IsIeee}
use rio.Rollout.Weights.{abs, raw_rate, clamp, increment_flux, next_weight}
use rio.Rollout.Step.{next_weight_cases, at_least_one}

-- Rounds that are not early: `off i` says whether at round i all other revisions have no weight.
-- A revision at its goal is left alone.
unfoldable pub rounds : Float64 → ℕ → ℕ → (ℕ → Bool) → ℕ → ℤ → ℤ
rounds f n goal off zero c = c
rounds f n goal off (suc k) c =
    let rest = rounds f n goal off k (next_weight f (pos n) (pos goal) c (off k)) in
    if eqb_ℤ (pos goal) c then c else rest

Fits60-of_dist : (g : ℕ) (c : ℤ) → g < 2 ^ 50 → dist (pos g) c < 2 ^ 50 → Fits60 c
Fits60-of_dist g (pos m) h k = record { upper = omega arith; lower = omega arith }
Fits60-of_dist g (negsuc m) h k = record { upper = omega arith; lower = omega arith }

closer : (n d e m : ℕ) → 2 ≤ n → n / 2 ≤ m → 4 * m ≤ 5 * n → n ≤ d → e ≡ d - m + (m - d) → e < d
closer n d e m h low high apart whole = omega arith

abs-pos : (n : ℕ) → abs (pos n) ≡ pos n
unfolding abs
abs-pos n = ground arith

module _ (f : Float64) (laws : IsIeee f) where
  -- With an increment of at least 2, a round that is not early brings the weight of a revision
  -- strictly closer to its goal, from above and from below, even where it passes the goal.
  pub next_weight-closer :
      (n g : ℕ) (c : ℤ) (off : Bool)
      → 2 ≤ n
      → n < 2 ^ 50
      → g < 2 ^ 50
      → dist (pos g) c < 2 ^ 50
      → eqb_ℤ (pos g) c ≡ false
      → dist (pos g) (next_weight f (pos n) (pos g) c off) < dist (pos g) c
  next_weight-closer n g c off two hn hg hc away =
      elim (next_weight_cases f laws n g c off hn hg (Fits60-of_dist g c hg hc)) [
        | inl e ↦ rw e (ground arith)
        | inr (m, low, high, apart, whole) ↦
            closer n (dist (pos g) c) (dist (pos g) (next_weight f (pos n) (pos g) c off)) m two low
              high apart whole
      ]

  -- As many rounds as the weight is away from the goal, or more, reach the goal.
  pub rounds_reach :
      (n g k : ℕ) (c : ℤ) (off : ℕ → Bool)
      → 2 ≤ n
      → n < 2 ^ 50
      → g < 2 ^ 50
      → dist (pos g) c < 2 ^ 50
      → dist (pos g) c ≤ k
      → rounds f n g off k c ≡ pos g
  unfolding rounds
  rounds_reach n g zero c off two hn hg hc enough = eq_of_parts c (pos g) (omega arith)
  rounds_reach n g (suc k) c off two hn hg hc enough = elim (Bool-cases (eqb_ℤ (pos g) c)) [
    | inl there ↦ rw there (sym (eq_of_eqb_ℤ (pos g) c there))
    | inr away ↦
        let nearer = next_weight-closer n g c (off k) two hn hg hc away in
        rw away (
          rounds_reach n g k (next_weight f (pos n) (pos g) c (off k)) off two hn hg
            (omega (arith, nearer)) (omega (arith, nearer)))
  ]

  raw_rate_below :
      (g k : ℕ)
      → k ≤ g
      → raw_rate f (pos g) (pos k)
        ≡ f.add (f.div (f.of_int (pos k)) (f.of_int (pos g))) (f.decimal 5 10)
  unfolding raw_rate
  raw_rate_below g k h = ground arith

  clamp_inside :
      (r : f.F)
      → f.lt r (f.decimal 5 10) ≡ false
      → f.lt (f.decimal 125 100) r ≡ false
      → clamp f r ≡ r
  unfolding clamp
  clamp_inside r low high = rw (high, low)

  at_least_one_small :
      (g c : ℕ) → 100 ≤ g → 4 * c ≤ g → (k : ℕ) × (at_least_one (pos c) ≡ pos k) × (4 * k ≤ g)
  at_least_one_small g zero h low = (1, refl, omega arith)
  at_least_one_small g (suc c) h low = (suc c, ground arith, low)

  -- An increment of 1 is rounded down to 0 below a quarter of the goal.
  increment_flux_one :
      (g c : ℕ) → 100 ≤ g → 4 * c ≤ g → increment_flux f (pos 1) (pos g) (pos c) ≡ pos 0
  unfolding increment_flux
  increment_flux_one g c h low =
      let (k, e, quarter) = at_least_one_small g c h low in
      let rate : f.F = f.add (f.div (f.of_int (pos k)) (f.of_int (pos g))) (f.decimal 5 10) in
      let number : laws.IsNumber rate =
        laws.number_add_half _ (laws.number_div k g (omega arith)) in
      let below = laws.add_half k g (omega arith) in
      let above = laws.quarter_add_half k g (omega arith) quarter in
      let large : ltb_ℤ (pos g) (pos 100) ≡ false = ground arith in
      rw
        (
          large,
          e,
          raw_rate_below g k (omega arith),
          clamp_inside rate below (laws.lt_trans_one rate number above),
        )
        (laws.one_mul_floor rate number below above)

  next_weight_zero :
      (g c : ℕ)
      → 100 ≤ g
      → g < 2 ^ 50
      → 4 * c ≤ g
      → increment_flux f (pos 1) (pos g) (pos c) ≡ pos 0
      → next_weight f (pos 1) (pos g) (pos c) false ≡ pos c
  unfolding next_weight
  next_weight_zero g c h hg low flux = ground (
    arith,
    sub64-pos g c (omega arith) (omega arith),
    abs-pos (g - c),
    add64-pos c 0 (omega arith) (omega arith),
    add64-pos c 1 (omega arith) (omega arith),
  )

  -- With an increment of 1 and a goal of at least 100, a revision at no more than a quarter of its
  -- goal stays where it is, however many rounds pass, as long as another revision has weight.
  pub rounds_stall :
      (g c k : ℕ) → 100 ≤ g → g < 2 ^ 50 → 4 * c ≤ g → rounds f 1 g (λ _. false) k (pos c) ≡ pos c
  unfolding rounds
  rounds_stall g c zero h hg low = refl
  rounds_stall g c (suc k) h hg low =
      let stay : next_weight f (pos 1) (pos g) (pos c) false ≡ pos c =
        next_weight_zero g c h hg low (increment_flux_one g c h low) in
      rw stay (elim (Bool-cases (eqb_ℤ (pos g) (pos c))) [
        | inl there ↦ rw there
        | inr away ↦ rw away (rounds_stall g c k h hg low)
      ])
