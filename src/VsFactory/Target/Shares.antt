-- ===== src/VsFactory/Target/Shares.antt =====
-- The shares of the traffic that the targets of an app get.
use rio.Prelude.{ℕ, ◌+◌, ◌*◌, ◌-◌, ◌^◌, ◌≤◌, ◌<◌, ◌≡◌, ap, ◌∙◌, arith, true, List, [], ◌∷◌}
use native.Mathlib.Nat.{le_of_mul-le-mul_right, add-mul}
use rio.Prelude.Int.{ℤ, pos, add64, add64-pos, sub64-pos}
use rio.Float.Defs.{Float64, IsIeee}
use rio.VsFactory.Target.{Target, percentage, percentages, spread, add_weights}

abbrev pub sum : List ℕ → ℕ
sum [] = 0
sum (n ∷ ns) = n + sum ns

-- The targets have these weights.
abbrev pub HaveWeights : List Target → List ℕ → Type 0
HaveWeights [] [] = Unit
HaveWeights (t ∷ targets) (n ∷ ns) = (t.weight ≡ pos n) × HaveWeights targets ns
HaveWeights _ _ = ⊥

-- Each share but the last is less than two points below the exact percentage and not above it; the
-- last is at least the exact one.
abbrev pub AreFair : ℕ → List ℕ → List ℕ → Type 0
AreFair total [] [] = Unit
AreFair total (n ∷ []) (m ∷ []) = 100 * n ≤ m * total
AreFair total (n ∷ o ∷ ns) (m ∷ ms) =
    (m * total ≤ 100 * n) × (100 * n < (m + 2) * total) × AreFair total (o ∷ ns) ms
AreFair total _ _ = ⊥

at_most_100 : (a b t : ℕ) → 0 < t → a * t ≤ 100 * b → b ≤ t → a ≤ 100
at_most_100 a b t h k l = le_of_mul-le-mul_right {k = t} (omega arith) h

rest_fair : (a b n t : ℕ) → a ≤ 100 → a * t ≤ 100 * b → b + (n + 0) ≡ t → 100 * n ≤ (100 - a) * t
rest_fair a b n t small h e = omega (arith, h, e, ap (λ s. s * t) (sum_100 a small))
  where
    sum_100 : (a : ℕ) → a ≤ 100 → a + (100 - a) ≡ 100
    sum_100 a h = omega arith

shares_grow : (a m b n t : ℕ) → a * t ≤ 100 * b → m * t ≤ 100 * n → (a + m) * t ≤ 100 * (b + n)
shares_grow a m b n t h k = omega (arith, add-mul a m t)

module _ (f : Float64) where
  percentage-percent :
      (w : ℤ) (n total m : ℕ)
      → w ≡ pos n
      → f.to_int (f.mul (f.div (f.of_int (pos n)) (f.of_int (pos total))) (f.of_int (pos 100)))
        ≡ pos m
      → percentage f w (pos total) ≡ pos m
  unfolding percentage
  percentage-percent w n total m e h = rw e h

  HaveWeights-cons :
      (t u : Target) (targets : List Target) (total added m : ℕ) (ms : List ℕ)
      → percentage f t.weight (pos total) ≡ pos m
      → added ≤ 100
      → m ≤ 100
      → HaveWeights (percentages f (pos total) (pos (added + m)) (u ∷ targets)) ms
      → HaveWeights (percentages f (pos total) (pos added) (t ∷ u ∷ targets)) (m ∷ ms)
  unfolding percentages
  HaveWeights-cons t u targets total added m ms e h k have =
      let next : add64 (pos added) (percentage f t.weight (pos total)) ≡ pos (added + m) =
        ap (add64 (pos added)) e ∙ add64-pos added m (omega arith) (omega arith) in
      (e, rw next have)

module _ (f : Float64) (ieee : IsIeee f) (total : ℕ) (h : 0 < total) (small : total < 2 ^ 40) where
  -- What the loop over the targets makes of them.
  IsSpread : List Target → List ℕ → ℕ → Type 0
  IsSpread targets ns added =
      (ms : List ℕ) × HaveWeights (percentages f (pos total) (pos added) targets) ms
      × (added + sum ms ≡ 100)
      × AreFair total ns ms

  IsSpread-cons :
      (t u : Target) (targets : List Target) (n o : ℕ) (ns : List ℕ) (added m : ℕ)
      → percentage f t.weight (pos total) ≡ pos m
      → added ≤ 100
      → m ≤ 100
      → m * total ≤ 100 * n
      → 100 * n < (m + 2) * total
      → IsSpread (u ∷ targets) (o ∷ ns) (added + m)
      → IsSpread (t ∷ u ∷ targets) (n ∷ o ∷ ns) added
  unfolding IsSpread
  IsSpread-cons t u targets n o ns added m e a b low high (ms, have, full, fair) = (
    m ∷ ms,
    HaveWeights-cons f t u targets total added m ms e a b have,
    omega (arith, full),
    (low, high, fair),
  )

  percentages-IsSpread :
      (targets : List Target) (n : ℕ) (ns : List ℕ) (added before : ℕ)
      → HaveWeights targets (n ∷ ns)
      → added * total ≤ 100 * before
      → before + sum (n ∷ ns) ≡ total
      → IsSpread targets (n ∷ ns) added
  unfolding IsSpread percentages
  percentages-IsSpread [] n ns added before e a s = elim e [ ]
  percentages-IsSpread (t ∷ []) n (o ∷ ns) added before e a s = elim e.1 [ ]
  percentages-IsSpread (t ∷ u ∷ targets) n [] added before e a s = elim e.1 [ ]
  percentages-IsSpread (t ∷ []) n [] added before e a s =
      let bound = at_most_100 added before total h a (omega (arith, s)) in
      (
        (100 - added) ∷ [],
        (sub64-pos 100 added (omega arith) bound, tt),
        omega (arith, bound),
        rest_fair added before n total bound a s,
      )
  percentages-IsSpread (t ∷ u ∷ targets) n (o ∷ ns) added before (e, es) a s =
      let (m, is_m, low, high) = ieee.percent n total (omega (arith, s)) h small in
      IsSpread-cons t u targets n o ns added m (percentage-percent f t.weight n total m e is_m)
        (at_most_100 added before total h a (omega (arith, s)))
        (at_most_100 m n total h low (omega (arith, s))) low high
        (percentages-IsSpread (u ∷ targets) o ns (added + m) (before + n) es
          (shares_grow added m before n total a low) (omega (arith, s)))

add_weights-sum :
    (targets : List Target) (ns : List ℕ) (total : ℕ)
    → HaveWeights targets ns
    → total + sum ns < 2 ^ 40
    → add_weights targets (pos total) ≡ pos (total + sum ns)
unfolding add_weights
add_weights-sum [] [] total e h = ap pos (omega arith)
add_weights-sum [] (n ∷ ns) total e h = elim e [ ]
add_weights-sum (t ∷ targets) [] total e h = elim e [ ]
add_weights-sum (t ∷ targets) (n ∷ ns) total (e, es) h =
    let next : add64 (pos total) t.weight ≡ pos (total + n) =
      ap (add64 (pos total)) e ∙ add64-pos total n (omega arith) (omega arith) in
    rw next (add_weights-sum targets ns (total + n) es (omega arith) ∙ ap pos (omega arith))

-- If the weights of the targets are not negative and add up to a number between 1 and 2 ^ 40, the
-- shares that replace them add up to 100, each but the last less than two points below the
-- exact percentage and not above it, and the last not below it.
pub spread-AreFair :
    (f : Float64) (targets : List Target) (ns : List ℕ)
    → IsIeee f
    → HaveWeights targets ns
    → 0 < sum ns
    → sum ns < 2 ^ 40
    → (ms : List ℕ) × HaveWeights (spread f true targets) ms
      × (sum ms ≡ 100)
      × AreFair (sum ns) ns ms
unfolding spread IsSpread
spread-AreFair f targets [] ieee e h small = elim h [ ]
spread-AreFair f targets (n ∷ ns) ieee e h small =
    let total : add_weights targets (pos 0) ≡ pos (n + sum ns) =
      add_weights-sum targets (n ∷ ns) 0 e (omega (arith, small)) ∙ ap pos (omega arith) in
    let (ms, have, full, fair) =
      percentages-IsSpread f ieee (n + sum ns) h small targets n ns 0 0 e (omega arith)
        (omega arith) in
    rw total (ms, have, omega (arith, full), fair)
