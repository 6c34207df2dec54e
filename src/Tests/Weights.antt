-- ===== src/Tests/Weights.antt =====
-- Weights and rollouts, over the exact rationals.
use rio.Prelude.{map, ℕ, ◌+◌, ◌*◌, ◌<◌, ◌≡◌, refl, arith, false, List, [], ◌∷◌}
use rio.Prelude.Int.{ℤ, pos, negsuc, dist, ◌+ℤ◌, ◌-ℤ◌, add64, sub64}
use rio.Api.Service.{Service}
use rio.Services.Weight.{ok, promote_weight, total_weight, calc_computed_weight, calc_increment}
use rio.Float.Rational.{rational, rational-IsIeee}
use rio.Rollout.{State, rollout_services, assign}
use rio.Rollout.Weights.{
  increment_flux, raw_rate, clamp, next_weight, initial_weights, weights_from, abs, neg64,
}
use rio.Rollout.Initial.{total_weight-initial_weights}
use rio.Rollout.Progress.{rounds, next_weight-closer, rounds_reach, rounds_stall}
use rio.Rollout.Frame.{erase, rollout_services-erase}
use rio.Tests.Data.{plain, rolling}

-- The cases of controller_test.go.
increment_flux_tests :
    (increment_flux rational (pos 10) (pos 100) (pos 0) ≡ pos 5)
    × (increment_flux rational (pos 10) (pos 100) (pos 50) ≡ pos 10)
    × (increment_flux rational (pos 10) (pos 100) (pos 90) ≡ pos 12)
    × (increment_flux rational (pos 10) (pos 100) (pos 1000) ≡ pos 12)
    × (increment_flux rational (pos 10) (pos 950) (pos 1000) ≡ pos 5)
unfolding increment_flux raw_rate clamp ◌+ℤ◌ ◌-ℤ◌
increment_flux_tests = (refl, refl, refl, refl, refl)

total_weight-initial_weights_example :
    total_weight
      (assign (initial_weights rational (plain ∷ plain ∷ plain ∷ [])) (plain ∷ plain ∷ plain ∷ []))
    ≡ promote_weight
total_weight-initial_weights_example =
    total_weight-initial_weights rational rational-IsIeee plain (plain ∷ plain ∷ []) (omega arith)

initial_weights_test :
    initial_weights rational (plain ∷ plain ∷ plain ∷ []) ≡ pos 3333 ∷ pos 3333 ∷ pos 3334 ∷ []
unfolding initial_weights weights_from add64 sub64
initial_weights_test = refl

next_weight-closer_example :
    dist (pos 1000) (next_weight rational (pos 10) (pos 1000) (pos 990) false)
    < dist (pos 1000) (pos 990)
next_weight-closer_example =
    next_weight-closer rational rational-IsIeee 10 1000 (pos 990) false (omega arith) (omega arith)
      (omega arith) (omega arith) refl

-- A round may pass the goal, here by 2.
passes_goal : next_weight rational (pos 10) (pos 1000) (pos 990) false ≡ pos 1002
unfolding next_weight abs neg64 increment_flux raw_rate clamp add64 sub64
passes_goal = refl

rounds_reach_example : rounds rational 10 100 (λ _. false) 300 (negsuc 99) ≡ pos 100
rounds_reach_example =
    rounds_reach rational rational-IsIeee 10 100 300 (negsuc 99) (λ _. false) (omega arith)
      (omega arith) (omega arith) (omega arith) (omega arith)

rounds_stall_example : rounds rational 1 10000 (λ _. false) 1000 (pos 0) ≡ pos 0
rounds_stall_example =
    rounds_stall rational rational-IsIeee 10000 0 1000 (omega arith) (omega arith) (omega arith)

-- The increment that eight hours for a promotion from 0 to 100 percent come to.
eight_hours :
    calc_increment rational (pos 28_800_000_000_000) (pos 100) (pos 10000) (pos 10000) ≡ ok (pos 1)
unfolding calc_increment calc_computed_weight add64 sub64 ◌+ℤ◌ ◌-ℤ◌
eight_hours = refl

abbrev start : State
start = record { last_write = []; readings = 0; queue = [] }

-- The n-th reading of the clock is n seconds after an instant long after the zero time.
abbrev clock : ℕ → ℤ
clock n = pos (1_000_000_000_000 + n * 1_000_000_000)

abbrev moving : Service
moving = rolling (pos 10) (pos 1000) (pos 500)

abbrev halves : List Service
halves = moving ∷ plain ∷ []

rollout_services-erase_example :
    map erase (rollout_services rational clock (λ s. false) start halves).svcs ≡ map erase halves
rollout_services-erase_example = rollout_services-erase rational clock (λ s. false) start halves
