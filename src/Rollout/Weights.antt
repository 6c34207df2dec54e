-- ===== src/Rollout/Weights.antt =====
-- The numbers of modules/service/controllers/rollout/controller.go: the initial weights, and the
-- next weight of a revision on its way to its goal.
use rio.Prelude.{ℕ, zero, suc, Bool, ◌&&◌, ◌||◌, List, [], ◌∷◌, length, if◌then◌else◌}
use rio.Prelude.Int.{ℤ, pos, ltb_ℤ, add64, sub64}
use rio.Api.Service.{Service}
use rio.Services.Weight.{promote_weight}
use rio.Float.Defs.{Float64}

-- `-v` in 64 bits.
unfoldable pub neg64 : ℤ → ℤ
unfolding sub64
neg64 v = sub64 (pos 0) v

unfoldable pub abs : ℤ → ℤ
unfolding neg64
abs v = if ltb_ℤ v (pos 0) then neg64 v else v

-- The loop that balances new services: `left` services are to come, of which the last takes
-- what is left.
unfoldable pub weights_from : ℤ → ℤ → ℕ → List ℤ
weights_from add added zero = []
weights_from add added (suc zero) = sub64 promote_weight added ∷ []
weights_from add added (suc (suc left)) = add ∷ weights_from add (add64 added add) (suc left)

module _ (f : Float64) where
  open f use {F, of_int, decimal, add, sub, mul, div, lt, floor, to_int}

  -- The rate before it is clamped.
  unfoldable pub raw_rate : ℤ → ℤ → F
  raw_rate goal_weight curr_weight =
      let diff = div (of_int curr_weight) (of_int goal_weight) in
      if ltb_ℤ goal_weight curr_weight then sub diff (decimal 5 10) else add diff (decimal 5 10)

  unfoldable pub clamp : F → F
  clamp rate =
      let capped = if lt (decimal 125 100) rate then decimal 125 100 else rate in
      if lt capped (decimal 5 10) then decimal 5 10 else capped

  unfoldable pub increment_flux : ℤ → ℤ → ℤ → ℤ
  increment_flux increment goal_weight curr_weight =
      let curr = if ltb_ℤ curr_weight (pos 1) then pos 1 else curr_weight in
      if ltb_ℤ goal_weight (pos 100)
      then increment
      else to_int (floor (mul (of_int increment) (clamp (raw_rate goal_weight curr))))

  -- The new computed weight of a revision in an incremental rollout.
  unfoldable pub next_weight : ℤ → ℤ → ℤ → Bool → ℤ
  next_weight increment goal computed_weight others_off =
      let weight_to_adjust = sub64 goal computed_weight in
      let flux = increment_flux increment goal computed_weight in
      let one_increment = if ltb_ℤ weight_to_adjust (pos 0) then neg64 flux else flux in
      if ltb_ℤ (abs weight_to_adjust) increment || (ltb_ℤ (pos 0) weight_to_adjust && others_off)
      then add64 computed_weight weight_to_adjust
      else add64 computed_weight one_increment

  unfoldable pub initial_weights : List Service → List ℤ
  initial_weights svcs =
      let add = to_int (div (of_int promote_weight) (of_int (pos (length svcs)))) in
      weights_from add (pos 0) (length svcs)
