-- ===== src/Services/Weight.antt =====
-- pkg/services/weight.go: the weight that a service should have to receive a percentage of the
-- traffic, and the rollout configuration that gets there. float64 is a parameter.
use rio.Prelude.{
  ℕ, ◌/◌, ◌%◌, suc, Bool, false, ◌||◌, Option, none, some, List, [], ◌∷◌, if◌then◌else◌,
}
use rio.Prelude.Int.{ℤ, pos, negsuc, ltb_ℤ, eqb_ℤ, add64, sub64, mul64, ◌-ℤ◌}
use rio.Api.Service.{Service, RolloutConfig}
use rio.Float.Defs.{Float64}

abbrev pub promote_weight : ℤ
promote_weight = pos 10000

abbrev pub default_interval : ℤ
default_interval = pos 4

-- The errors, and a value.
pub data WeightResult (A : Type 0) : Type 0 where
  ok : A → WeightResult A
  too_long at_target too_slow : WeightResult A

infixl 5 ◌>>=◌
abbrev ◌>>=◌ : {A B : Type 0} → WeightResult A → (A → WeightResult B) → WeightResult B
ok a >>= f = f a
too_long >>= f = too_long
at_target >>= f = at_target
too_slow >>= f = too_slow

-- Go's `/` and `%` of an int64 by a positive constant truncate toward zero.
unfoldable pub quot : ℤ → ℕ → ℤ
quot (pos n) k = pos (n / k)
quot (negsuc n) k = pos 0 -ℤ pos (suc n / k)

unfoldable pub rem : ℤ → ℕ → ℤ
rem (pos n) k = pos (n % k)
rem (negsuc n) k = pos 0 -ℤ pos (suc n % k)

-- A weight that counts: set and positive.
abbrev pub counted : Option ℤ → ℤ
counted none = pos 0
counted (some w) = if ltb_ℤ (pos 0) w then w else pos 0

-- `totalCurrWeight`
unfoldable pub total_weight : List Service → ℤ
total_weight [] = pos 0
total_weight (s ∷ svcs) = add64 (counted s.status.computed_weight) (total_weight svcs)

module _ (f : Float64) where
  open f use {F, of_int, decimal, add, sub, mul, div, lt, abs, round, floor, to_int}

  -- time.Duration's Seconds and Hours; a duration is a number of nanoseconds.
  unfoldable pub seconds : ℤ → F
  seconds d =
      add (of_int (quot d 1_000_000_000))
        (div (of_int (rem d 1_000_000_000)) (decimal 1_000_000_000 1))

  unfoldable pub hours : ℤ → F
  hours d =
      add (of_int (quot d 3_600_000_000_000))
        (div (of_int (rem d 3_600_000_000_000)) (decimal 3_600_000_000_000 1))

  unfoldable pub calc_weight_percentage : ℤ → ℤ → ℤ
  calc_weight_percentage weight total_weight =
      if eqb_ℤ total_weight (pos 0) || eqb_ℤ weight (pos 0)
      then pos 0
      else to_int (round (div (div (of_int weight) (of_int total_weight)) (decimal 1 100)))

  unfoldable pub calc_computed_weight : ℤ → ℤ → ℤ
  calc_computed_weight target_percentage total_curr_weight_other_svcs =
      if eqb_ℤ target_percentage (pos 100)
      then promote_weight
      else if ltb_ℤ (pos 0) total_curr_weight_other_svcs
      then sub64
          (to_int (
            div (of_int total_curr_weight_other_svcs)
              (sub (decimal 1 1) (div (of_int target_percentage) (decimal 100 1)))))
          total_curr_weight_other_svcs
      else target_percentage

  unfoldable pub calc_increment : ℤ → ℤ → ℤ → ℤ → WeightResult ℤ
  unfolding seconds quot rem
  calc_increment duration target_percentage total_curr_weight total_curr_weight_other_svcs =
      let rough = div (seconds duration) (of_int default_interval) in
      let steps = if lt rough (decimal 1 1) then decimal 1 1 else rough in
      let new_computed_weight =
        calc_computed_weight target_percentage total_curr_weight_other_svcs in
      let total_new_weight = add64 total_curr_weight_other_svcs new_computed_weight in
      let difference =
        if eqb_ℤ target_percentage (pos 100)
        then promote_weight
        else sub64 total_new_weight total_curr_weight in
      let increment = to_int (abs (round (div (of_int difference) steps))) in
      if eqb_ℤ difference (pos 0)
      then ok (pos 0)
      else if eqb_ℤ increment (pos 0)
      then too_slow
      else ok increment

  unfoldable pub generate_weight_and_rollout_config :
      Service → List Service → ℤ → ℤ → Bool → WeightResult (ℤ × RolloutConfig)
  unfolding hours seconds quot rem
  generate_weight_and_rollout_config svc svcs target_percentage duration pause =
      let unset : RolloutConfig = record {
        increment = pos 0;
        interval_seconds = pos 0;
        pause = false;
      } in
      let curr_computed_weight = counted svc.status.computed_weight in
      let total_curr_weight = total_weight svcs in
      let total_curr_weight_other_svcs = sub64 total_curr_weight curr_computed_weight in
      let new_computed_weight =
        calc_computed_weight target_percentage total_curr_weight_other_svcs in
      let increment : WeightResult ℤ =
        if lt (seconds duration) (decimal 2 1)
        then ok (pos 0)
        else calc_increment duration target_percentage total_curr_weight
            total_curr_weight_other_svcs in
      let config : ℤ → WeightResult (ℤ × RolloutConfig) = λ n. ok (
        new_computed_weight,
        record { increment = n; interval_seconds = default_interval; pause = pause },
      ) in
      if lt (decimal 10 1) (hours duration) then too_long else elim svcs [
        | [] ↦ ok (mul64 target_percentage (pos 100), unset)
        | _ ↦
            if eqb_ℤ target_percentage
              (calc_weight_percentage curr_computed_weight total_curr_weight)
            then at_target
            else increment >>= config
      ]
