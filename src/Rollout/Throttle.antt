-- ===== src/Rollout/Throttle.antt =====
-- The interval between two moves of a revision.
use rio.Prelude.{ℕ, ◌+◌, ◌≡◌, Bool, true, List}
use rio.Prelude.Int.{ℤ}
use rio.Prelude.Maps.{insert}
use rio.Api.Service.{Service}
use rio.Float.Defs.{Float64}
use rio.Rollout.Weights.{next_weight}
use rio.Rollout.{
  State, service_key, incremental_rollout, or_zero, enqueue_service, increment_of,
  all_other_services_off,
}

module _ (f : Float64) (now : ℕ → ℤ) (st : State) (svcs : List Service) (s : Service) (goal : ℤ)
    (gradual : incremental_rollout s.spec.rollout_config ≡ true) where
  -- What a round that moves the revision leaves behind.
  moved_weight : ℤ
  moved_weight =
      next_weight f (increment_of s.spec.rollout_config) goal (or_zero s.status.computed_weight)
        (all_other_services_off s svcs)

  moved_state : State
  unfolding enqueue_service
  moved_state = enqueue_service s (record st {
    readings = st.readings + 2;
    last_write = insert (service_key s) (now (st.readings + 1)) st.last_write;
  })
