-- ===== src/Rollout.antt =====
-- modules/service/controllers/rollout/controller.go: the controller that moves the weights of an
-- app's revisions to their goals. The service cache, the API client, the clock and float64 are
-- parameters. The services are shared with the cache, so the handler returns them as it left them.
pub mod Weights
pub mod Initial
pub mod Step
pub mod Progress
pub mod Throttle
pub mod Frame
use rio.Prelude.{
  Text, str, text_eq, is_empty, ℕ, ◌+◌, Bool, true, false, not, ◌&&◌, ◌||◌, Option, none, some,
  List, [], ◌∷◌, ◌++◌, any, if◌then◌else◌, is_cons,
}
use rio.Prelude.Int.{ℤ, pos, ltb_ℤ, eqb_ℤ, add64, sub64, mul64, ◌+ℤ◌}
use rio.Prelude.Maps.{lookup, insert}
use rio.Api.Service.{Service, RolloutConfig}
use rio.Services.{app_and_version}
use rio.Float.Defs.{Float64}
use rio.Rollout.Weights.{next_weight, initial_weights}

-- The handler's own state, the readings of the clock so far, and the calls of EnqueueAfter.
pub record State : Type 0 where
  pub last_write : List (Text × ℤ)
  pub readings : ℕ
  pub queue : List (Text × Text × ℤ)

unfoldable pub with_computed : Service → ℤ → Service
with_computed s w = record s { status = record s.status { computed_weight = some w } }

unfoldable pub service_key : Service → Text
service_key s = s.namespace ++ (str "-" ++ (s.spec.app ++ (str "-" ++ s.name)))

unfoldable pub blocks_rollout : Option RolloutConfig → Bool
blocks_rollout rc = elim rc [ none ↦ false | some config ↦ config.pause ]

unfoldable pub incremental_rollout : Option RolloutConfig → Bool
incremental_rollout rc = elim rc [
  | none ↦ false
  | some config ↦
      not (eqb_ℤ config.increment (pos 0)) && not (eqb_ℤ config.interval_seconds (pos 0))
]

abbrev pub is_set : Option ℤ → Bool
is_set none = false
is_set (some w) = true

-- `w != nil && *w > 0`
abbrev pub is_positive : Option ℤ → Bool
is_positive none = false
is_positive (some w) = ltb_ℤ (pos 0) w

unfoldable pub computed_weights_exist : List Service → Bool
computed_weights_exist svcs = any (λ (s : Service). is_set s.status.computed_weight) svcs

unfoldable pub all_other_services_off : Service → List Service → Bool
all_other_services_off curr svcs = not (
    any (λ (z : Service). not (text_eq z.name curr.name) && is_positive z.status.computed_weight)
      svcs)

unfoldable pub contains : List Text → Text → Bool
contains s e = any (λ a. text_eq a e) s

-- The weights that the first loop assigns, put on the services.
unfoldable pub assign : List ℤ → List Service → List Service
assign (w ∷ ws) (s ∷ svcs) = with_computed s w ∷ assign ws svcs
assign _ svcs = svcs

unfoldable pub keys : List Service → List Text
keys [] = []
keys (s ∷ svcs) = service_key s ∷ keys svcs

-- A paused revision, or one that has weight and is not ready.
unfoldable pub blocks : Service → Bool
unfolding blocks_rollout
blocks s =
    blocks_rollout s.spec.rollout_config
    || (not s.status.deployment_ready && is_positive s.spec.weight)

-- The revision is at its goal, or has none.
unfoldable pub settled : Option ℤ → Option ℤ → Bool
settled none computed = true
settled (some goal) none = eqb_ℤ goal (pos 0)
settled (some goal) (some computed) = eqb_ℤ goal computed

abbrev pub or_zero : Option ℤ → ℤ
or_zero none = pos 0
or_zero (some w) = w

-- Zero where there is no configuration; the code reads the fields only where there is one.
abbrev pub increment_of : Option RolloutConfig → ℤ
increment_of none = pos 0
increment_of (some config) = config.increment

-- time.Duration(IntervalSeconds) * time.Second
abbrev pub interval_of : Option RolloutConfig → ℤ
interval_of none = pos 0
interval_of (some config) = mul64 config.interval_seconds (pos 1_000_000_000)

-- `enqueueService`
unfoldable pub enqueue_service : Service → State → State
enqueue_service s st = record st {
  queue = st.queue ++ (s.namespace, s.name, interval_of s.spec.rollout_config) ∷ [];
}

-- The map's zero time is 0: an instant is the number of nanoseconds since then.
abbrev pub last_write_of : State → Text → ℤ
last_write_of st key = or_zero (lookup key st.last_write)

-- What the handler did: the services of the cache, the updates, the state, an error.
pub record Outcome : Type 0 where
  pub svcs : List Service
  pub written : List Service
  pub state : State
  pub good : Bool

unfoldable pub templates_out : List Service → List Service
templates_out [] = []
templates_out (s ∷ svcs) =
    let rest = templates_out svcs in if s.spec.template then rest else s ∷ rest

module _ (update_status : Service → Bool) where
  -- The services that were written, and whether all updates succeeded: the first error ends it.
  unfoldable pub update_services : List Service → List Text → List Service × Bool
  update_services [] needed = ([], true)
  update_services (s ∷ svcs) needed =
      let (written, good) = update_services svcs needed in
      if contains needed (service_key s)
      then (if update_status s then (s ∷ written, good) else ([], false))
      else (written, good)

  unfoldable pub finish : State → List Service → List Text → Outcome
  unfolding update_services
  finish st svcs needed =
      let (written, good) = update_services svcs needed in
      record { svcs = svcs; written = written; state = st; good = good }

module _ (f : Float64) (now : ℕ → ℤ) where
  -- The round of the second loop for a service that is to be moved: the service, whether it is to
  -- be updated, and the state. `svcs` are all services, as they are at this round.
  unfoldable pub adjust : State → List Service → Service → ℤ → Service × Bool × State
  unfolding enqueue_service
  adjust st svcs s goal =
      let computed = or_zero s.status.computed_weight in
      let key = service_key s in
      let early =
        ltb_ℤ (now st.readings) (last_write_of st key +ℤ interval_of s.spec.rollout_config) in
      let weight =
        next_weight f (increment_of s.spec.rollout_config) goal computed
          (all_other_services_off s svcs) in
      let waiting = enqueue_service s (record st { readings = st.readings + 1 }) in
      let written = enqueue_service s (record st {
        readings = st.readings + 2;
        last_write = insert key (now (st.readings + 1)) st.last_write;
      }) in
      if incremental_rollout s.spec.rollout_config
      then (if early
          then (with_computed s computed, false, waiting)
          else (with_computed s weight, true, written))
      else (with_computed s (add64 computed (sub64 goal computed)), true, st)

  unfoldable pub adjust_one : State → List Service → Service → Service × Bool × State
  unfolding adjust settled
  adjust_one st svcs s = elim s.spec.weight [
    | none ↦ (s, false, st)
    | some goal ↦
        if settled (some goal) s.status.computed_weight
        then (s, false, st)
        else adjust st svcs s goal
  ]

  -- The second loop: `before` are the services of the rounds that are over. Results: the services,
  -- the keys to update, the state.
  unfoldable pub adjust_all : State → List Service → List Service → List Service × List Text × State
  unfolding adjust_one
  adjust_all st before [] = (before, [], st)
  adjust_all st before (s ∷ svcs) =
      let (s', updated, st') = adjust_one st (before ++ s ∷ svcs) s in
      let (all, more, last) = adjust_all st' (before ++ s' ∷ []) svcs in
      (all, if updated then service_key s ∷ more else more, last)

  -- Both loops over the services that are no templates.
  unfoldable pub rollout_services : (Service → Bool) → State → List Service → Outcome
  unfolding adjust_all finish assign
  rollout_services update_status st svcs =
      let fresh = not (computed_weights_exist svcs) in
      let started = if fresh then assign (initial_weights f svcs) svcs else svcs in
      let needed = if fresh then keys svcs else [] in
      let (adjusted, moved, last) = adjust_all st [] started in
      if any blocks started
      then finish update_status st started needed
      else finish update_status last adjusted (needed ++ moved)

  -- The handler: `by_app` is the cache's index, with `none` for an error.
  unfoldable pub rollout :
      (Service → Bool) → (Text → Text → Option (List Service)) → State → Option Service → Outcome
  unfolding rollout_services templates_out
  rollout update_status by_app st svc =
      let idle : List Service → Bool → Outcome =
        λ svcs good. record { svcs = svcs; written = []; state = st; good = good } in
      elim svc [
        | none ↦ idle [] true
        | some s ↦
            let (app, version) = app_and_version s in
            if s.deleting
            then idle [] true
            else if is_empty app
            then idle [] false
            else elim (by_app s.namespace app) [
              | none ↦ idle [] false
              | some all_svcs ↦
                  let svcs = templates_out all_svcs in
                  if is_cons svcs then rollout_services update_status st svcs else idle svcs true
            ]
      ]
