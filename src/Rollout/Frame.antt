-- ===== src/Rollout/Frame.antt =====
-- What the rollout handler leaves alone.
use rio.Prelude.{ℕ, ◌≡◌, refl, ap, arith, Bool, none, List, [], ◌∷◌, ◌++◌, map}
use mathlib.Core.List.{map-append, append_assoc, append-nil}
use rio.Prelude.Int.{ℤ}
use rio.Api.Service.{Service}
use rio.Float.Defs.{Float64}
use rio.Rollout.Weights.{initial_weights}
use rio.Rollout.{
  State, with_computed, assign, adjust, adjust_one, adjust_all, finish, rollout_services,
}

-- A service without its computed weight.
abbrev pub erase : Service → Service
erase s = record s { status = record s.status { computed_weight = none } }

module _ (f : Float64) (now : ℕ → ℤ) where
  erase-adjust_one :
      (st : State) (svcs : List Service) (s : Service)
      → erase (adjust_one f now st svcs s).0 ≡ erase s
  unfolding adjust_one adjust with_computed
  erase-adjust_one st svcs s = ground arith

  erase-adjust_all :
      (st : State) (before svcs : List Service)
      → map erase (adjust_all f now st before svcs).0 ≡ map erase (before ++ svcs)
  unfolding adjust_all
  erase-adjust_all st before [] = rw append-nil
  erase-adjust_all st before (s ∷ svcs) =
      let (s', updated, st') = adjust_one f now st (before ++ s ∷ svcs) s in
      simp (
        erase-adjust_all st' (before ++ s' ∷ []) svcs,
        map-append,
        append_assoc,
        erase-adjust_one st (before ++ s ∷ svcs) s,
      )

erase-assign : (ws : List ℤ) (svcs : List Service) → map erase (assign ws svcs) ≡ map erase svcs
unfolding assign with_computed
erase-assign [] svcs = refl
erase-assign (w ∷ ws) [] = refl
erase-assign (w ∷ ws) (s ∷ svcs) = ap (λ rest. erase s ∷ rest) (erase-assign ws svcs)

-- A round of the handler changes nothing of the app's services but their computed weights, neither
-- their number nor their order, whether it is blocked, fails to update or completes.
pub rollout_services-erase :
    (f : Float64) (now : ℕ → ℤ) (update_status : Service → Bool) (st : State) (svcs : List Service)
    → map erase (rollout_services f now update_status st svcs).svcs ≡ map erase svcs
unfolding rollout_services finish
rollout_services-erase f now update_status st svcs = ground (
  arith,
  erase-assign (initial_weights f svcs) svcs,
  erase-adjust_all f now st [] svcs,
  erase-adjust_all f now st [] (assign (initial_weights f svcs) svcs),
)
