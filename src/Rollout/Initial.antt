-- ===== src/Rollout/Initial.antt =====
-- The weights that new services start with.
use rio.Prelude.{
  ℕ, suc, ◌+◌, ◌-◌, ◌*◌, ◌/◌, ◌^◌, ◌≤◌, ◌<◌, ◌≡◌, arith, some, ap, ◌∙◌, List, [], ◌∷◌, length,
}
use rio.Prelude.Int.{pos, add64-pos, sub64-pos}
use rio.Api.Service.{Service}
use rio.Services.Weight.{promote_weight, counted, total_weight}
use rio.Float.Defs.{Float64, IsIeee}
use rio.Rollout.Weights.{weights_from, initial_weights}
use rio.Rollout.{assign, with_computed}

counted-pos : (w : ℕ) → counted (some (pos w)) ≡ pos w
counted-pos w = ground arith

total_weight-weights_from :
    (q a : ℕ) (s : Service) (svcs : List Service)
    → a + length (s ∷ svcs) * q ≤ 10000
    → total_weight (assign (weights_from (pos q) (pos a) (length (s ∷ svcs))) (s ∷ svcs))
      ≡ pos (10000 - a)
unfolding total_weight assign weights_from with_computed
total_weight-weights_from q a s [] h =
    rw (sub64-pos 10000 a (omega arith) (omega arith), counted-pos (10000 - a))
      (add64-pos (10000 - a) 0 (omega arith) (omega arith) ∙ ap pos (omega arith))
total_weight-weights_from q a s (t ∷ svcs) h =
    rw
      (
        add64-pos a q (omega arith) (omega arith),
        total_weight-weights_from q (a + q) t svcs (omega arith),
        counted-pos q,
      )
      (add64-pos q (10000 - (a + q)) (omega arith) (omega arith) ∙ ap pos (omega arith))

-- The weights that new services start with add up to the full weight, 10000, as the weights of
-- an app are added up when a rollout is planned.
pub total_weight-initial_weights :
    (f : Float64) (laws : IsIeee f) (s : Service) (svcs : List Service)
    → length (s ∷ svcs) < 2 ^ 53
    → total_weight (assign (initial_weights f (s ∷ svcs)) (s ∷ svcs)) ≡ promote_weight
unfolding initial_weights
total_weight-initial_weights f laws s svcs h =
    rw (laws.div_trunc 10000 (suc (length svcs)) (omega arith) (omega arith) h)
      (total_weight-weights_from (10000 / suc (length svcs)) 0 s svcs (omega arith))
