-- ===== src/WeightCommand.antt =====
-- cli/cmd/weight/weight.go and ListAppServicesFromAppName of cli/cmd/util/service.go: the command that
-- sets the weight of a service. The services of a namespace are the state; whether the API server
-- takes an update, kv.Split, time.ParseDuration and float64 are parameters.
pub mod Laws
use rio.Prelude.{
  Text, str, text_eq, ℕ, ◌==◌, is_empty, is_cons, any, trim_suffix, not, ◌&&◌, ◌||◌, Bool, true,
  false, Option, none, some, List, [], ◌∷◌, if◌then◌else◌,
}
use rio.Prelude.Int.{ℤ, pos, eqb_ℤ, ltb_ℤ}
use rio.Strconv.{atoi}
use rio.Api.Service.{Service, RolloutConfig}
use rio.Services.{app_and_version}
use rio.Services.Weight.{WeightResult, ok, generate_weight_and_rollout_config}
use rio.Float.Defs.{Float64}

unfoldable pub list_app_services : Text → List Service → List Service
list_app_services app_name [] = []
list_app_services app_name (rev ∷ svcs) =
    let revisions = list_app_services app_name svcs in
    if text_eq (app_and_version rev).0 app_name then rev ∷ revisions else revisions

-- `reflect.DeepEqual` of two rollout configurations that may be nil.
abbrev eqb_bool : Bool → Bool → Bool
eqb_bool true b = b
eqb_bool false b = not b

unfoldable pub deep_equal : Option RolloutConfig → Option RolloutConfig → Bool
deep_equal none none = true
deep_equal (some a) (some b) =
    eqb_ℤ a.increment b.increment
    && (eqb_ℤ a.interval_seconds b.interval_seconds && eqb_bool a.pause b.pause)
deep_equal _ _ = false

unfoldable pub promoted_svc_needs_update : Service → ℤ → Option RolloutConfig → Bool
unfolding deep_equal
promoted_svc_needs_update svc weight rc = elim svc.spec.weight [
  | none ↦ true
  | some w ↦ not (eqb_ℤ w weight) || not (deep_equal rc svc.spec.rollout_config)
]

-- The revision that is promoted, and what it gets.
pub record Promotion : Type 0 where
  pub app : Text
  pub version : Text
  pub weight : ℤ
  pub rollout_config : Option RolloutConfig

-- `s.Status.ComputedWeight != nil && *s.Status.ComputedWeight > 0`
abbrev pub is_positive : Option ℤ → Bool
is_positive none = false
is_positive (some w) = ltb_ℤ (pos 0) w

module _ (p : Promotion) where
  abbrev pub is_target : Service → Bool
  is_target s = text_eq (app_and_version s).1 p.version

  unfoldable pub needs_update : Service → Bool
  needs_update s =
      (is_target s && promoted_svc_needs_update s p.weight p.rollout_config)
      || (not (is_target s) && is_positive s.status.computed_weight)

  -- The function that `ctx.UpdateResource` is given for the revision that was listed.
  unfoldable pub updater : Service → Service → Service
  updater listed s = record s {
    spec = record s.spec {
      rollout_config = p.rollout_config;
      weight = some (if is_target listed then p.weight else pos 0);
    };
  }

-- The services, and whether there is no error.
abbrev pub Updated : Type 0
Updated = List Service × Bool

abbrev pub behind : Service → Updated → Updated
behind s (svcs, done) = (s ∷ svcs, done)

module _ (accepts : Service → Bool) where
  -- `ctx.UpdateResource` of a service by its name.
  unfoldable pub update_resource : Text → (Service → Service) → List Service → Updated
  update_resource name f [] = ([], false)
  update_resource name f (s ∷ svcs) =
      let rest = update_resource name f svcs in
      if text_eq s.name name
      then (if accepts (f s) then (f s ∷ svcs, true) else (s ∷ svcs, false))
      else behind s rest

  -- A round of the loop of `PromoteService`.
  unfoldable pub promote_one : Promotion → Service → List Service → Updated
  unfolding needs_update updater update_resource
  promote_one p rev svcs =
      if needs_update p rev then update_resource rev.name (updater p rev) svcs else (svcs, true)

  unfoldable pub promote_all : Promotion → List Service → List Service → Updated
  unfolding promote_one
  promote_all p [] svcs = (svcs, true)
  promote_all p (rev ∷ revs) svcs =
      let (once, ok_once) = promote_one p rev svcs in
      let (all, ok_all) = promote_all p revs once in (all, ok_once && ok_all)

  unfoldable pub promote_service : Promotion → List Service → Updated
  unfolding list_app_services promote_all
  promote_service p svcs =
      let revs = list_app_services p.app svcs in
      if is_cons revs then promote_all p revs svcs else (svcs, false)

-- `serviceName, scale`; none where there is an error.
unfoldable pub validate_arg : (Text → ℕ → Text × Text) → Text → Option (Text × ℤ)
validate_arg split arg =
    let (service_name, scale) = split arg b'=' in
    let scale_str = trim_suffix scale (str "%") in
    let (n, read) = atoi scale_str in
    if is_empty scale_str || not read || ltb_ℤ (pos 100) n then none else some (service_name, n)

-- What the command line finds for a name.
pub record Resource : Type 0 where
  pub app : Text
  pub version : Text
  pub service : Service

pub record Context : Type 0 where
  pub split : Text → ℕ → Text × Text
  pub parse_duration : Text → Option ℤ
  pub by_id : Text → Option Resource
  pub accepts : Service → Bool

abbrev has_percent : Text → Bool
has_percent arg = any (λ c. c == b'%') arg

module _ (f : Float64) (ctx : Context) where
  abbrev pub update_weight :
      ℤ → Resource → WeightResult (ℤ × RolloutConfig) → List Service → Updated
  update_weight target resource (ok (weight, config)) svcs =
      let p : Promotion = record {
        app = resource.app;
        version = resource.version;
        weight = weight;
        rollout_config = some config;
      } in
      let set : Service → Service = λ s. record s {
        spec = record s.spec { weight = some weight; rollout_config = some config };
      } in
      if eqb_ℤ target (pos 100)
      then promote_service ctx.accepts p svcs
      else update_resource ctx.accepts resource.service.name set svcs
  update_weight target resource _ svcs = (svcs, false)

  -- The flags are the duration and whether to pause.
  unfoldable pub run : Text → Bool → List Text → List Service → Updated
  run duration pause [] svcs = (svcs, false)
  run duration pause (arg ∷ args) svcs =
      let error : Updated = (svcs, false) in
      let started : Updated = elim (ctx.parse_duration duration) [
        | none ↦ error
        | some d ↦ elim (validate_arg ctx.split arg) [
          | none ↦ error
          | some (service_name, target) ↦ elim (ctx.by_id service_name) [
            | none ↦ error
            | some resource ↦
                update_weight target resource
                  (generate_weight_and_rollout_config f resource.service
                    (list_app_services resource.app svcs) target d pause)
                  svcs
          ]
        ]
      ] in
      if is_cons args && any has_percent (arg ∷ args) then error else started
