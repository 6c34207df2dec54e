-- ===== src/ServiceHandler.antt =====
-- modules/service/controllers/service/controller.go: the handler that generates the objects of a
-- service. The API server, the cache of claims and the architecture are parameters.
pub mod Laws
pub mod Features
use rio.Prelude.{
  Text, str, text_eq, is_empty, not, ◌&&◌, Bool, true, false, Option, none, some, List, [], ◌∷◌,
  if◌then◌else◌, any,
}
use rio.Prelude.Maps.{lookup, insert}
use rio.Api.Service.{Service, NamedContainer, ImageBuildSpec}
use rio.Kube.Workload.{Generated, access, kube_service, claim, deployment, stateful_set, daemon_set}
use rio.Services.{autoscale_enable, to_named_containers}
use rio.Config.{Config, ConfigMap, Codec, FeatureConfig, from_config_map, set_config, value_of}
use rio.Pod.Libraries.{Libraries, Range}
use rio.Workload.Populate.{populate_service}

-- A claim that is found has its annotations.
pub data ClaimLookup : Type 0 where
  found : List (Text × Text) → ClaimLookup
  not_found failed : ClaimLookup

pub record Environment : Type 0 where
  -- The config map rio-config, if it can be read.
  pub config_map : Option ConfigMap
  -- Whether the API server takes an update of it.
  pub update : ConfigMap → Bool
  pub codec : Codec
  pub is_amd64 : Bool
  pub claims : Text → Text → ClaimLookup

-- Claims are looked up by namespace and name.
unfoldable pub is_pvc_owned_by_service : List (Text × Text) → Service → Bool
is_pvc_owned_by_service annotations service =
    text_eq (value_of (str "objectset.rio.cattle.io/owner-gvk") annotations)
      (str "rio.cattle.io/v1, Kind=Service")
    && text_eq (value_of (str "objectset.rio.cattle.io/owner-name") annotations) service.name
    && text_eq (value_of (str "objectset.rio.cattle.io/owner-namespace") annotations)
        service.namespace

abbrev pub zero_feature : FeatureConfig
zero_feature = record { enabled = none; description = []; options = [] }

abbrev pub enabled_feature : Option FeatureConfig → FeatureConfig
enabled_feature none = record zero_feature { enabled = some true }
enabled_feature (some f) = record f { enabled = some true }

-- `f := conf.Features[name]; f.Enabled = &t; conf.Features[name] = f`
unfoldable pub enable : Text → Config → Config
enable name conf = record conf {
  features = insert name (enabled_feature (lookup name conf.features)) conf.features;
}

abbrev is_built : Option ImageBuildSpec → Bool
is_built none = false
is_built (some build) = not (is_empty build.repo)

abbrev pub builds : List NamedContainer → Bool
builds cs = any (λ c. is_built c.container.image_build) cs

-- Whether an update was sent, what was sent, and whether there was no error.
pub record Ensured : Type 0 where
  pub updates : List ConfigMap
  pub ok : Bool

pub data Outcome : Type 0 where
  failed skipped : Outcome
  generated : List Generated → Outcome

module _ (env : Environment) where
  -- The configuration with the features that the service needs.
  unfoldable pub with_features : Service → Config → Config
  unfolding enable
  with_features service conf =
      let scaling =
        if autoscale_enable service && env.is_amd64
        then enable (str "autoscaling") conf
        else conf in
      if builds (to_named_containers service) && env.is_amd64
      then enable (str "build") scaling
      else scaling

  abbrev pub send : Option ConfigMap → Ensured
  send none = record { updates = []; ok = false }
  send (some cm) = record { updates = cm ∷ []; ok = env.update cm }

  unfoldable pub ensure_features : Service → Ensured
  unfolding with_features
  ensure_features service =
      let error : Ensured = record { updates = []; ok = false } in
      elim env.config_map [
        | none ↦ error
        | some cm ↦ elim (from_config_map env.codec cm) [
          | none ↦ error
          | some conf ↦ send (set_config env.codec cm (with_features service conf))
        ]
      ]

  -- A claim is added if there is none of its name or the service owns it.
  unfoldable pub keeps : Service → Generated → Bool
  unfolding is_pvc_owned_by_service
  keeps service (claim c) = elim (env.claims c.meta.namespace c.meta.name) [
    | not_found ↦ true
    | found annotations ↦ is_pvc_owned_by_service annotations service
    | failed ↦ false
  ]
  keeps service (access o) = true
  keeps service (kube_service s) = true
  keeps service (deployment d) = true
  keeps service (stateful_set s) = true
  keeps service (daemon_set d) = true

  unfoldable pub kept : Service → List Generated → List Generated
  unfolding keeps
  kept service [] = []
  kept service (g ∷ gs) = let rest = kept service gs in if keeps service g then g ∷ rest else rest

  module _ (lib : Libraries) (range_keys : Range) (safe_concat_name : List Text → Text) where
    -- The status is returned as it is.
    unfoldable pub generate_service : Service → Outcome
    generate_service service =
        if not (ensure_features service).ok
        then Outcome.failed
        else if service.spec.template
        then skipped
        else generated (kept service (populate_service lib range_keys safe_concat_name service))
