-- ===== src/ServiceHandler/Features.antt =====
-- The features that ensureFeatures turns on.
use rio.Prelude.{Text, str, text_eq, ◌&&◌, ◌||◌, Bool}
use rio.Api.Service.{Service}
use rio.Services.{autoscale_enable, to_named_containers}
use rio.Config.{Config}
use rio.ServiceHandler.{Environment, builds}

module _ (env : Environment) (service : Service) where
  -- The service needs the feature.
  abbrev pub needs : Text → Bool
  needs k =
      (text_eq (str "autoscaling") k && (autoscale_enable service && env.is_amd64))
      || (text_eq (str "build") k && (builds (to_named_containers service) && env.is_amd64))
