-- ===== src/RouterHandler/Laws.antt =====
-- What modules/service/controllers/router generates after changes of config maps.
use rio.Prelude.{
  Text, text_eq, text_eq_iff, ◌≡◌, refl, ap, Option, none, some, List, [], ◌∷◌, arith,
  if◌then◌else◌, Option-cases, inl, inr,
}
use rio.Config.{Config, ConfigMap, Codec, from_config_map}
use rio.Api.Router.{Router}
use rio.Endpoints.{Resolver}
use rio.RouterHandler.{Handler, on_config_map, set_gateway, generate_router}

module _ (codec : Codec) (config_key : Text) where
  -- The changes, the last one in front.
  abbrev pub Changes : Type 0
  Changes = List (Text × Option ConfigMap)

  abbrev pub after : Changes → Handler → Handler
  after [] h = h
  after ((key, cm) ∷ earlier) h = (on_config_map codec config_key key cm (after earlier h)).handler

  -- The configuration of a change, if it can be read.
  abbrev pub config_of : Text → Option ConfigMap → Option Config
  config_of key cm =
      if text_eq key config_key
      then elim cm [ none ↦ none | some m ↦ from_config_map codec m ]
      else none

  -- The configuration that was read last.
  abbrev pub last_config : Changes → Option Config
  last_config [] = none
  last_config ((key, cm) ∷ earlier) = elim (config_of key cm) [
    | none ↦ last_config earlier
    | some config ↦ some config
  ]

abbrev pub gateway_of : Option Config → Handler → Handler
gateway_of none h = h
gateway_of (some config) h = record {
  gateway_name = config.gateway.service_name;
  gateway_namespace = config.gateway.service_namespace;
}

set_gateway-eq :
    (config : Config) (h : Handler) → (set_gateway config h).handler ≡ gateway_of (some config) h
unfolding set_gateway
set_gateway-eq config h = ground (
  arith,
  text_eq_iff h.gateway_name config.gateway.service_name,
  text_eq_iff h.gateway_namespace config.gateway.service_namespace,
)

module _ (codec : Codec) (config_key : Text) where
  on_config_map-eq :
      (key : Text) (cm : Option ConfigMap) (h : Handler)
      → (on_config_map codec config_key key cm h).handler
        ≡ gateway_of (config_of codec config_key key cm) h
  unfolding on_config_map
  on_config_map-eq key none h = ground arith
  on_config_map-eq key (some cm) h = elim (Option-cases (from_config_map codec cm)) [
    | inl bad ↦ ground (arith, bad)
    | inr (config, read) ↦ ground (arith, read, set_gateway-eq config h)
  ]

  after-eq :
      (changes : Changes codec config_key) (h : Handler)
      → after codec config_key changes h ≡ gateway_of (last_config codec config_key changes) h
  after-eq [] h = refl
  after-eq ((key, cm) ∷ earlier) h =
      ground (arith, on_config_map-eq key cm (after codec config_key earlier h), after-eq earlier h)

-- Whatever changes of config maps a handler has seen, it generates for a router what a handler does
-- that has the gateway of the last configuration that could be read, if there is one.
pub generate_router-last :
    (codec : Codec) (config_key : Text) (changes : Changes codec config_key) (resolver : Resolver)
    (h : Handler) (router : Router)
    → generate_router resolver (after codec config_key changes h) router
      ≡ generate_router resolver (gateway_of (last_config codec config_key changes) h) router
generate_router-last codec config_key changes resolver h router =
    ap (λ k. generate_router resolver k router) (after-eq codec config_key changes h)
