-- ===== src/Rdns/Reach.antt =====
-- The states of the handler of modules/rdns/controllers/service/handler.go that changes of the
-- config map lead to.
use rio.Prelude.{
  Text, text_eq, is_empty, ◌≡◌, refl, true, false, Option, none, some, Bool-cases, Option-cases,
  inl, inr, if-both,
}
use rio.Config.{Config, ConfigMap, from_config_map}
use rio.Rdns.{Handler, new_handler, set_gateway, set_ingress, on_config_map_change}
use rio.Rdns.Cluster.{Environment}

pub data IsReached (env : Environment) : Handler → Type 0 where
  at_start : IsReached env new_handler
  after_change :
      (key : Text) (cm : Option ConfigMap) (h : Handler)
      → IsReached env h
      → IsReached env (on_config_map_change env key cm h).0

-- A handler that knows a gateway or an ingress has begun to renew the domain.
pub record HasStarted (h : Handler) : Type 0 where
  pub gateway : is_empty h.gateway_name ≡ false → h.started ≡ true
  pub ingress : is_empty h.ingress_name ≡ false → h.started ≡ true

set_gateway-HasStarted :
    (config : Config) (h : Handler) → HasStarted h → HasStarted (set_gateway config h)
unfolding set_gateway
set_gateway-HasStarted config h s =
    if-both HasStarted _ _ _ s (record { gateway = λ e. refl; ingress = λ e. refl })

set_ingress-HasStarted :
    (config : Config) (h : Handler) → HasStarted h → HasStarted (set_ingress config h)
unfolding set_ingress
set_ingress-HasStarted config h s =
    if-both HasStarted _ _ _ s (record { gateway = λ e. refl; ingress = λ e. refl })

module _ (env : Environment) where
  change-HasStarted :
      (key : Text) (cm : Option ConfigMap) (h : Handler)
      → HasStarted h
      → HasStarted (on_config_map_change env key cm h).0
  unfolding on_config_map_change
  change-HasStarted key none h s = s
  change-HasStarted key (some cm) h s = elim (Bool-cases (text_eq env.config_key key)) [
    | inr other ↦ rw other s
    | inl same ↦ elim (Option-cases (from_config_map env.codec cm)) [
      | inl bad ↦ rw (same, bad) s
      | inr (config, read) ↦
          rw (same, read) (set_ingress-HasStarted config _ (set_gateway-HasStarted config h s))
    ]
  ]

  pub IsReached-HasStarted : (h : Handler) → IsReached env h → HasStarted h
  IsReached-HasStarted _ at_start = record {
    gateway = λ e. absurd (cc e);
    ingress = λ e. absurd (cc e);
  }
  IsReached-HasStarted _ (after_change key cm h r) =
      change-HasStarted key cm h (IsReached-HasStarted h r)
