-- ===== src/Services.antt =====
-- pkg/services/service.go: the name, version and containers of a service.
pub mod Weight
use rio.Prelude.{
  is_some, Text, length, is_empty, ℕ, zero, suc, Bool, false, not, ◌||◌, Option, none, some, List,
  [], ◌∷◌, ◌++◌, if◌then◌else◌, ltb,
}
use rio.Prelude.Int.{ℤ, eqb_ℤ}
use rio.Api.Service.{Service, Container, NamedContainer}

-- `s[:8]` of a string that is long enough.
pub take : ℕ → Text → Text
take zero s = []
take (suc n) [] = []
take (suc n) (c ∷ s) = c ∷ take n s

unfoldable pub app_and_version : Service → Text × Text
unfolding take
app_and_version service =
    let app = if is_empty service.spec.app then service.name else service.spec.app in
    let short = if ltb (length service.uid) 8 then service.uid else take 8 service.uid in
    let version = if is_empty service.spec.version then short else service.spec.version in
    (app, version)

unfoldable pub root_container_name : Service → Text
root_container_name service = service.name

unfoldable pub container_is_valid : Container → Bool
container_is_valid container = not (is_empty container.image) || is_some container.image_build

unfoldable pub to_named_containers : Service → List NamedContainer
unfolding root_container_name container_is_valid
to_named_containers service =
    let root : NamedContainer = record {
      name = root_container_name service;
      init = false;
      container = service.spec.container;
    } in
    (if container_is_valid service.spec.container then root ∷ [] else []) ++ service.spec.sidecars

abbrev differ : Option ℤ → Option ℤ → Bool
differ (some lo) (some hi) = not (eqb_ℤ lo hi)
differ _ _ = false

unfoldable pub autoscale_enable : Service → Bool
autoscale_enable service = elim service.spec.autoscale [
  | some config ↦ differ config.min_replicas config.max_replicas
  | none ↦ false
]
