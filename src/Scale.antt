-- ===== src/Scale.antt =====
-- modules/service/controllers/service/populate/podcontrollers/scale.go: how many replicas are asked
-- for. MaxSurge and MaxUnavailable are passed on as they are and are left out.
use rio.Prelude.{Option, none, some, if◌then◌else◌}
use rio.Prelude.Int.{ℤ, pos, ltb_ℤ, to_int32}
use rio.Api.Service.{Service}
use rio.Services.{autoscale_enable}

abbrev pub set_for_autoscale : Service → Option ℤ
set_for_autoscale service = elim service.status.computed_replicas [
  | none ↦ service.spec.replicas
  | some n ↦ if autoscale_enable service then some n else service.spec.replicas
]

-- `int32(*scale)`; a negative number leaves the scale alone.
unfoldable pub checked_scale : Option ℤ → Option ℤ
checked_scale none = none
checked_scale (some n) = if ltb_ℤ n (pos 0) then none else some (to_int32 n)

-- The scale of parseScaleParams.
unfoldable pub parse_scale : Service → Option ℤ
parse_scale service = checked_scale (set_for_autoscale service)
