-- ===== src/Tests/Promotions.antt =====
-- The command that sets the weight of a service.
use rio.Prelude.{
  str, text_eq, text_eq_refl, is_cons, ◌≡◌, refl, true, false, none, some, List, [], ◌∷◌, map, inl,
  inr, trim_suffix,
}
use rio.Prelude.Int.{pos}
use rio.Prelude.Unique.{Distinct}
use rio.Api.Service.{Service}
use rio.Services.{app_and_version}
use rio.WeightCommand.{Promotion, list_app_services, promote_service, validate_arg}
use rio.WeightCommand.Laws.{promoted, promote_service-eq}
use rio.Strconv.{atoi, read_digits}
use rio.Tests.Data.{plain}
use rio.Tests.Forms.{split_first}

-- Two revisions of an app, of which the first one receives traffic.
abbrev v1 : Service
v1 = record plain { status = record plain.status { computed_weight = some (pos 10000) } }

abbrev v2 : Service
v2 = record plain { name = str "web-v2"; spec = record plain.spec { version = str "v2" } }

abbrev services : List Service
services = v1 ∷ v2 ∷ []

abbrev promotion : Promotion
promotion = record {
  app = str "web";
  version = str "v2";
  weight = pos 10000;
  rollout_config = some (record { increment = pos 0; interval_seconds = pos 4; pause = false });
}

services-differ : text_eq (str "web-v1") (str "web-v2") ≡ false
unfolding str text_eq
services-differ = refl

services-Distinct : Distinct (map (λ (t : Service). t.name) services)
services-Distinct = (
  λ m. elim m [ inl e ↦ cc (e, services-differ, text_eq_refl (str "web-v2")) | inr never ↦ never ],
  (λ m. m, tt),
)

listed : is_cons (list_app_services (str "web") services) ≡ true
unfolding list_app_services app_and_version str text_eq
listed = refl

promote_service-eq_example :
    promote_service (λ s. true) promotion services ≡ (map (promoted promotion) services, true)
promote_service-eq_example =
    promote_service-eq (λ s. true) promotion services (λ s. refl) services-Distinct listed

-- A weight of more than 100 percent is refused.
too_heavy : validate_arg split_first (str "web=101%") ≡ none
unfolding validate_arg str text_eq trim_suffix atoi read_digits
too_heavy = refl
