-- ===== src/Tests/Apps.antt =====
-- The Kubernetes service of an app.
use rio.Prelude.{Text, str, text_eq, ◌≡◌, refl, All, Member, some, [], ◌∷◌}
use rio.Prelude.Maps.{lookup}
use rio.Services.{app_and_version}
use rio.Ports.{service_named_ports}
use rio.App.{
  KubeService, Request, Answer, Env, World, object_key, on_rio_service_change, ports_for_service,
}
use rio.App.Ports.{IsOrdered, names, ports_for_service-IsOrdered}
use rio.App.Handler.{request_for, on_rio_service_change-requests}
use rio.Tests.Data.{plain}

abbrev as_is : Text → Text
as_is t = t

abbrev env : Env
env = record {
  to_lower = as_is;
  services_by_app = λ key. some (plain ∷ []);
  answer = λ request. Answer.accepted;
}

abbrev web : KubeService
web = record {
  namespace = str "default";
  name = str "web";
  labels = [];
  selector = [];
  ports = ports_for_service as_is (plain ∷ []);
}

-- The cache has the service with the ports of the revision.
abbrev world : World
world = record { cache = (str "default/web", web) ∷ []; requests = [] }

ports_for_service-IsOrdered_example :
    IsOrdered (ports_for_service as_is (plain ∷ []))
    × All
        (λ rev.
          All
            (λ p. Member p.name (names (ports_for_service as_is (plain ∷ []))))
            (service_named_ports as_is rev))
        (plain ∷ [])
ports_for_service-IsOrdered_example = ports_for_service-IsOrdered as_is (plain ∷ [])

on_rio_service_change-requests_example :
    (on_rio_service_change env plain world).0.requests
    ≡ request_for env plain
        (plain ∷ [])
        (lookup (object_key (str "default") (app_and_version plain).0) world.cache)
      ∷ []
on_rio_service_change-requests_example =
    on_rio_service_change-requests env plain plain [] world refl

-- The update that changes nothing.
updates_again :
    request_for env plain
      (plain ∷ [])
      (lookup (object_key (str "default") (app_and_version plain).0) world.cache)
    ≡ Request.update web
unfolding app_and_version lookup str text_eq
updates_again = refl
