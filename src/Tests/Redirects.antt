-- ===== src/Tests/Redirects.antt =====
-- A route with a redirect to HTTPS, from the command line to the virtual services.
use rio.Prelude.{some, [], ◌∷◌}
use rio.Api.Router.{Router, RouteSpec}
use rio.RouteCommand.Served.{to_https}
use rio.Tests.RouteCommands.{splits, flags, added}
use rio.Tests.VirtualServices.{shop}

abbrev secured : RouteSpec
secured = record added { redirect = some (to_https splits flags) }

abbrev secure_shop : Router
secure_shop = record shop { routes = secured ∷ [] }
