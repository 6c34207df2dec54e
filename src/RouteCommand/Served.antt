-- ===== src/RouteCommand/Served.antt =====
-- What the virtual services of a router make of a route that the command of
-- cli/cmd/route/append.go builds with the flag --https-redirect.
use rio.Prelude.{Text, Bool, true, Option, none, some, List, []}
use rio.Api.Router.{Router, RouteSpec, Redirect}
use rio.VsFactory.Gloo.{Route}
use rio.VsFactory.Router.{route_to_route}
use rio.RouteCommand.{Add, Splits}

-- The route that is built for the virtual service, where the command builds one.
abbrev pub served : (List Text → Text) → Text → Option RouteSpec → Option Route
served join namespace spec = elim spec [
  | none ↦ none
  | some found ↦ some (route_to_route join namespace found)
]

module _ (splits : Splits) (a : Add) where
  abbrev pub with_flag : Bool → Add
  with_flag flag = record a { https_redirect = flag }

  abbrev pub to_https : Redirect
  to_https = record { host = []; path = []; to_https = true }
