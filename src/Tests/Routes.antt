-- ===== src/Tests/Routes.antt =====
-- Routes of virtual services.
use rio.Prelude.{str, Text, ◌≡◌, refl, false, none, some, List, [], ◌∷◌}
use rio.Prelude.Int.{pos, mul64}
use rio.Api.Router.{RouteSpec, Redirect, Destination}
use rio.VsFactory.Router.Laws.{options_of}

abbrev pub first_of : List Text → Text
first_of [] = []
first_of (t ∷ more) = t

abbrev web : Destination
web = record { app = str "web"; version = str "v1"; port = 0 }

abbrev pub to_http : Redirect
to_http = record { host = str "example.org"; path = []; to_https = false }

-- A route that retries within a time limit and goes to one revision.
abbrev pub retried : RouteSpec
retried = record {
  match = record { path = none; methods = []; headers = [] };
  to = record { destination = web; weight = pos 0 } ∷ [];
  redirect = none;
  rewrite = some (record { host = str "internal"; path = [] });
  retry = some (record { timeout_seconds = pos 1; attempts = pos 3 });
  headers = none;
  fault = none;
  mirror = some web;
  timeout_seconds = some (pos 5);
}

-- The longer time limit of five seconds, in nanoseconds.
timeout_of_retried : (options_of retried).timeout ≡ some (pos 5_000_000_000)
unfolding mul64
timeout_of_retried = refl
