-- ===== src/RouteCommand/Laws.antt =====
-- The routes that the command of cli/cmd/route/append.go builds.
use rio.Prelude.{
  Text, is_cons, ◌≡◌, refl, ◌||◌, none, some, List, [], ◌∷◌, if◌then◌else◌, arith, Option-cases,
  inl, inr,
}
use rio.Api.Router.{RouteSpec, NameValue, WeightedDestination}
use rio.RouteCommand.{
  Add, Splits, zero_spec, completed, parse_action, add_to, add_mirror, add_rewrite, add_fault,
  add_timeout, add_retry, add_match, add_redirect, add_headers, string_to_name_value,
  parse_destinations, build_route_spec,
}

module _ (splits : Splits) (a : Add) where
  completed-headers :
      (action target : Text) (dests : List WeightedDestination) (spec : RouteSpec)
      → (completed splits a action target dests spec).headers ≡ (add_headers splits a spec).headers
  unfolding add_to add_mirror add_rewrite add_fault add_timeout add_retry add_redirect
  completed-headers action target [] spec = refl
  completed-headers action target (d ∷ dests) spec = refl

  string_to_name_value-eq :
      (values : List Text) (r : List NameValue) → string_to_name_value splits values r ≡ r
  unfolding string_to_name_value
  string_to_name_value-eq [] r = refl
  string_to_name_value-eq (v ∷ values) r = string_to_name_value-eq values r

  add_headers-eq :
      (spec : RouteSpec)
      → spec.headers ≡ none
      → (add_headers splits a spec).headers ≡ (
          if is_cons a.add_header || is_cons a.set_header || is_cons a.remove_header
          then some (record { add = []; set = []; remove = a.remove_header })
          else none)
  unfolding add_headers
  add_headers-eq spec h =
      rw (string_to_name_value-eq a.add_header [], string_to_name_value-eq a.set_header [], h) refl

  add_match-headers :
      (host : Text) (spec matched : RouteSpec)
      → add_match splits a host spec ≡ some matched
      → matched.headers ≡ spec.headers
  unfolding add_match
  add_match-headers host spec matched h = ground arith

-- A route that the command builds has header operations if the user gives headers to add, to set
-- or to remove, but only those to remove are among them.
pub build_route_spec-headers :
    (splits : Splits) (a : Add) (host action target : Text) (more : List Text) (spec : RouteSpec)
    → build_route_spec splits a host action target more ≡ some spec
    → spec.headers ≡ (
        if is_cons a.add_header || is_cons a.set_header || is_cons a.remove_header
        then some (record { add = []; set = []; remove = a.remove_header })
        else none)
unfolding build_route_spec parse_action
build_route_spec-headers splits a host action target more spec h =
    elim (Option-cases (parse_destinations splits (target ∷ more))) [
      | inl bad ↦ ground (arith, bad)
      | inr (dests, parsed) ↦ elim (Option-cases (add_match splits a host zero_spec)) [
        | inl bad ↦ ground (arith, parsed, bad)
        | inr (matched, found) ↦ ground (
          arith,
          completed-headers splits a action target dests matched,
          add_headers-eq splits a matched (add_match-headers splits a host zero_spec matched found),
        )
      ]
    ]
