-- ===== src/RouteCommand.antt =====
-- cli/cmd/route/append.go: the command that adds a route to a router. Functions of package kv of
-- wrangler, the lookup of the router and the order of a range are parameters; the messages of
-- errors are left out.
pub mod Patterns
pub mod Laws
pub mod Served
use rio.Prelude.{
  Text, str, text_eq, ℕ, ◌==◌, is_empty, is_cons, trim_suffix, Bool, true, false, not, ◌&&◌, ◌||◌,
  Option, none, some, List, [], ◌∷◌, ◌++◌, if◌then◌else◌,
}
use rio.Prelude.Int.{ℤ, pos, eqb_ℤ, ltb_ℤ, to_uint32}
use rio.Strconv.{atoi}
use rio.Config.{value_of}
use rio.Api.Router.{
  Router, RouteSpec, Match, StringMatch, HeaderMatch, HeaderOperations, NameValue, Redirect,
  WeightedDestination,
}
use rio.RouteCommand.Patterns.{is_regexp, parse_string_match}

-- The flags of the command; the map of headers is in the order in which it is ranged over.
pub record Add : Type 0 where
  pub header : List (Text × Text)
  pub fault_percentage : ℤ
  pub fault_delay_milli_seconds : ℤ
  pub fault_http_code : ℤ
  pub add_header : List Text
  pub set_header : List Text
  pub remove_header : List Text
  pub retry_attempts : ℤ
  pub retry_timeout_seconds : ℤ
  pub timeout_seconds : ℤ
  pub method : List Text
  pub rewrite_host : Text
  pub rewrite_path : Text
  pub https_redirect : Bool

-- `split s c` is kv.Split, `r_split s c` is kv.RSplit and `split_map s c` is kv.SplitMap, for
-- separators of one byte.
pub record Splits : Type 0 where
  pub split : Text → ℕ → Text × Text
  pub r_split : Text → ℕ → Text × Text
  pub split_map : Text → ℕ → List (Text × Text)

abbrev pub zero_match : Match
zero_match = record { path = none; methods = []; headers = [] }

abbrev pub zero_spec : RouteSpec
zero_spec = record {
  match = zero_match;
  to = [];
  redirect = none;
  rewrite = none;
  retry = none;
  headers = none;
  fault = none;
  mirror = none;
  timeout_seconds = none;
}

unfoldable pub parse_action : Text → Option Text
parse_action action =
    if text_eq action (str "to") || text_eq action (str "mirror") || text_eq action (str "redirect")
    then some action
    else none

unfoldable pub add_to : Text → List WeightedDestination → RouteSpec → RouteSpec
add_to action dests spec = record spec { to = if text_eq action (str "to") then dests else spec.to }

-- `dests[0]`: there is one.
unfoldable pub add_mirror : Text → List WeightedDestination → RouteSpec → RouteSpec
add_mirror action [] spec = spec
add_mirror action (first ∷ dests) spec = record spec {
  mirror = if text_eq action (str "mirror") then some first.destination else spec.mirror;
}

unfoldable pub add_rewrite : Add → RouteSpec → RouteSpec
add_rewrite a spec = record spec {
  rewrite =
      if not (is_empty a.rewrite_host) || not (is_empty a.rewrite_path)
      then some (record { path = a.rewrite_path; host = a.rewrite_host })
      else spec.rewrite;
}

unfoldable pub add_fault : Add → RouteSpec → RouteSpec
add_fault a spec = record spec {
  fault =
      if ltb_ℤ (pos 0) a.fault_percentage
      then some (record {
        percentage = a.fault_percentage;
        abort_http_status = a.fault_http_code;
        delay_millis = a.fault_delay_milli_seconds;
      })
      else spec.fault;
}

unfoldable pub add_timeout : Add → RouteSpec → RouteSpec
add_timeout a spec = record spec {
  timeout_seconds =
      if not (eqb_ℤ a.timeout_seconds (pos 0))
      then some a.timeout_seconds
      else spec.timeout_seconds;
}

unfoldable pub add_retry : Add → RouteSpec → RouteSpec
add_retry a spec = record spec {
  retry =
      if not (eqb_ℤ a.retry_attempts (pos 0)) || not (eqb_ℤ a.retry_timeout_seconds (pos 0))
      then some (record { timeout_seconds = a.retry_timeout_seconds; attempts = a.retry_attempts })
      else spec.retry;
}

unfoldable pub convert_header : List (Text × Text) → List HeaderMatch
convert_header [] = []
convert_header ((name, value) ∷ more) =
    record { name = name; value = some (parse_string_match value) } ∷ convert_header more

abbrev has_slash : Text → Bool
has_slash [] = false
has_slash (c ∷ s) = c == b'/'

-- The path of a match: the pattern of a regular expression gets a slash in front.
unfoldable pub path_match : Text → StringMatch
path_match path =
    let slashed = if not (is_regexp path) && not (has_slash path) then b'/' ∷ path else path in
    let match = parse_string_match slashed in
    if is_empty match.regexp then match else record match { regexp = b'/' ∷ match.regexp }

-- What the lookup of a router tells.
pub data RouterLookup : Type 0 where
  found : Router → RouterLookup
  not_found failed : RouterLookup

-- The request that the command ends with.
pub data Request : Type 0 where
  refused : Request
  created updated : Router → Request

abbrev pub insert_spec : Bool → RouteSpec → Router → Router
insert_spec insert spec router = record router {
  routes = if insert then spec ∷ router.routes else router.routes ++ (spec ∷ []);
}

abbrev pub new_router : Text → Text → Router
new_router namespace name = record {
  name = name;
  namespace = namespace;
  routes = [];
  internal = false;
  endpoints = [];
}

module _ (splits : Splits) where
  -- `addMatch`; none where the host is missing.
  unfoldable pub add_match : Add → Text → RouteSpec → Option RouteSpec
  unfolding path_match convert_header
  add_match a match_string spec =
      let (route_name, path) = splits.split match_string b'/' in
      let match : Match = record {
        path = if is_empty path then none else some (path_match path);
        methods = a.method;
        headers = convert_header a.header;
      } in
      if is_empty route_name
      then none
      else some (record spec {
        match =
            if not (is_empty path) || is_cons a.method || is_cons a.header
            then match
            else spec.match;
      })

  -- A round of the loop splits the text and stores nothing.
  unfoldable pub string_to_name_value : List Text → List NameValue → List NameValue
  string_to_name_value [] r = r
  string_to_name_value (v ∷ values) r =
      let (name, value) = splits.split v b'=' in
      let nv : NameValue = record { name = name; value = value } in string_to_name_value values r

  unfoldable pub add_headers : Add → RouteSpec → RouteSpec
  unfolding string_to_name_value
  add_headers a spec =
      let operations : HeaderOperations = record {
        add = string_to_name_value a.add_header [];
        set = string_to_name_value a.set_header [];
        remove = a.remove_header;
      } in
      record spec {
        headers =
            if is_cons a.add_header || is_cons a.set_header || is_cons a.remove_header
            then some operations
            else spec.headers;
      }

  -- The action overwrites what the flag sets.
  unfoldable pub add_redirect : Add → Text → Text → RouteSpec → RouteSpec
  add_redirect a action dest spec =
      let (host, path) = splits.split dest b'/' in
      let to_https : Redirect = record { host = []; path = []; to_https = true } in
      let elsewhere : Redirect = record {
        host = host;
        path = if is_empty path then [] else b'/' ∷ path;
        to_https = false;
      } in
      record spec {
        redirect =
            if text_eq action (str "redirect")
            then some elsewhere
            else if a.https_redirect
            then some to_https
            else spec.redirect;
      }

  abbrev pub with_weight : Text → WeightedDestination → Option WeightedDestination
  with_weight weight wd =
      let (n, ok) = atoi (trim_suffix weight (str "%")) in
      if is_empty weight then some wd else if ok then some (record wd { weight = n }) else none

  abbrev pub with_port : Text → WeightedDestination → Option WeightedDestination
  with_port port wd =
      let (n, ok) = atoi port in
      if is_empty port
      then some wd
      else if ok
      then some (record wd { destination = record wd.destination { port = to_uint32 n } })
      else none

  -- A round of the loop of `ParseDestinations`.
  unfoldable pub parse_destination : Text → Option WeightedDestination
  parse_destination target =
      let (name, opt_str) = splits.split target b',' in
      let opts = splits.split_map opt_str b',' in
      let (stack, rest) = splits.r_split name b':' in
      let (app, version) = splits.split rest b'@' in
      let wd : WeightedDestination = record {
        destination = record { app = app; version = version; port = 0 };
        weight = pos 0;
      } in
      elim (with_weight (value_of (str "weight") opts) wd) [
        | none ↦ none
        | some weighted ↦ with_port (value_of (str "port") opts) weighted
      ]

  unfoldable pub parse_destinations : List Text → Option (List WeightedDestination)
  parse_destinations [] = some []
  parse_destinations (target ∷ targets) =
      let rest = parse_destinations targets in
      elim (parse_destination target) [
        | none ↦ none
        | some wd ↦ elim rest [ none ↦ none | some wds ↦ some (wd ∷ wds) ]
      ]

  -- What is set behind the match, in the order of the calls.
  abbrev pub completed : Add → Text → Text → List WeightedDestination → RouteSpec → RouteSpec
  completed a action target dests matched = add_retry a (
      add_timeout a (
        add_to action dests (
          add_rewrite a (
            add_redirect a action target
              (add_mirror action dests (add_fault a (add_headers a matched)))))))

  -- For the arguments HOST[/PATH], the action, and the targets, of which there is one.
  unfoldable pub build_route_spec : Add → Text → Text → Text → List Text → Option RouteSpec
  build_route_spec a host action target more = elim (parse_action action) [
    | none ↦ none
    | some known ↦
        let built : Option RouteSpec = elim (parse_destinations (target ∷ more)) [
          | none ↦ none
          | some dests ↦ elim (add_match a host zero_spec) [
            | none ↦ none
            | some matched ↦ some (completed a known target dests matched)
          ]
        ] in
        if not (text_eq known (str "to")) && is_cons more then none else built
  ]

  -- `by_id` is the lookup of a router by its name, `namespace` the one that is set.
  unfoldable pub insert_route : (Text → RouterLookup) → Text → Bool → Add → List Text → Request
  insert_route by_id namespace insert a (host ∷ action ∷ target ∷ more) =
      let (hostname, path) = splits.split host b'/' in
      let request : Request = elim (build_route_spec a host action target more) [
        | none ↦ refused
        | some spec ↦ elim (by_id hostname) [
          | found router ↦ updated (insert_spec insert spec router)
          | not_found ↦ created (insert_spec insert spec (new_router namespace hostname))
          | failed ↦ refused
        ]
      ] in
      if is_empty hostname then refused else request
  insert_route by_id namespace insert a _ = refused
