-- ===== src/Tests/RouteCommands.antt =====
-- The command that adds a route, and its string matches.
use rio.Prelude.{
  Text, str, text_eq, is_empty, has_prefix, has_suffix, trim_suffix, split_on, ◌≡◌, refl, false,
  some, [], ◌∷◌, map, if◌then◌else◌,
}
use rio.Prelude.Int.{pos, to_uint32}
use rio.Prelude.Maps.{lookup}
use rio.Strconv.{atoi, read_digits}
use rio.Api.Router.{RouteSpec}
use rio.RouteCommand.{
  Add, Splits, zero_spec, parse_action, add_to, add_mirror, add_rewrite, add_fault, add_timeout,
  add_retry, add_match, add_redirect, add_headers, string_to_name_value, convert_header, path_match,
  parse_destination, parse_destinations, build_route_spec,
}
use rio.RouteCommand.Patterns.{
  is_regexp, behind_first, parse_string_match, string_match_string, matching, exactly, IsPlain,
  parse_string_match-string_match_string,
}
use rio.RouteCommand.Laws.{build_route_spec-headers}
use rio.Tests.Forms.{first_split}

abbrev pub last_part : Text × Text → Text × Text
last_part (a, b) = if is_empty b then ([], a) else (a, b)

abbrev pub splits : Splits
splits = record {
  split = first_split.split;
  r_split = λ s c. last_part (first_split.split s c);
  split_map = λ s c. map (λ part. first_split.split part b'=') (split_on c s);
}

-- A request for a header to add and one to remove, of the paths below /login.
abbrev pub flags : Add
flags = record {
  header = [];
  fault_percentage = pos 0;
  fault_delay_milli_seconds = pos 0;
  fault_http_code = pos 0;
  add_header = str "a=1" ∷ [];
  set_header = [];
  remove_header = str "b" ∷ [];
  retry_attempts = pos 0;
  retry_timeout_seconds = pos 0;
  timeout_seconds = pos 5;
  method = [];
  rewrite_host = [];
  rewrite_path = [];
  https_redirect = false;
}

abbrev pub added : RouteSpec
added = record zero_spec {
  match = record zero_spec.match { path = some (exactly (str "/login")) };
  to =
      record {
        destination = record { app = str "shop"; version = str "v2"; port = 8080 };
        weight = pos 20;
      }
      ∷ [];
  headers = some (record { add = []; set = []; remove = str "b" ∷ [] });
  timeout_seconds = some (pos 5);
}

added_lem :
    build_route_spec splits flags
      (str "web/login")
      (str "to")
      (str "shop@v2,weight=20%,port=8080")
      []
    ≡ some added
unfolding build_route_spec parse_action add_to add_mirror add_rewrite add_fault add_timeout
    add_retry add_match add_redirect add_headers string_to_name_value convert_header path_match
    parse_destination parse_destinations is_regexp behind_first parse_string_match str text_eq
    has_prefix has_suffix trim_suffix split_on lookup atoi read_digits to_uint32
added_lem = refl

build_route_spec-headers_example :
    added.headers ≡ some (record { add = []; set = []; remove = str "b" ∷ [] })
build_route_spec-headers_example =
    build_route_spec-headers splits flags (str "web/login") (str "to")
      (str "shop@v2,weight=20%,port=8080") [] added added_lem

parse_string_match-string_match_string_example :
    parse_string_match (string_match_string (matching (str "/a.*"))) ≡ matching (str "/a.*")
unfolding str
parse_string_match-string_match_string_example =
    parse_string_match-string_match_string (matching (str "/a.*"))
      (IsPlain.regexp_text (str "/a.*") refl)
