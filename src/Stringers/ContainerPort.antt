-- ===== src/Stringers/ContainerPort.antt =====
-- pkg/riofile/stringers/exposed_ports.go: ports, printed and parsed. strings.ToLower and
-- strings.ToUpper are parameters.
pub mod Numbers
pub mod Printed
pub mod Laws
pub mod Bounds
use rio.Prelude.{
  Text, str, text_eq, is_empty, split_on, Bool, true, false, not, ◌&&◌, ◌||◌, Option, none, some,
  List, [], ◌∷◌, ◌++◌, if◌then◌else◌,
}
use rio.Prelude.Int.{ℤ, pos, eqb_ℤ, ltb_ℤ, to_int32}
use rio.Strconv.{format_int, atoi}
use rio.Api.Service.{ContainerPort, Protocol}
use rio.Ports.{normalize_container_port, protocol_text}
use rio.Stringers.Kv.{Kv}

abbrev pub keywords : Text → Bool
keywords k = text_eq k (str "hostport") || text_eq k (str "expose")

module _ (to_upper : Text → Text) where
  -- `unset` stands for the empty string.
  unfoldable pub normalize_protocol : Text → Protocol
  normalize_protocol proto =
      let upper = to_upper proto in
      if text_eq upper (str "TCP")
      then Protocol.tcp
      else if text_eq upper (str "UDP")
      then Protocol.udp
      else if text_eq upper (str "HTTP2")
      then Protocol.http2
      else if text_eq upper (str "SCTP")
      then Protocol.sctp
      else if text_eq upper (str "GRPC")
      then Protocol.grpc
      else if text_eq upper (str "HTTP")
      then Protocol.http
      else Protocol.unset

abbrev pub is_protocol_http : Protocol → Bool
is_protocol_http Protocol.http = true
is_protocol_http _ = false

-- A protocol that is printed: not HTTP.
abbrev pub is_printed : Protocol → Bool
is_printed Protocol.http = false
is_printed Protocol.unset = false
is_printed (Protocol.other s) = false
is_printed _ = true

unfoldable pub expose_string : Option Bool → Protocol → Text
expose_string none p = []
expose_string (some true) p = if is_protocol_http p then [] else str ",expose"
expose_string (some false) p = if is_protocol_http p then str ",internal" else []

unfoldable pub name_string : Text → Text
name_string name =
    if is_empty name then [] else if keywords name then str ",name=" ++ name else b',' ∷ name

abbrev pub or_80 : ℤ → ℤ
or_80 port = if ltb_ℤ (pos 0) port then port else pos 80

unfoldable pub numbers_string : ContainerPort → Text
numbers_string e =
    let port = or_80 e.port in
    format_int port
    ++ (if ltb_ℤ (pos 0) e.target_port && not (eqb_ℤ e.target_port port)
        then b':' ∷ format_int e.target_port
        else [])

module _ (to_lower : Text → Text) where
  unfoldable pub protocol_string : Protocol → Text
  unfolding protocol_text
  protocol_string p = if is_printed p then b'/' ∷ to_lower (protocol_text p) else []

module _ (to_lower to_upper : Text → Text) where
  unfoldable pub container_port_string : ContainerPort → Text
  unfolding expose_string name_string
  container_port_string p =
      let e = normalize_container_port p in
      let protocol = normalize_protocol to_upper (protocol_text e.protocol) in
      numbers_string e
      ++ (protocol_string to_lower protocol
          ++ (expose_string e.expose protocol
              ++ ((if e.host_port then str ",hostport" else []) ++ name_string e.name)))

-- A round of the loop over the options.
unfoldable pub apply_port_option : Text × Text → ContainerPort → ContainerPort
apply_port_option (k, v) result =
    if text_eq k (str "name")
    then record result { name = v }
    else if text_eq k (str "expose")
    then record result { expose = some (not (text_eq v (str "false"))) }
    else if text_eq k (str "internal")
    then record result { expose = some false }
    else if text_eq k (str "hostport")
    then record result { host_port = true }
    else record result { name = k }

unfoldable pub apply_port_options : List (Text × Text) → ContainerPort → ContainerPort
unfolding apply_port_option
apply_port_options [] result = result
apply_port_options (o ∷ options) result = apply_port_options options (apply_port_option o result)

abbrev pub zero_port : ContainerPort
zero_port = record {
  name = [];
  expose = none;
  protocol = Protocol.unset;
  port = pos 0;
  target_port = pos 0;
  host_port = false;
}

abbrev pub is_unset : Protocol → Bool
is_unset Protocol.unset = true
is_unset _ = false

-- The number that is read, if it is one.
unfoldable pub parse_number : Text → Option ℤ
parse_number s = let (n, ok) = atoi s in if ok then some (to_int32 n) else none

module _ (to_upper : Text → Text) (kv : Kv) where
  -- `privStr` behind the colon.
  unfoldable pub with_target : Text → ContainerPort → Option ContainerPort
  with_target s result =
      if is_empty s
      then some result
      else elim (parse_number s) [ none ↦ none | some n ↦ some (record result { target_port = n }) ]

  unfoldable pub with_numbers : Text → Text → ContainerPort → Option ContainerPort
  with_numbers ports proto result =
      let (public, private) = kv.split ports b':' in
      let protocol = normalize_protocol to_upper proto in
      elim (parse_number public) [
        | none ↦ none
        | some n ↦
            let numbered = record result { port = n; target_port = n; protocol = protocol } in
            if not (is_empty proto) && is_unset protocol then none else with_target private numbered
      ]

  abbrev pub parse_port_parts : List Text → Option ContainerPort
  parse_port_parts [] = none
  parse_port_parts (first ∷ options) =
      let (ports, proto) = kv.split first b'/' in
      with_numbers ports proto (apply_port_options (kv.split_map options) zero_port)

  -- A split has at least one part.
  unfoldable pub parse_port : Text → Option ContainerPort
  parse_port spec = parse_port_parts (split_on b',' spec)

  unfoldable pub parse_ports : List Text → Option (List ContainerPort)
  unfolding parse_port
  parse_ports [] = some []
  parse_ports (spec ∷ specs) =
      let rest = parse_ports specs in
      elim (parse_port spec) [
        | none ↦ none
        | some cp ↦ elim rest [ none ↦ none | some cps ↦ some (cp ∷ cps) ]
      ]
