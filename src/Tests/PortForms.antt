-- ===== src/Tests/PortForms.antt =====
-- String forms of ports.
use rio.Prelude.{◌++◌, Text, str, text_eq, split_on, ◌≡◌, refl, true, false, some, map, arith}
use rio.Prelude.Int.{to_int32, negsuc}
use rio.Api.Service.{ContainerPort, Protocol}
use rio.Ports.{normalize_container_port, protocol_text}
use rio.Strconv.{atoi, format_int, format_ℕ, digits_before, read_digits}
use rio.Stringers.Kv.{lower_byte}
use rio.Stringers.ContainerPort.{
  normalize_protocol, numbers_string, protocol_string, expose_string, name_string,
  container_port_string, apply_port_option, apply_port_options, parse_number, with_target,
  with_numbers, parse_port,
}
use rio.Stringers.ContainerPort.Numbers.{upper_byte}
use rio.Stringers.ContainerPort.Printed.{plain_port, number_text, protocol_part}
use rio.Stringers.ContainerPort.Laws.{parse_port-container_port_string}
use rio.Stringers.ContainerPort.Bounds.{IsLow32, parse_port-IsLow32}
use rio.Tests.Forms.{first_split, first_split-IsKv}

abbrev to_lower : Text → Text
to_lower = map lower_byte

abbrev to_upper : Text → Text
to_upper = map upper_byte

-- The form of a port with options, and what is read of it.
printed :
    container_port_string to_lower to_upper
      (record (plain_port 443 8443 Protocol.grpc) { expose = some true; name = str "api" })
    ≡ str "443:8443/grpc,expose,api"
unfolding container_port_string normalize_container_port normalize_protocol protocol_text
    numbers_string protocol_string expose_string name_string format_int format_ℕ digits_before str
    text_eq
printed = refl

-- A port named internal is read as one that is not exposed and has no name.
named_internal :
    parse_port to_upper first_split (
      container_port_string to_lower to_upper
        (record (plain_port 80 80 Protocol.http) { name = str "internal" }))
    ≡ some (record (plain_port 80 80 Protocol.unset) { expose = some false })
unfolding container_port_string normalize_container_port normalize_protocol protocol_text
    numbers_string protocol_string expose_string name_string format_int format_ℕ digits_before str
    text_eq parse_port with_numbers with_target parse_number apply_port_options apply_port_option
    split_on atoi read_digits to_int32
named_internal = refl

-- A number of more than 32 bits is cut off.
cut_off :
    parse_port to_upper first_split (str "4294967376") ≡ some (plain_port 80 80 Protocol.unset)
unfolding normalize_protocol str text_eq parse_port with_numbers with_target parse_number
    apply_port_options split_on atoi read_digits to_int32
cut_off = refl

parse_port-container_port_string_example :
    parse_port to_upper first_split
      (container_port_string to_lower to_upper (plain_port 80 8080 Protocol.grpc))
    ≡ some (plain_port 80 8080 Protocol.grpc)
parse_port-container_port_string_example =
    parse_port-container_port_string to_lower to_upper first_split 80 8080 Protocol.grpc
      first_split-IsKv (λ s h. refl) (λ s h. refl) tt (omega arith, omega arith)
      (omega arith, omega arith)

parsed_large :
    parse_port to_upper first_split (str "80:2147483648")
    ≡ some (record (plain_port 80 80 Protocol.unset) { target_port = negsuc 2147483647 })
unfolding normalize_protocol str text_eq parse_port with_numbers with_target parse_number
    apply_port_options split_on atoi read_digits to_int32
parsed_large = refl

parse_port-IsLow32_example :
    (p : ContainerPort) × (parse_port to_upper first_split
        (number_text 4294967376 2147483648 ++ protocol_part Protocol.grpc)
      ≡ some p)
    × IsLow32 4294967376 p.port
    × IsLow32 2147483648 p.target_port
    × (p.protocol ≡ Protocol.grpc)
parse_port-IsLow32_example =
    parse_port-IsLow32 to_upper first_split 4294967376 2147483648 Protocol.grpc first_split-IsKv
      (λ s h. refl) tt (omega arith) (omega arith)
