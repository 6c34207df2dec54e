-- ===== src/Ports.antt =====
-- pkg/serviceports/ports.go: the ports of a service, with NormalizeContainerPort of
-- pkg/riofile/stringers/exposed_ports.go. strings.ToLower is a parameter.
pub mod Laws
use rio.Prelude.{Text, str, is_empty, List, [], ◌∷◌, ◌++◌, map, if◌then◌else◌}
use rio.Prelude.Int.{pos, eqb_ℤ}
use rio.Prelude.Unique.{Unique, none_kept, add_new}
use rio.Strconv.{format_int}
use rio.Api.Service.{Service, ContainerPort, Protocol, NamedContainer}
use rio.Kube.{ServicePort}
use rio.Kube.Pod.{KubeProtocol}
use rio.Services.{to_named_containers}

-- The string of the protocol.
unfoldable pub protocol_text : Protocol → Text
protocol_text Protocol.unset = []
protocol_text Protocol.tcp = str "TCP"
protocol_text Protocol.udp = str "UDP"
protocol_text Protocol.sctp = str "SCTP"
protocol_text Protocol.http = str "HTTP"
protocol_text Protocol.http2 = str "HTTP2"
protocol_text Protocol.grpc = str "GRPC"
protocol_text (Protocol.other s) = s

unfoldable pub protocol : Protocol → KubeProtocol
protocol Protocol.udp = KubeProtocol.udp
protocol Protocol.sctp = KubeProtocol.sctp
protocol _ = KubeProtocol.tcp

abbrev pub http_if_unset : Protocol → Protocol
http_if_unset Protocol.unset = Protocol.http
http_if_unset p = p

unfoldable pub normalize_container_port : ContainerPort → ContainerPort
normalize_container_port p =
    let port = if eqb_ℤ p.port (pos 0) then p.target_port else p.port in
    record p {
      port = port;
      target_port = if eqb_ℤ p.target_port (pos 0) then port else p.target_port;
      protocol = http_if_unset p.protocol;
    }

-- fmt.Sprintf("%v/%v", port.Port, port.Protocol)
unfoldable pub port_key : ContainerPort → Text
port_key p = format_int p.port ++ (str "/" ++ protocol_text p.protocol)

-- A round of the inner loop.
unfoldable pub add_port : ContainerPort → Unique ContainerPort → Unique ContainerPort
add_port p found =
    let port = normalize_container_port p in
    if eqb_ℤ port.port (pos 0) then found else add_new port_key port found

unfoldable pub add_ports : List ContainerPort → Unique ContainerPort → Unique ContainerPort
unfolding add_port
add_ports [] found = found
add_ports (p ∷ ports) found = add_ports ports (add_port p found)

unfoldable pub add_containers : List NamedContainer → Unique ContainerPort → Unique ContainerPort
unfolding add_ports
add_containers [] found = found
add_containers (c ∷ containers) found =
    add_containers containers (add_ports c.container.ports found)

unfoldable pub container_ports : Service → List ContainerPort
unfolding add_containers
container_ports service = (add_containers (to_named_containers service) none_kept).kept

module _ (to_lower : Text → Text) where
  unfoldable pub service_port : ContainerPort → ServicePort
  unfolding protocol protocol_text
  service_port p =
      let default = to_lower (protocol_text p.protocol ++ (str "-" ++ format_int p.port)) in
      record {
        name = if is_empty p.name then default else p.name;
        port = p.port;
        protocol = protocol p.protocol;
        target_port = p.target_port;
      }

  unfoldable pub service_named_ports : Service → List ServicePort
  unfolding container_ports service_port
  service_named_ports service = map service_port (container_ports service)
