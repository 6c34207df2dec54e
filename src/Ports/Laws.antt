-- ===== src/Ports/Laws.antt =====
-- What ContainerPorts keeps of the ports of a service's containers.
use rio.Prelude.{◌≢◌, Member, All, List, map}
use rio.Prelude.Int.{pos}
use rio.Prelude.Unique.{Unique, IsUnique}
use rio.Api.Service.{Service, ContainerPort, NamedContainer}
use rio.Ports.{normalize_container_port, port_key}

-- The port has a number.
abbrev pub IsNumbered : ContainerPort → Type 0
IsNumbered p = p.port ≢ pos 0

-- The ports found are numbered and have distinct keys, which are those that were seen.
record IsKept (u : Unique ContainerPort) : Type 0 where
  unique : IsUnique port_key u
  numbered : All IsNumbered u.kept

-- A port without a number, or one with a number whose key was seen.
abbrev IsSeen : ContainerPort → Unique ContainerPort → Type 0
IsSeen p u =
    IsNumbered (normalize_container_port p) → Member (port_key (normalize_container_port p)) u.seen

-- The ports of a container.
AllSeen : Unique ContainerPort → NamedContainer → Type 0
AllSeen u c = All (λ p. IsSeen p u) c.container.ports

-- Among these ports is one with the number and the protocol of the normalized port, if that has a
-- number.
abbrev pub IsListed : List ContainerPort → ContainerPort → Type 0
IsListed ports p =
    IsNumbered (normalize_container_port p)
    → Member (port_key (normalize_container_port p)) (map port_key ports)
