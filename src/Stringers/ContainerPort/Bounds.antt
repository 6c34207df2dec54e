-- ===== src/Stringers/ContainerPort/Bounds.antt =====
-- The numbers of a port that ParsePort of pkg/riofile/stringers/exposed_ports.go reads.
use rio.Prelude.{Text, ℕ, ◌+◌, ◌*◌, ◌/◌, ◌^◌, ◌<◌, ◌≡◌, refl, some, ◌++◌, arith}
use rio.Prelude.Int.{ℤ, pos, pos_part, neg_part, to_int32}
use rio.Api.Service.{ContainerPort, Protocol}
use rio.Stringers.Kv.{Kv, IsKv}
use rio.Stringers.ContainerPort.{parse_port}
use rio.Stringers.ContainerPort.Numbers.{IsToUpper}
use rio.Stringers.ContainerPort.Printed.{number_text, IsKnown, read_back, protocol_part}
use rio.Stringers.ContainerPort.Laws.{wrapped_port, parse_port-wrapped}

-- The integer of 32 bits that differs from the number by a multiple of 2 ^ 32: there is one.
pub record IsLow32 (n : ℕ) (z : ℤ) : Type 0 where
  pub upper : pos_part z < 2 ^ 31
  pub lower : neg_part z < 2 ^ 31 + 1
  pub times : ℕ
  pub apart : neg_part z + n ≡ pos_part z + times * 2 ^ 32

to_int32-IsLow32 : (n : ℕ) → IsLow32 n (to_int32 (pos n))
unfolding to_int32
to_int32-IsLow32 n = record {
  upper = ground arith;
  lower = ground arith;
  times = (n + 2 ^ 31) / 2 ^ 32;
  apart = ground arith;
}

-- A port and a target port below 2 ^ 63 are read without an error, each as the integer of 32 bits
-- that is the same modulo 2 ^ 32, with the protocol that is given.
pub parse_port-IsLow32 :
    (to_upper : Text → Text) (kv : Kv) (a b : ℕ) (q : Protocol)
    → IsKv kv
    → IsToUpper to_upper
    → IsKnown q
    → a < 2 ^ 63
    → b < 2 ^ 63
    → (p : ContainerPort) × (parse_port to_upper kv (number_text a b ++ protocol_part q) ≡ some p)
      × IsLow32 a p.port
      × IsLow32 b p.target_port
      × (p.protocol ≡ read_back q)
parse_port-IsLow32 to_upper kv a b q h up k ha hb = (
  wrapped_port a b (read_back q),
  parse_port-wrapped kv h to_upper a b q up k ha hb,
  to_int32-IsLow32 a,
  to_int32-IsLow32 b,
  refl,
)
