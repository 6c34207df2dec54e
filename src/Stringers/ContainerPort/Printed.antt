-- ===== src/Stringers/ContainerPort/Printed.antt =====
-- The string form of a port of pkg/riofile/stringers/exposed_ports.go without a name and options.
use rio.Prelude.{
  Text, str, text_eq, is_empty, ℕ, ◌<◌, ◌≡◌, ◌≢◌, refl, ◌==◌, false, none, [], ◌∷◌, ◌++◌,
  if◌then◌else◌, ◌⊎◌, Bool-cases, inl, inr, Lacks, All, All-append, arith,
}
use rio.Prelude.Int.{pos}
use mathlib.Core.List.{append-nil}
use rio.Strconv.{format_ℕ, format_int}
use rio.Api.Service.{ContainerPort, Protocol}
use rio.Ports.{http_if_unset, normalize_container_port, protocol_text}
use rio.Stringers.Kv.{IsToLower}
use rio.Stringers.ContainerPort.{
  normalize_protocol, numbers_string, protocol_string, expose_string, name_string,
  container_port_string,
}
use rio.Stringers.ContainerPort.Numbers.{
  IsToUpper, format_ℕ-IsDigit, Lacks-of_IsDigit, Lacks-append, IsGraphic, format_ℕ-IsGraphic,
}

-- A port without a name and options.
abbrev pub plain_port : ℕ → ℕ → Protocol → ContainerPort
plain_port a b q = record {
  name = [];
  expose = none;
  protocol = q;
  port = pos a;
  target_port = pos b;
  host_port = false;
}

abbrev pub number_text : ℕ → ℕ → Text
number_text a b = format_ℕ a ++ (if a == b then [] else b':' ∷ format_ℕ b)

-- A protocol by its name, or none.
abbrev pub IsKnown : Protocol → Type 0
IsKnown (Protocol.other s) = ⊥
IsKnown _ = Unit

-- What is printed of the protocol.
abbrev pub lower_text : Protocol → Text
lower_text Protocol.tcp = str "tcp"
lower_text Protocol.udp = str "udp"
lower_text Protocol.sctp = str "sctp"
lower_text Protocol.http2 = str "http2"
lower_text Protocol.grpc = str "grpc"
lower_text _ = []

-- The protocol that is read again: HTTP is not printed.
abbrev pub read_back : Protocol → Protocol
read_back Protocol.http = Protocol.unset
read_back q = q

abbrev pub protocol_part : Protocol → Text
protocol_part q = if is_empty (lower_text q) then [] else b'/' ∷ lower_text q

module _ (to_upper : Text → Text) (up : IsToUpper to_upper) where
  -- The letters of a protocol.
  abbrev IsAscii : Text → Type 0
  IsAscii s = All (λ c. c < 128) s

  upper_text : (q : Protocol) → IsKnown q → to_upper (protocol_text q) ≡ protocol_text q
  unfolding protocol_text str
  upper_text Protocol.tcp k = up _ (ground arith)
  upper_text Protocol.udp k = up _ (ground arith)
  upper_text Protocol.sctp k = up _ (ground arith)
  upper_text Protocol.http2 k = up _ (ground arith)
  upper_text Protocol.grpc k = up _ (ground arith)
  upper_text Protocol.http k = up _ (ground arith)
  upper_text Protocol.unset k = up _ tt
  upper_text (Protocol.other s) k = absurd k

  normalize_protocol-upper :
      (s : Text) (q : Protocol)
      → IsKnown q
      → to_upper s ≡ protocol_text q
      → normalize_protocol to_upper s ≡ q
  unfolding normalize_protocol protocol_text text_eq str
  normalize_protocol-upper s Protocol.tcp k e = rw e refl
  normalize_protocol-upper s Protocol.udp k e = rw e refl
  normalize_protocol-upper s Protocol.sctp k e = rw e refl
  normalize_protocol-upper s Protocol.http2 k e = rw e refl
  normalize_protocol-upper s Protocol.grpc k e = rw e refl
  normalize_protocol-upper s Protocol.http k e = rw e refl
  normalize_protocol-upper s Protocol.unset k e = rw e refl
  normalize_protocol-upper s (Protocol.other t) k e = absurd k

  upper_lower : (q : Protocol) → IsKnown q → to_upper (lower_text q) ≡ protocol_text (read_back q)
  unfolding protocol_text str
  upper_lower Protocol.tcp k = up _ (ground arith)
  upper_lower Protocol.udp k = up _ (ground arith)
  upper_lower Protocol.sctp k = up _ (ground arith)
  upper_lower Protocol.http2 k = up _ (ground arith)
  upper_lower Protocol.grpc k = up _ (ground arith)
  upper_lower Protocol.http k = up _ tt
  upper_lower Protocol.unset k = up _ tt
  upper_lower (Protocol.other s) k = absurd k

  read_back-IsKnown : (q : Protocol) → IsKnown q → IsKnown (read_back q)
  read_back-IsKnown Protocol.tcp k = k
  read_back-IsKnown Protocol.udp k = k
  read_back-IsKnown Protocol.sctp k = k
  read_back-IsKnown Protocol.http2 k = k
  read_back-IsKnown Protocol.grpc k = k
  read_back-IsKnown Protocol.http k = tt
  read_back-IsKnown Protocol.unset k = k
  read_back-IsKnown (Protocol.other s) k = absurd k

  -- What is printed of a protocol is read as it.
  pub normalize_protocol-lower :
      (q : Protocol) → IsKnown q → normalize_protocol to_upper (lower_text q) ≡ read_back q
  normalize_protocol-lower q k =
      normalize_protocol-upper (lower_text q) (read_back q) (read_back-IsKnown q k)
        (upper_lower q k)

module _ (to_lower to_upper : Text → Text) (low : IsToLower to_lower)
    (up : IsToUpper to_upper) where
  protocol_string-http_if_unset :
      (q : Protocol)
      → IsKnown q
      → protocol_string to_lower (normalize_protocol to_upper (protocol_text (http_if_unset q)))
        ≡ protocol_part q
  unfolding protocol_string protocol_text str
  protocol_string-http_if_unset Protocol.tcp k =
      rw
        (normalize_protocol-upper to_upper up (str "TCP") Protocol.tcp k
          (upper_text to_upper up Protocol.tcp k))
        (rw (low (str "TCP") (ground arith)) refl)
  protocol_string-http_if_unset Protocol.udp k =
      rw
        (normalize_protocol-upper to_upper up (str "UDP") Protocol.udp k
          (upper_text to_upper up Protocol.udp k))
        (rw (low (str "UDP") (ground arith)) refl)
  protocol_string-http_if_unset Protocol.sctp k =
      rw
        (normalize_protocol-upper to_upper up (str "SCTP") Protocol.sctp k
          (upper_text to_upper up Protocol.sctp k))
        (rw (low (str "SCTP") (ground arith)) refl)
  protocol_string-http_if_unset Protocol.http2 k =
      rw
        (normalize_protocol-upper to_upper up (str "HTTP2") Protocol.http2 k
          (upper_text to_upper up Protocol.http2 k))
        (rw (low (str "HTTP2") (ground arith)) refl)
  protocol_string-http_if_unset Protocol.grpc k =
      rw
        (normalize_protocol-upper to_upper up (str "GRPC") Protocol.grpc k
          (upper_text to_upper up Protocol.grpc k))
        (rw (low (str "GRPC") (ground arith)) refl)
  protocol_string-http_if_unset Protocol.http k =
      rw
        (normalize_protocol-upper to_upper up (str "HTTP") Protocol.http k
          (upper_text to_upper up Protocol.http k))
        refl
  protocol_string-http_if_unset Protocol.unset k =
      rw
        (normalize_protocol-upper to_upper up (str "HTTP") Protocol.http tt
          (upper_text to_upper up Protocol.http tt))
        refl
  protocol_string-http_if_unset (Protocol.other s) k = absurd k

  normalize-plain :
      (a b : ℕ) (q : Protocol)
      → 0 < a
      → 0 < b
      → normalize_container_port (plain_port a b q) ≡ plain_port a b (http_if_unset q)
  unfolding normalize_container_port
  normalize-plain a b q ha hb = ground arith

  numbers_string-plain :
      (a b : ℕ) (q : Protocol) → 0 < a → 0 < b → numbers_string (plain_port a b q) ≡ number_text a b
  unfolding numbers_string format_int
  numbers_string-plain a b q ha hb = ground arith

  -- The string form of a plain port.
  pub container_port_string-plain :
      (a b : ℕ) (q : Protocol)
      → 0 < a
      → 0 < b
      → IsKnown q
      → container_port_string to_lower to_upper (plain_port a b q)
        ≡ number_text a b ++ protocol_part q
  unfolding container_port_string expose_string name_string
  container_port_string-plain a b q ha hb k = rw (normalize-plain a b q ha hb) (
      rw (numbers_string-plain a b (http_if_unset q) ha hb)
        (rw (protocol_string-http_if_unset q k) (rw (append-nil (protocol_part q)) refl)))

pub number_text-Lacks : (c a b : ℕ) → (c < 48) ⊎ (57 < c) → c ≢ 58 → Lacks c (number_text a b)
number_text-Lacks c a b o n = elim (Bool-cases (a == b)) [
  | inl same ↦
      rw same (Lacks-append c (format_ℕ a) [] (Lacks-of_IsDigit c _ o (format_ℕ-IsDigit a)) tt)
  | inr other ↦ rw other (
      Lacks-append c (format_ℕ a) (b':' ∷ format_ℕ b) (Lacks-of_IsDigit c _ o (format_ℕ-IsDigit a))
        (n, Lacks-of_IsDigit c _ o (format_ℕ-IsDigit b)))
]

pub number_text-IsGraphic : (a b : ℕ) → All IsGraphic (number_text a b)
number_text-IsGraphic a b = elim (Bool-cases (a == b)) [
  | inl same ↦ rw same (All-append IsGraphic (format_ℕ a) [] (format_ℕ-IsGraphic a) tt)
  | inr other ↦ rw other (
      All-append IsGraphic (format_ℕ a) (b':' ∷ format_ℕ b) (format_ℕ-IsGraphic a)
        (refl, format_ℕ-IsGraphic b))
]

pub lower_text-IsGraphic : (q : Protocol) → All IsGraphic (lower_text q)
unfolding str
lower_text-IsGraphic Protocol.tcp = ground arith
lower_text-IsGraphic Protocol.udp = ground arith
lower_text-IsGraphic Protocol.sctp = ground arith
lower_text-IsGraphic Protocol.http2 = ground arith
lower_text-IsGraphic Protocol.grpc = ground arith
lower_text-IsGraphic Protocol.http = tt
lower_text-IsGraphic Protocol.unset = tt
lower_text-IsGraphic (Protocol.other s) = tt

pub protocol_part-Lacks : (q : Protocol) → Lacks 44 (protocol_part q)
unfolding str
protocol_part-Lacks Protocol.tcp = ground arith
protocol_part-Lacks Protocol.udp = ground arith
protocol_part-Lacks Protocol.sctp = ground arith
protocol_part-Lacks Protocol.http2 = ground arith
protocol_part-Lacks Protocol.grpc = ground arith
protocol_part-Lacks Protocol.http = tt
protocol_part-Lacks Protocol.unset = tt
protocol_part-Lacks (Protocol.other s) = tt
