-- ===== src/Stringers/ContainerPort/Laws.antt =====
-- Reading back the string form of a port of pkg/riofile/stringers/exposed_ports.go.
use rio.Prelude.{
  Text, str, is_empty, ℕ, ◌^◌, ◌<◌, ◌≡◌, refl, ap, ◌∙◌, ◌==◌, ◌&&◌, not, true, false, some, List,
  [], ◌∷◌, ◌++◌, if◌then◌else◌, Bool-cases, inl, inr, Lacks, split_on-Lacks, All, Member, arith,
  ==_iff,
}
use mathlib.Core.List.{append-nil}
use rio.Strconv.{format_ℕ}
use rio.Prelude.Int.{pos, to_int32}
use rio.Api.Service.{ContainerPort, Protocol}
use rio.Stringers.Kv.{Kv, IsKv, IsToLower, is_trimmed}
use rio.Stringers.ContainerPort.{
  is_unset, container_port_string, apply_port_options, zero_port, with_target, with_numbers,
  parse_port,
}
use rio.Stringers.ContainerPort.Numbers.{
  IsToUpper, format_ℕ-IsDigit, Lacks-of_IsDigit, Lacks-append, is_trimmed-IsGraphic,
  format_ℕ-IsGraphic, parse_number-format_ℕ, to_int32-small, format_ℕ-filled,
}
use rio.Stringers.ContainerPort.Printed.{
  plain_port, number_text, IsKnown, lower_text, read_back, protocol_part, normalize_protocol-lower,
  container_port_string-plain, number_text-Lacks, number_text-IsGraphic, lower_text-IsGraphic,
  protocol_part-Lacks,
}

-- A port with the last 32 bits of two numbers.
abbrev pub wrapped_port : ℕ → ℕ → Protocol → ContainerPort
wrapped_port a b q = record zero_port {
  port = to_int32 (pos a);
  target_port = to_int32 (pos b);
  protocol = q;
}

module _ (kv : Kv) (h : IsKv kv) where
  split_behind :
      (c : ℕ) (s t : Text)
      → Lacks c s
      → is_trimmed s ≡ true
      → is_trimmed t ≡ true
      → kv.split (s ++ (if is_empty t then [] else c ∷ t)) c ≡ (s, t)
  split_behind c s [] l hs ht = rw (append-nil s) (h.split_none c s l hs)
  split_behind c s (d ∷ t) l hs ht = h.split_at c s (d ∷ t) l hs ht

  split_map-empty : kv.split_map [] ≡ []
  split_map-empty = only_nil (kv.split_map []) (h.split_map_only [])
    where
      only_nil : (es : List (Text × Text)) → All (λ e. Member e []) es → es ≡ []
      only_nil [] m = refl
      only_nil (e ∷ es) (m, ms) = absurd m

  split-protocol :
      (a b : ℕ) (q : Protocol)
      → kv.split (number_text a b ++ protocol_part q) b'/' ≡ (number_text a b, lower_text q)
  split-protocol a b q =
      split_behind 47 (number_text a b) (lower_text q)
        (number_text-Lacks 47 a b (inl (omega arith)) (ground arith))
        (is_trimmed-IsGraphic (number_text a b) (number_text-IsGraphic a b))
        (is_trimmed-IsGraphic (lower_text q) (lower_text-IsGraphic q))

  -- The second number, if it is printed.
  abbrev second : ℕ → ℕ → Text
  second a b = if a == b then [] else format_ℕ b

  split-numbers : (a b : ℕ) → kv.split (number_text a b) b':' ≡ (format_ℕ a, second a b)
  split-numbers a b =
      let lacks = Lacks-of_IsDigit 58 (format_ℕ a) (inr (omega arith)) (format_ℕ-IsDigit a) in
      let trimmed = is_trimmed-IsGraphic (format_ℕ a) (format_ℕ-IsGraphic a) in
      elim (Bool-cases (a == b)) [
        | inl same ↦ rw same (rw (append-nil (format_ℕ a)) (h.split_none 58 _ lacks trimmed))
        | inr other ↦ rw other (
            h.split_at 58 (format_ℕ a) (format_ℕ b) lacks trimmed
              (is_trimmed-IsGraphic (format_ℕ b) (format_ℕ-IsGraphic b)))
      ]

  second-target :
      (to_upper : Text → Text) (a b : ℕ) (q : Protocol)
      → b < 2 ^ 63
      → with_target to_upper kv (second a b) (wrapped_port a a q) ≡ some (wrapped_port a b q)
  unfolding with_target
  second-target to_upper a b q hb = elim (Bool-cases (a == b)) [
    | inl same ↦ rw same (ap (λ n. some (wrapped_port a n q)) ((==_iff a b).0 same))
    | inr other ↦ rw other (rw (format_ℕ-filled b) (rw (parse_number-format_ℕ b hb) refl))
  ]

  -- A protocol that is printed is known.
  is_valid :
      (q : Protocol) → IsKnown q → (not (is_empty (lower_text q)) && is_unset (read_back q)) ≡ false
  unfolding str
  is_valid Protocol.tcp k = refl
  is_valid Protocol.udp k = refl
  is_valid Protocol.sctp k = refl
  is_valid Protocol.http2 k = refl
  is_valid Protocol.grpc k = refl
  is_valid Protocol.http k = refl
  is_valid Protocol.unset k = refl
  is_valid (Protocol.other s) k = absurd k

  with_numbers-wrapped :
      (to_upper : Text → Text) (a b : ℕ) (q : Protocol)
      → IsToUpper to_upper
      → IsKnown q
      → a < 2 ^ 63
      → b < 2 ^ 63
      → with_numbers to_upper kv (number_text a b) (lower_text q) zero_port
        ≡ some (wrapped_port a b (read_back q))
  unfolding with_numbers
  with_numbers-wrapped to_upper a b q up k ha hb =
      rw (split-numbers a b, with_numbers)
        (rw (parse_number-format_ℕ a ha) (
          rw (normalize_protocol-lower to_upper up q k) (
            rw (is_valid q k)
              (rw (split-numbers a b) (second-target to_upper a b (read_back q) hb)))))

  -- Numbers of 63 bits are read as their last 32.
  pub parse_port-wrapped :
      (to_upper : Text → Text) (a b : ℕ) (q : Protocol)
      → IsToUpper to_upper
      → IsKnown q
      → a < 2 ^ 63
      → b < 2 ^ 63
      → parse_port to_upper kv (number_text a b ++ protocol_part q)
        ≡ some (wrapped_port a b (read_back q))
  unfolding parse_port apply_port_options
  parse_port-wrapped to_upper a b q up k ha hb =
      rw
        (split_on-Lacks 44 (number_text a b ++ protocol_part q) (
          Lacks-append 44 (number_text a b) (protocol_part q)
            (number_text-Lacks 44 a b (inl (omega arith)) (ground arith)) (protocol_part-Lacks q)))
        (rw (split-protocol a b q)
          (rw split_map-empty (with_numbers-wrapped to_upper a b q up k ha hb)))

wrapped_port-small :
    (a b : ℕ) (q : Protocol) → a < 2 ^ 31 → b < 2 ^ 31 → wrapped_port a b q ≡ plain_port a b q
wrapped_port-small a b q ha hb = rw (to_int32-small a ha, to_int32-small b hb) refl

module _ (to_lower to_upper : Text → Text) (kv : Kv) where
  -- Parsing the string form of a port without a name and options gives the port back, with no
  -- protocol where that is HTTP, if its numbers are positive ones of 31 bits and its protocol is
  -- none of the user's own.
  pub parse_port-container_port_string :
      (a b : ℕ) (q : Protocol)
      → IsKv kv
      → IsToLower to_lower
      → IsToUpper to_upper
      → IsKnown q
      → (0 < a) × (a < 2 ^ 31)
      → (0 < b) × (b < 2 ^ 31)
      → parse_port to_upper kv (container_port_string to_lower to_upper (plain_port a b q))
        ≡ some (plain_port a b (read_back q))
  parse_port-container_port_string a b q h low up k (pa, ha) (pb, hb) =
      rw (container_port_string-plain to_lower to_upper low up a b q pa pb k) (
        parse_port-wrapped kv h to_upper a b q up k (omega (arith, ha)) (omega (arith, hb))
        ∙ ap some (wrapped_port-small a b (read_back q) ha hb))
