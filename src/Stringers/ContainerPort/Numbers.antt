-- ===== src/Stringers/ContainerPort/Numbers.antt =====
-- The decimal digits and the case of the letters in the string form of a port of
-- pkg/riofile/stringers/exposed_ports.go.
use rio.Prelude.{
  Text, is_empty, ℕ, zero, suc, ◌+◌, ◌-◌, ◌%◌, ◌/◌, ◌^◌, ◌≤◌, ◌<◌, ◌≡◌, refl, ltb, leb, ◌&&◌, true,
  false, some, [], ◌∷◌, ◌++◌, map, if◌then◌else◌, ◌⊎◌, Bool-cases, inl, inr, Lacks, All, All-map,
  arith,
}
use rio.Prelude.Int.{ℤ, pos, to_int32}
use rio.Strconv.{digits_before, format_ℕ, format_int}
use rio.Strconv.Laws.{IsInt64, atoi-format_int}
use rio.Stringers.Kv.{is_trimmed, is_graphic, ends_graphic}
use rio.Stringers.ContainerPort.{parse_number}

-- What strings.ToUpper does to the letters of ASCII.
abbrev pub upper_byte : ℕ → ℕ
upper_byte c = if leb 97 c && leb c 122 then c - 32 else c

abbrev pub IsToUpper : (Text → Text) → Type 0
IsToUpper to_upper = (s : Text) → All (λ c. c < 128) s → to_upper s ≡ map upper_byte s

abbrev IsDigit : ℕ → Type 0
IsDigit c = (48 ≤ c) × (c ≤ 57)

digits_before-IsDigit :
    (fuel n : ℕ) (rest : Text) → All IsDigit rest → All IsDigit (digits_before fuel n rest)
unfolding digits_before
digits_before-IsDigit zero n rest h = h
digits_before-IsDigit (suc fuel) n rest h = elim (Bool-cases (ltb n 10)) [
  | inl small ↦ rw small ((omega arith, ground arith), h)
  | inr large ↦
      rw large
        (digits_before-IsDigit fuel (n / 10) ((48 + n % 10) ∷ rest) ((omega arith, omega arith), h))
]

pub format_ℕ-IsDigit : (n : ℕ) → All IsDigit (format_ℕ n)
unfolding format_ℕ
format_ℕ-IsDigit n = digits_before-IsDigit (suc n) n [] tt

digits_before-filled :
    (fuel n : ℕ) (rest : Text) → n < fuel → is_empty (digits_before fuel n rest) ≡ false
unfolding digits_before
digits_before-filled zero n rest h = elim h [ ]
digits_before-filled (suc fuel) n rest h = elim (Bool-cases (ltb n 10)) [
  | inl small ↦ rw small refl
  | inr large ↦ rw large (digits_before-filled fuel (n / 10) ((48 + n % 10) ∷ rest) (ground arith))
]

pub Lacks-of_IsDigit : (c : ℕ) (s : Text) → (c < 48) ⊎ (57 < c) → All IsDigit s → Lacks c s
Lacks-of_IsDigit c [] o h = tt
Lacks-of_IsDigit c (d ∷ s) o ((lo, hi), h) = (ground arith, Lacks-of_IsDigit c s o h)

pub Lacks-append : (c : ℕ) (s t : Text) → Lacks c s → Lacks c t → Lacks c (s ++ t)
Lacks-append c [] t h k = k
Lacks-append c (d ∷ s) t (n, h) k = (n, Lacks-append c s t h k)

abbrev pub IsGraphic : ℕ → Type 0
IsGraphic c = is_graphic c ≡ true

ends_graphic-IsGraphic : (s : Text) → All IsGraphic s → ends_graphic s ≡ true
ends_graphic-IsGraphic [] h = refl
ends_graphic-IsGraphic (c ∷ []) (g, h) = g
ends_graphic-IsGraphic (c ∷ d ∷ s) (g, h) = ends_graphic-IsGraphic (d ∷ s) h

pub is_trimmed-IsGraphic : (s : Text) → All IsGraphic s → is_trimmed s ≡ true
is_trimmed-IsGraphic [] h = refl
is_trimmed-IsGraphic (c ∷ s) (g, h) = rw g (ends_graphic-IsGraphic (c ∷ s) (g, h))

IsGraphic-of_IsDigit : (c : ℕ) → IsDigit c → IsGraphic c
IsGraphic-of_IsDigit c (lo, hi) = ground arith

pub format_ℕ-IsGraphic : (n : ℕ) → All IsGraphic (format_ℕ n)
format_ℕ-IsGraphic n = All-map (format_ℕ n) IsGraphic-of_IsDigit (format_ℕ-IsDigit n)

pub to_int32-small : (n : ℕ) → n < 2 ^ 31 → to_int32 (pos n) ≡ pos n
unfolding to_int32
to_int32-small n h = ground arith

-- A number of 64 bits is read as its last 32 bits.
pub parse_number-format_int : (n : ℤ) → IsInt64 n → parse_number (format_int n) ≡ some (to_int32 n)
unfolding parse_number
parse_number-format_int n h = rw (atoi-format_int n h) refl

pub parse_number-format_ℕ :
    (n : ℕ) → n < 2 ^ 63 → parse_number (format_ℕ n) ≡ some (to_int32 (pos n))
unfolding format_int
parse_number-format_ℕ n h = parse_number-format_int (pos n) (omega (arith, h))

pub format_ℕ-filled : (n : ℕ) → is_empty (format_ℕ n) ≡ false
unfolding format_ℕ
format_ℕ-filled n = digits_before-filled (suc n) n [] (omega arith)
