-- ===== src/Stringers/Kv.antt =====
-- Package kv of wrangler, as the parsers use it, and strings.ToLower.
use rio.Prelude.{
  Text, Lacks, Member, All, ℕ, ◌+◌, ◌<◌, if◌then◌else◌, ◌≡◌, Bool, true, ◌&&◌, leb, List, [], ◌∷◌,
  ◌++◌, map,
}

-- A byte of a printable character of ASCII that is not a space.
abbrev pub is_graphic : ℕ → Bool
is_graphic c = leb 33 c && leb c 126

abbrev pub ends_graphic : Text → Bool
ends_graphic [] = true
ends_graphic (c ∷ []) = is_graphic c
ends_graphic (c ∷ d ∷ s) = ends_graphic (d ∷ s)

-- Neither at its start nor at its end is there white space.
abbrev pub is_trimmed : Text → Bool
is_trimmed [] = true
is_trimmed (c ∷ s) = is_graphic c && ends_graphic (c ∷ s)

-- `split s separator` is kv.Split, for separators of one byte; `split_map` is
-- kv.SplitMapFromSlice, in the order in which the map is ranged over.
pub record Kv : Type 0 where
  pub split : Text → ℕ → Text × Text
  pub split_map : List Text → List (Text × Text)

-- What the packages document: a text is split at the first separator and the parts are trimmed; a
-- map has the entries that its parts are split into.
pub record IsKv (kv : Kv) : Type 0 where
  pub split_at :
      (c : ℕ) (a b : Text)
      → Lacks c a
      → is_trimmed a ≡ true
      → is_trimmed b ≡ true
      → kv.split (a ++ (c ∷ b)) c ≡ (a, b)
  pub split_none : (c : ℕ) (a : Text) → Lacks c a → is_trimmed a ≡ true → kv.split a c ≡ (a, [])
  pub split_map_only :
      (parts : List Text)
      → All (λ e. Member e (map (λ part. kv.split part b'=') parts)) (kv.split_map parts)

abbrev pub lower_byte : ℕ → ℕ
lower_byte c = if leb 65 c && leb c 90 then c + 32 else c

-- What strings.ToLower does to the letters of ASCII.
abbrev pub IsToLower : (Text → Text) → Type 0
IsToLower to_lower = (s : Text) → All (λ c. c < 128) s → to_lower s ≡ map lower_byte s
