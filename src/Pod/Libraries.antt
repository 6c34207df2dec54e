-- ===== src/Pod/Libraries.antt =====
-- What the pod population takes from elsewhere: strings.ToLower, Hex of package wrangler/name, the
-- parser of image references and package intstr; and the order in which Go ranges over a map.
use rio.Prelude.{Text, ℕ, Option, List}
use rio.Prelude.Int.{ℤ}
use rio.Prelude.Sort.{HasSameMembers}
use rio.Prelude.Unique.{Distinct}
use rio.Kube.Pod.{IntOrString}

pub record Libraries : Type 0 where
  pub to_lower : Text → Text
  pub hex : Text → ℕ → Text
  -- `none` for an error; else the tag of the reference, if it has one.
  pub parse_normalized_named : Text → Option (Option Text)
  pub int_value : IntOrString → ℤ
  pub from_int : ℤ → IntOrString

-- The keys of a map in the order of a range over it.
abbrev pub Range : Type 0
Range = List Text → List Text

-- A range meets every key once.
pub record IsRange (range_keys : Range) : Type 0 where
  pub once : (map_keys : List Text) → Distinct map_keys → Distinct (range_keys map_keys)
  pub same : (map_keys : List Text) → HasSameMembers map_keys (range_keys map_keys)
