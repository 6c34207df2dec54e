-- ===== src/Stringers/DataMount.antt =====
-- pkg/riofile/stringers/data_mount.go, configs.go and secrets.go: mounts of configs and secrets.
use rio.Prelude.{
  Text, str, is_empty, text_eq, split_on, Lacks, split_on-Lacks, split_on-append, ◌≡◌, refl, ◌||◌,
  true, Option, none, some, List, [], ◌∷◌, ◌++◌, if◌then◌else◌, Bool-cases, inl, inr,
}
use mathlib.Core.List.{append-nil}
use rio.Api.Service.{DataMount}
use rio.Stringers.Kv.{Kv, IsKv, is_trimmed}

abbrev pub configs_default_path : Text
configs_default_path = str "/run/configs"

abbrev pub secrets_default_path : Text
secrets_default_path = str "/run/secrets"

-- What is mounted.
unfoldable pub source_string : DataMount → Text
source_string d = d.name ++ (if is_empty d.key then [] else b'/' ∷ d.key)

unfoldable pub data_mount_string : Text → DataMount → Text
data_mount_string default_prefix d =
    if text_eq d.target default_prefix || is_empty d.target
    then source_string d
    else source_string d ++ (b':' ∷ d.target)

unfoldable pub configs_string : DataMount → Text
configs_string = data_mount_string configs_default_path

unfoldable pub secrets_string : DataMount → Text
secrets_string = data_mount_string secrets_default_path

-- The mount of a target from the parts of its source.
unfoldable pub mount_of : Text → List Text → Option DataMount
mount_of to [] = some (record { target = to; name = []; key = [] })
mount_of to (name ∷ []) = some (record { target = to; name = name; key = [] })
mount_of to (name ∷ key ∷ []) = some (record { target = to; name = name; key = key })
mount_of to (name ∷ key ∷ more ∷ parts) = none

module _ (kv : Kv) where
  -- ParseDataMount and parseConfig.
  unfoldable pub parse_data_mount : Text → Option DataMount
  parse_data_mount mount = let (from, to) = kv.split mount b':' in mount_of to (split_on b'/' from)

  -- ParseConfigs and ParseSecrets.
  unfoldable pub parse_data_mounts : List Text → Option (List DataMount)
  parse_data_mounts [] = some []
  parse_data_mounts (mount ∷ mounts) =
      let rest = parse_data_mounts mounts in
      elim (parse_data_mount mount) [
        | none ↦ none
        | some d ↦ elim rest [ none ↦ none | some ds ↦ some (d ∷ ds) ]
      ]

-- The parts of a mount do not hold the separators, and the ends of its form are no white space.
pub record IsPrintable (d : DataMount) : Type 0 where
  pub name_lacks : Lacks b'/' d.name
  pub key_lacks : Lacks b'/' d.key
  pub source_lacks : Lacks b':' (source_string d)
  pub source_trimmed : is_trimmed (source_string d) ≡ true
  pub target_trimmed : is_trimmed d.target ≡ true

-- The target that is printed: the default is not.
abbrev pub printed_target : Text → Text → Text
printed_target default_prefix target = if text_eq target default_prefix then [] else target

mount_of-parts :
    (to name key : Text)
    → Lacks b'/' name
    → Lacks b'/' key
    → mount_of to (split_on b'/' (name ++ (if is_empty key then [] else b'/' ∷ key)))
      ≡ some (record { target = to; name = name; key = key })
unfolding mount_of
mount_of-parts to name [] n k = rw (append-nil name) (rw (split_on-Lacks b'/' name n) refl)
mount_of-parts to name (c ∷ key) n k =
    rw (split_on-append b'/' name (c ∷ key) n) (rw (split_on-Lacks b'/' (c ∷ key) k) refl)

mount_of-source_string :
    (to : Text) (d : DataMount)
    → IsPrintable d
    → mount_of to (split_on b'/' (source_string d)) ≡ some (record d { target = to })
unfolding source_string
mount_of-source_string to d p = mount_of-parts to d.name d.key p.name_lacks p.key_lacks

split-target :
    (kv : Kv) (source target : Text)
    → IsKv kv
    → Lacks b':' source
    → is_trimmed source ≡ true
    → is_trimmed target ≡ true
    → kv.split (if is_empty target then source else source ++ (b':' ∷ target)) b':'
      ≡ (source, target)
split-target kv source [] h l s t = h.split_none b':' source l s
split-target kv source (c ∷ target) h l s t = h.split_at b':' source (c ∷ target) l s t

-- Parsing the form of a mount gives the mount back, with no target where that is the default, if its
-- parts hold no separator.
pub parse_data_mount-data_mount_string :
    (kv : Kv) (default_prefix : Text) (d : DataMount)
    → IsKv kv
    → IsPrintable d
    → parse_data_mount kv (data_mount_string default_prefix d)
      ≡ some (record d { target = printed_target default_prefix d.target })
unfolding parse_data_mount data_mount_string
parse_data_mount-data_mount_string kv default_prefix d h p =
    elim (Bool-cases (text_eq d.target default_prefix)) [
      | inl same ↦ rw same (
          rw (h.split_none b':' (source_string d) p.source_lacks p.source_trimmed)
            (mount_of-source_string [] d p))
      | inr other ↦ rw other (
          rw
            (split-target kv (source_string d) d.target h p.source_lacks p.source_trimmed
              p.target_trimmed)
            (mount_of-source_string d.target d p))
    ]
