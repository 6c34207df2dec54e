-- ===== src/Stringers/Volume.antt =====
-- pkg/riofile/stringers/volume.go: volumes. strings.ToLower is a parameter.
pub mod Laws
use rio.Prelude.{
  Text, str, is_empty, text_eq, has_prefix, split_on, any, not, ◌&&◌, Bool, true, false, Option,
  none, some, List, [], ◌∷◌, ◌++◌, if◌then◌else◌,
}
use rio.Prelude.Maps.{lookup}
use rio.Api.Service.{Volume}
use rio.Stringers.Kv.{Kv}

abbrev pub host_path_types : List (Text × Text)
host_path_types =
    (str "directoryorcreate", str "DirectoryOrCreate")
    ∷ (str "directory", str "Directory")
    ∷ (str "fileorcreate", str "FileOrCreate")
    ∷ (str "file", str "File")
    ∷ (str "socket", str "Socket")
    ∷ (str "chardevice", str "CharDevice")
    ∷ (str "blockdevice", str "BlockDevice")
    ∷ []

-- The value that strconv.ParseBool returns, which is false on an error.
unfoldable pub parse_bool : Text → Bool
parse_bool s =
    any (text_eq s) (str "1" ∷ str "t" ∷ str "T" ∷ str "true" ∷ str "TRUE" ∷ str "True" ∷ [])

-- The volume before its options.
unfoldable pub mounted : Text → Text → Volume
mounted name path =
    let volume : Volume = record {
      name = [];
      path = [];
      host_path = [];
      host_path_type = none;
      persistent = false;
    } in
    if is_empty path
    then record volume { path = name }
    else if has_prefix name (str "/")
    then record volume { path = path; host_path = name }
    else record volume { path = path; name = name }

module _ (kv : Kv) (to_lower : Text → Text) where
  abbrev pub named_as_host_path : Volume → Volume
  named_as_host_path volume =
      if is_empty volume.host_path && not (is_empty volume.name)
      then record volume { host_path = volume.name; name = [] }
      else volume

  -- A round of the loop over the options.
  unfoldable pub apply_option : Text → Text → Volume → Option Volume
  apply_option k v volume =
      if text_eq (to_lower k) (str "persistent")
      then some (record volume { persistent = parse_bool v })
      else if text_eq (to_lower k) (str "hosttype")
      then elim (lookup (to_lower v) host_path_types) [
        | none ↦ none
        | some t ↦ some (record (named_as_host_path volume) { host_path_type = some t })
      ]
      else some volume

  unfoldable pub apply_options : List (Text × Text) → Volume → Option Volume
  apply_options [] volume = some volume
  apply_options ((k, v) ∷ options) volume = elim (apply_option k v volume) [
    | none ↦ none
    | some changed ↦ apply_options options changed
  ]

  unfoldable pub parse_parts : List Text → Option Volume
  parse_parts [] = none
  parse_parts (mount ∷ options) =
      let (name, path) = kv.split mount b':' in
      apply_options (kv.split_map options) (mounted name path)

  unfoldable pub parse_volume : Text → Option Volume
  parse_volume v = parse_parts (split_on b',' v)

  unfoldable pub parse_volumes : List Text → Option (List Volume)
  parse_volumes [] = some []
  parse_volumes (v ∷ vols) =
      let rest = parse_volumes vols in
      elim (parse_volume v) [
        | none ↦ none
        | some volume ↦ elim rest [ none ↦ none | some volumes ↦ some (volume ∷ volumes) ]
      ]

-- What is mounted, and where.
unfoldable pub mount_string : Volume → Text
mount_string v =
    if not (is_empty v.name)
    then v.name ++ (b':' ∷ v.path)
    else if not (is_empty v.host_path)
    then v.host_path ++ (b':' ∷ v.path)
    else v.path

-- The options that are printed, each behind a comma.
unfoldable pub printed_options : Volume → List Text
printed_options v =
    let persistent = if v.persistent then str "persistent" ∷ [] else [] in
    elim v.host_path_type as (λ t. List Text) [
      | some t ↦ (str "hostPathType=" ++ t) ∷ persistent
      | none ↦
          if not (is_empty v.host_path) && not (has_prefix v.host_path (str "/"))
          then str "hostPathType=DirectoryOrCreate" ∷ persistent
          else persistent
    ]

unfoldable pub write_options : List Text → Text
write_options [] = []
write_options (option ∷ options) = b',' ∷ (option ++ write_options options)

unfoldable pub volume_string : Volume → Text
volume_string v = mount_string v ++ write_options (printed_options v)
