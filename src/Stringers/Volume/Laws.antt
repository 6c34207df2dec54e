-- ===== src/Stringers/Volume/Laws.antt =====
-- What is left of a volume that is printed and parsed.
use rio.Prelude.{
  none, Text, str, is_empty, text_eq, has_prefix, split_on, Lacks, split_on-Lacks, split_on-append,
  ◌≡◌, refl, All, Member, map, true, false, some, List, [], ◌∷◌, ◌++◌, ◌⊎◌, inl, inr, not, ap, sym,
  ◌∙◌, arith, Option-cases, All-map, Bool, if◌then◌else◌, has_prefix, ◌&&◌, any,
}
use mathlib.Core.List.{append-nil}
use rio.Api.Service.{Volume}
use rio.Stringers.Kv.{Kv, IsKv, IsToLower, is_trimmed}
use rio.Stringers.Volume.{
  parse_volume, parse_parts, apply_options, apply_option, mounted, mount_string, printed_options,
  write_options, volume_string, parse_bool,
}

split_on-options :
    (mount : Text) (options : List Text)
    → Lacks b',' mount
    → All (Lacks b',') options
    → split_on b',' (mount ++ write_options options) ≡ mount ∷ options
unfolding write_options
split_on-options mount [] m os = rw (append-nil mount) (split_on-Lacks b',' mount m)
split_on-options mount (option ∷ options) m (o, os) =
    split_on-append b',' mount _ m
    ∙ ap (λ parts. mount ∷ parts) (split_on-options option options o os)

-- The key of a type, or the word for a volume that persists.
abbrev IsIgnored : Text × Text → Type 0
IsIgnored e = (e.0 ≡ str "hostPathType") ⊎ ((e.0 ≡ str "persistent") × (e.1 ≡ []))

module _ (kv : Kv) (to_lower : Text → Text) (low : IsToLower to_lower) where
  lower_type : to_lower (str "hostPathType") ≡ str "hostpathtype"
  unfolding str
  lower_type = low (str "hostPathType") (ground arith)

  lower_persistent : to_lower (str "persistent") ≡ str "persistent"
  unfolding str
  lower_persistent = low (str "persistent") (ground arith)

  apply_option-ignored :
      (e : Text × Text) (volume : Volume)
      → IsIgnored e
      → volume.persistent ≡ false
      → apply_option kv to_lower e.0 e.1 volume ≡ some volume
  unfolding apply_option text_eq str parse_bool any
  apply_option-ignored e volume (inl k) p = rw (k, lower_type) refl
  apply_option-ignored e volume (inr (k, v)) p =
      rw (k, v, lower_persistent) (ap (λ b. some (record volume { persistent = b })) (sym p))

  apply_options-ignored :
      (options : List (Text × Text)) (volume : Volume)
      → All IsIgnored options
      → volume.persistent ≡ false
      → apply_options kv to_lower options volume ≡ some volume
  unfolding apply_options
  apply_options-ignored [] volume os p = refl
  apply_options-ignored (e ∷ options) volume (o, os) p =
      rw (apply_option-ignored e volume o p, apply_options)
        (apply_options-ignored options volume os p)

-- The name of what is mounted, if there is one.
abbrev pub source : Volume → Text
source v = if is_empty v.name then v.host_path else v.name

-- The volume with this source and this path, and nothing else.
abbrev pub printed_mount : Volume → Volume
printed_mount v = if is_empty (source v) then mounted v.path [] else mounted (source v) v.path

-- The parts of a volume do not hold the separators, and the ends of its form are no white space.
pub record IsPrintable (v : Volume) : Type 0 where
  pub source_lacks : Lacks b':' (source v)
  pub path_lacks : is_empty (source v) ≡ true → Lacks b':' v.path
  pub mount_lacks : Lacks b',' (mount_string v)
  pub source_trimmed : is_trimmed (source v) ≡ true
  pub path_trimmed : is_trimmed v.path ≡ true
  pub type_lacks : (t : Text) → v.host_path_type ≡ some t → Lacks b',' t
  pub type_trimmed : (t : Text) → v.host_path_type ≡ some t → is_trimmed t ≡ true

abbrev parts_of : Text → Text → Text × Text
parts_of s path = if is_empty s then (path, []) else (s, path)

mount_string-source :
    (v : Volume)
    → mount_string v ≡ (if is_empty (source v) then v.path else source v ++ (b':' ∷ v.path))
unfolding mount_string
mount_string-source v = ground arith

split-source :
    (kv : Kv) (s path : Text)
    → IsKv kv
    → Lacks b':' s
    → (is_empty s ≡ true → Lacks b':' path)
    → is_trimmed s ≡ true
    → is_trimmed path ≡ true
    → kv.split (if is_empty s then path else s ++ (b':' ∷ path)) b':' ≡ parts_of s path
split-source kv [] path h s p t u = h.split_none b':' path (p refl) u
split-source kv (c ∷ s) path h l p t u = h.split_at b':' (c ∷ s) path l t u

split-mount_string :
    (kv : Kv) (v : Volume)
    → IsKv kv
    → IsPrintable v
    → kv.split (mount_string v) b':' ≡ parts_of (source v) v.path
split-mount_string kv v h p = rw (mount_string-source v) (
    split-source kv (source v) v.path h p.source_lacks p.path_lacks p.source_trimmed p.path_trimmed)

mounted-persistent : (name path : Text) → (mounted name path).persistent ≡ false
unfolding mounted
mounted-persistent name path = ground arith

-- A part without a comma that the parser ignores.
abbrev IsIdle : Kv → Text → Type 0
IsIdle kv part = Lacks b',' part × IsIgnored (kv.split part b'=')

type-Lacks : (t : Text) → Lacks b',' t → Lacks b',' (str "hostPathType=" ++ t)
unfolding str
type-Lacks t l = ground arith

type-IsIdle :
    (kv : Kv) (t : Text)
    → IsKv kv
    → Lacks b',' t
    → is_trimmed t ≡ true
    → IsIdle kv (str "hostPathType=" ++ t)
unfolding str
type-IsIdle kv t h l u = (
  type-Lacks t l,
  inl (ap (λ parts. parts.0) (h.split_at b'=' (str "hostPathType") t (ground arith) refl u)),
)

persistent-IsIdle : (kv : Kv) → IsKv kv → IsIdle kv (str "persistent")
unfolding str
persistent-IsIdle kv h =
    let parts = h.split_none b'=' (str "persistent") (ground arith) refl in
    (ground arith, inr (ap (λ parts. parts.0) parts, ap (λ parts. parts.1) parts))

default-IsIdle : (kv : Kv) → IsKv kv → IsIdle kv (str "hostPathType=DirectoryOrCreate")
unfolding str
default-IsIdle kv h = type-IsIdle kv (str "DirectoryOrCreate") h (ground arith) refl

All-if :
    (P : Text → Type 0) (b : Bool) (xs ys : List Text)
    → All P xs
    → All P ys
    → All P (if b then xs else ys)
All-if P true xs ys h k = h
All-if P false xs ys h k = k

printed_options-AreIdle :
    (kv : Kv) (v : Volume) → IsKv kv → IsPrintable v → All (IsIdle kv) (printed_options v)
unfolding printed_options
printed_options-AreIdle kv v h p =
    let last =
      All-if (IsIdle kv) v.persistent (str "persistent" ∷ []) [] (persistent-IsIdle kv h, tt) tt in
    elim (Option-cases v.host_path_type) [
      | inr (t, e) ↦
          rw (e, printed_options) (type-IsIdle kv t h (p.type_lacks t e) (p.type_trimmed t e), last)
      | inl e ↦
          rw (e, printed_options)
            (All-if (IsIdle kv)
              (not (is_empty v.host_path) && not (has_prefix v.host_path (str "/")))
              (str "hostPathType=DirectoryOrCreate"
                ∷ (if v.persistent then str "persistent" ∷ [] else []))
              (if v.persistent then str "persistent" ∷ [] else []) (default-IsIdle kv h, last) last)
    ]

IsIgnored-of_Member :
    (kv : Kv) (options : List Text) (e : Text × Text)
    → All (IsIdle kv) options
    → Member e (map (λ part. kv.split part b'=') options)
    → IsIgnored e
IsIgnored-of_Member kv [] e h m = elim m [ ]
IsIgnored-of_Member kv (option ∷ options) e (idle, h) (inl same) = rw same idle.1
IsIgnored-of_Member kv (option ∷ options) e (idle, h) (inr m) = IsIgnored-of_Member kv options e h m

split_map-IsIgnored :
    (kv : Kv) (options : List Text)
    → IsKv kv
    → All (IsIdle kv) options
    → All IsIgnored (kv.split_map options)
split_map-IsIgnored kv options h idle =
    All-map (kv.split_map options) (λ e m. IsIgnored-of_Member kv options e idle m)
      (h.split_map_only options)

mounted-parts_of :
    (s path : Text)
    → mounted (parts_of s path).0 (parts_of s path).1
      ≡ (if is_empty s then mounted path [] else mounted s path)
mounted-parts_of [] path = refl
mounted-parts_of (c ∷ s) path = refl

parse_volume-mounted :
    (kv : Kv) (to_lower : Text → Text) (v : Volume)
    → IsKv kv
    → IsToLower to_lower
    → IsPrintable v
    → parse_volume kv to_lower (volume_string v) ≡ some (printed_mount v)
unfolding parse_volume volume_string parse_parts mounted
parse_volume-mounted kv to_lower v h low p =
    let idle = printed_options-AreIdle kv v h p in
    rw
      (split_on-options (mount_string v) (printed_options v) p.mount_lacks
        (All-map (printed_options v) (λ part i. i.0) idle))
      (rw (split-mount_string kv v h p, parse_parts)
        (apply_options-ignored kv to_lower low (kv.split_map (printed_options v)) _
            (split_map-IsIgnored kv (printed_options v) h idle) (mounted-persistent _ _)
          ∙ ap some (mounted-parts_of (source v) v.path)))

-- The volumes that a Riofile can tell apart: one with a name, one of a directory or file of the host
-- by an absolute path, and one with neither. Each is mounted at a path.
pub data IsTold (v : Volume) : Type 0 where
  by_name :
      is_empty v.name ≡ false
      → has_prefix v.name (str "/") ≡ false
      → v.host_path ≡ []
      → is_empty v.path ≡ false
      → IsTold v
  by_host_path :
      v.name ≡ [] → has_prefix v.host_path (str "/") ≡ true → is_empty v.path ≡ false → IsTold v
  by_path : v.name ≡ [] → v.host_path ≡ [] → IsTold v

-- What the string form does not keep.
abbrev pub without_options : Volume → Volume
without_options v = record v { host_path_type = none; persistent = false }

printed_mount-IsTold : (v : Volume) → IsTold v → printed_mount v ≡ without_options v
unfolding mounted
printed_mount-IsTold v (by_name named relative host mounts) = ground arith
printed_mount-IsTold v (by_host_path name absolute mounts) = ground arith
printed_mount-IsTold v (by_path name host) = ground arith

-- Parsing the form of a volume whose parts hold no separator gives the volume back but for its host
-- path type and its persistence, if it has a name that does not begin with a slash and no host path,
-- or an absolute host path and no name, each with a path, or neither.
pub parse_volume-volume_string :
    (kv : Kv) (to_lower : Text → Text) (v : Volume)
    → IsKv kv
    → IsToLower to_lower
    → IsPrintable v
    → IsTold v
    → parse_volume kv to_lower (volume_string v) ≡ some (without_options v)
parse_volume-volume_string kv to_lower v h low p told =
    parse_volume-mounted kv to_lower v h low p ∙ ap some (printed_mount-IsTold v told)
