-- ===== src/Tests/Forms.antt =====
-- String forms.
use rio.Prelude.{
  false, List, text_eq, text_eq_iff, any, split_on, Bool, ◌&&◌, trim_prefix, has_prefix, ◌↔◌, Text,
  str, ℕ, ◌≡◌, refl, arith, true, inl, inr, some, [], ◌∷◌, ◌++◌, map, if◌then◌else◌, ◌==◌, Lacks,
  sym, IsSubset-refl,
}
use mathlib.Core.Option.{some-injective}
use rio.Prelude.Sort.{sort, insert_sorted, text_leb}
use rio.Stringers.Permission.Laws.{IsRule, IsStringsEqual, parse_permission-permission_string}
use rio.Api.Service.{Permission, Volume, EnvVar}
use rio.Stringers.Kv.{Kv, IsKv, is_trimmed, lower_byte}
use rio.Stringers.Env.{
  IsPrintable, parse_env, env_string, value_string, key_suffix, parse_env-env_string,
}
use rio.Stringers.Permission.{
  Parsed, parse_perm, parse_permission, fields, filter_url, of_parts, trim_space, join, pieces,
  is_space_2, is_space_3, permission_string, verbs_string, read_verbs, url_of, assign_verbs,
  assign_api_group_resource,
}
use rio.Stringers.Permission.Panics.{AreUrls, parse_perm-panicked}
use rio.Stringers.Volume.{parse_volume, volume_string, mount_string}
use rio.Stringers.Volume.Laws
use rio.Stringers.Volume.Laws.{without_options, parse_volume-volume_string}

-- kv.Split without the trimming.
abbrev pub split_first : Text → ℕ → Text × Text
split_first [] c = ([], [])
split_first (d ∷ s) c = let (a, b) = split_first s c in if d == c then ([], s) else (d ∷ a, b)

abbrev pub first_split : Kv
first_split = record { split = split_first; split_map = map (λ part. split_first part b'=') }

split_first-at : (c : ℕ) (a b : Text) → Lacks c a → split_first (a ++ (c ∷ b)) c ≡ (a, b)
split_first-at c [] b l = ground arith
split_first-at c (d ∷ a) b (n, l) = ground (arith, split_first-at c a b l)

split_first-none : (c : ℕ) (a : Text) → Lacks c a → split_first a c ≡ (a, [])
split_first-none c [] l = refl
split_first-none c (d ∷ a) (n, l) = ground (arith, split_first-none c a l)

pub first_split-IsKv : IsKv first_split
first_split-IsKv = record {
  split_at = λ c a b l t u. split_first-at c a b l;
  split_none = λ c a l t. split_first-none c a l;
  split_map_only = λ parts. IsSubset-refl (map (λ part. split_first part b'=') parts);
}

abbrev from_secret : EnvVar
from_secret = record {
  name = str "PASSWORD";
  value = [];
  secret_name = str "db";
  config_map_name = [];
  key = str "pw";
}

from_secret-IsPrintable : IsPrintable from_secret
unfolding str env_string value_string key_suffix
from_secret-IsPrintable = record {
  kind = inr (
      inl (record {
        no_config = refl;
        path = record { named = refl; lacks = ground arith; trimmed = refl; key_trimmed = refl };
      }));
  lacks = ground arith;
  trimmed = refl;
  value_trimmed = refl;
}

parse_env-env_string_example :
    parse_env first_split (env_string from_secret)
    ≡ record from_secret { value = value_string from_secret }
parse_env-env_string_example =
    parse_env-env_string first_split first_split-IsKv from_secret from_secret-IsPrintable

-- A volume that persists, on a directory of the host.
abbrev volume : Volume
volume = record {
  name = [];
  path = str "/data";
  host_path = str "/var";
  host_path_type = some (str "Directory");
  persistent = true;
}

volume-IsPrintable : Laws.IsPrintable volume
unfolding str mount_string
volume-IsPrintable = record {
  source_lacks = ground arith;
  path_lacks = λ e. ground arith;
  mount_lacks = ground arith;
  source_trimmed = refl;
  path_trimmed = refl;
  type_lacks = λ t e. lacks_of t e;
  type_trimmed = λ t e. trimmed_of t e;
}
  where
    lacks_of : (t : Text) → volume.host_path_type ≡ some t → Lacks 44 t
    lacks_of t e = rw (sym (some-injective _ _ e)) (ground arith)

    trimmed_of : (t : Text) → volume.host_path_type ≡ some t → is_trimmed t ≡ true
    trimmed_of t e = rw (sym (some-injective _ _ e)) refl

volume-IsTold : Laws.IsTold volume
unfolding str has_prefix
volume-IsTold = Laws.IsTold.by_host_path refl refl refl

parse_volume-volume_string_example :
    parse_volume first_split (map lower_byte) (volume_string volume) ≡ some (without_options volume)
parse_volume-volume_string_example =
    parse_volume-volume_string first_split (map lower_byte) volume first_split-IsKv
      (λ s ascii. refl) volume-IsPrintable volume-IsTold

parse_perm-panicked_example :
    (parse_perm first_split (str "url=/metrics") ≡ Parsed.panicked)
    ↔ AreUrls (fields (str "url=/metrics"))
parse_perm-panicked_example = parse_perm-panicked first_split (str "url=/metrics")

-- The white space is that of Unicode: a no-break space, an ideographic space and a line feed.
fields_of_unicode :
    fields (b'\n' ∷ b'a' ∷ 0xc2 ∷ 0xa0 ∷ b'b' ∷ b'c' ∷ 0xe3 ∷ 0x80 ∷ 0x80 ∷ [])
    ≡ str "a" ∷ str "bc" ∷ []
unfolding fields is_space_2 is_space_3 str
fields_of_unicode = refl

trim_space_of_unicode :
    trim_space (0xc2 ∷ 0x85 ∷ b'a' ∷ 0xc2 ∷ 0xa0 ∷ b'b' ∷ 0xe3 ∷ 0x80 ∷ 0x80 ∷ b' ' ∷ [])
    ≡ b'a' ∷ 0xc2 ∷ 0xa0 ∷ b'b' ∷ []
unfolding trim_space is_space_2 is_space_3
trim_space_of_unicode = refl

-- A rule for a URL alone, which is not on a resource of the cluster.
url_alone : parse_permission first_split (str "url=/metrics") ≡ Parsed.panicked
unfolding parse_permission parse_perm has_prefix trim_prefix trim_space fields filter_url of_parts
    is_space_2 is_space_3 str
url_alone = refl

abbrev same_texts : List Text → List Text → Bool
same_texts [] [] = true
same_texts (a ∷ more) (b ∷ bs) = text_eq a b && same_texts more bs
same_texts _ _ = false

same_texts-IsStringsEqual : IsStringsEqual same_texts
same_texts-IsStringsEqual [] [] h = refl
same_texts-IsStringsEqual [] (b ∷ bs) h = absurd (cc)
same_texts-IsStringsEqual (a ∷ more) [] h = absurd (cc)
same_texts-IsStringsEqual (a ∷ more) (b ∷ bs) h =
    ground (arith, text_eq_iff a b, same_texts-IsStringsEqual more bs)

abbrev get_pod : Permission
get_pod = record {
  role = [];
  verbs = str "get" ∷ str "update" ∷ [];
  api_group = [];
  resource = str "pods";
  url = [];
  resource_name = str "web";
}

get_pod-IsRule : IsRule same_texts get_pod
unfolding str text_eq sort insert_sorted text_leb join permission_string verbs_string has_prefix any
    pieces is_space_2 is_space_3
get_pod-IsRule = record {
  first = str "get";
  others = str "update" ∷ [];
  has_verbs = refl;
  verbs = (
    (record { filled = refl; solid = refl }, ground arith),
    ((record { filled = refl; solid = refl }, ground arith), tt),
  );
  sorted = refl;
  not_read = refl;
  not_named_read = refl;
  not_named_write = refl;
  no_role = refl;
  no_url = refl;
  group_lacks = tt;
  group_trimmed = refl;
  resource_trimmed = refl;
  resource = refl;
  plain_verbs = record { word = record { filled = refl; solid = refl }; no_url = refl };
  plain_target = record { word = record { filled = refl; solid = refl }; no_url = refl };
  plain_name = inr (record { word = record { filled = refl; solid = refl }; no_url = refl });
  bare = record { no_role = refl; no_rule = refl };
}

parse_permission-permission_string_example :
    parse_permission first_split (permission_string same_texts get_pod) ≡ Parsed.ok get_pod
parse_permission-permission_string_example =
    parse_permission-permission_string same_texts first_split get_pod same_texts-IsStringsEqual
      first_split-IsKv get_pod-IsRule

-- With the verbs for reading and a name, the resource is taken for a verb.
read_with_name :
    parse_permission first_split
      (permission_string same_texts (record get_pod { verbs = read_verbs }))
    ≡ Parsed.ok
        (record get_pod { verbs = str "pods" ∷ []; resource = str "web"; resource_name = [] })
unfolding str text_eq sort insert_sorted text_leb join permission_string verbs_string has_prefix any
    parse_permission parse_perm trim_prefix trim_space fields filter_url url_of of_parts split_on
    assign_verbs assign_api_group_resource is_space_2 is_space_3
read_with_name = refl
