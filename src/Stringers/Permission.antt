-- ===== src/Stringers/Permission.antt =====
-- pkg/riofile/stringers/permission.go: the rules and roles of a Riofile. StringsEqual of package
-- wrangler is a parameter.
pub mod Panics
pub mod Pieces
pub mod Words
pub mod Bare
pub mod Laws
use rio.Prelude.{
  Text, str, is_empty, text_eq, has_prefix, trim_prefix, split_on, any, ℕ, ◌==◌, leb, Bool, true,
  false, not, ◌&&◌, ◌||◌, is_cons, List, [], ◌∷◌, ◌++◌, map, if◌then◌else◌,
}
use rio.Prelude.Sort.{sort}
use rio.Api.Service.{Permission}
use rio.Stringers.Kv.{Kv}

abbrev pub read_verbs : List Text
read_verbs = str "get" ∷ str "list" ∷ str "watch" ∷ []

abbrev pub write_verbs : List Text
write_verbs =
    str "create"
    ∷ str "delete"
    ∷ str "get"
    ∷ str "list"
    ∷ str "patch"
    ∷ str "update"
    ∷ str "watch"
    ∷ []

-- The white space of package unicode, in UTF-8: of one byte, of two (U+0085 and U+00A0) and of
-- three (U+1680, U+2000 to U+200A, U+2028, U+2029, U+202F, U+205F and U+3000).
abbrev is_space : ℕ → Bool
is_space c = (c == 32) || (leb 9 c && leb c 13)

unfoldable pub is_space_2 : ℕ → ℕ → Bool
is_space_2 c d = (c == 0xc2) && ((d == 0x85) || (d == 0xa0))

unfoldable pub is_space_3 : ℕ → ℕ → ℕ → Bool
is_space_3 c d e =
    ((c == 0xe1) && ((d == 0x9a) && (e == 0x80)))
    || (((c == 0xe2)
          && ((d == 0x80)
              && ((leb 0x80 e && leb e 0x8a) || ((e == 0xa8) || ((e == 0xa9) || (e == 0xaf))))))
        || (((c == 0xe2) && ((d == 0x81) && (e == 0x9f)))
            || ((c == 0xe3) && ((d == 0x80) && (e == 0x80)))))

-- A space, or a byte that is none.
pub data Piece : Type 0 where
  space : Text → Piece
  byte : ℕ → Piece

abbrev piece : ℕ → Piece
piece c = if is_space c then space (c ∷ []) else byte c

unfoldable pub pieces : Text → List Piece
pieces [] = []
pieces (c ∷ []) = piece c ∷ []
pieces (c ∷ d ∷ []) = elim (is_space_2 c d) [
  | true ↦ space (c ∷ d ∷ []) ∷ []
  | false ↦ piece c ∷ pieces (d ∷ [])
]
pieces (c ∷ d ∷ e ∷ s) = elim (is_space_3 c d e) [
  | true ↦ space (c ∷ d ∷ e ∷ []) ∷ pieces s
  | false ↦ elim (is_space_2 c d) [
    | true ↦ space (c ∷ d ∷ []) ∷ pieces (e ∷ s)
    | false ↦ piece c ∷ pieces (d ∷ e ∷ s)
  ]
]

prepend : ℕ → List Text → List Text
prepend c [] = (c ∷ []) ∷ []
prepend c (word ∷ words) = (c ∷ word) ∷ words

words_of : List Piece → List Text
unfolding prepend
words_of [] = []
words_of (space t ∷ ps) = words_of ps
words_of (byte c ∷ []) = (c ∷ []) ∷ []
words_of (byte c ∷ space t ∷ ps) = (c ∷ []) ∷ words_of ps
words_of (byte c ∷ byte d ∷ ps) = prepend c (words_of (byte d ∷ ps))

-- strings.Fields
unfoldable pub fields : Text → List Text
unfolding pieces words_of
fields s = words_of (pieces s)

drop_spaces : List Piece → List Piece
drop_spaces [] = []
drop_spaces (space t ∷ ps) = drop_spaces ps
drop_spaces (byte c ∷ ps) = byte c ∷ ps

drop_last_spaces : List Piece → List Piece
drop_last_spaces [] = []
drop_last_spaces (space t ∷ ps) =
    let rest = drop_last_spaces ps in if is_cons rest then space t ∷ rest else []
drop_last_spaces (byte c ∷ ps) = byte c ∷ drop_last_spaces ps

pub flatten : List Piece → Text
flatten [] = []
flatten (space t ∷ ps) = t ++ flatten ps
flatten (byte c ∷ ps) = c ∷ flatten ps

-- strings.TrimSpace
unfoldable pub trim_space : Text → Text
unfolding pieces drop_spaces drop_last_spaces flatten
trim_space s = flatten (drop_last_spaces (drop_spaces (pieces s)))

-- strings.Join
unfoldable pub join : List Text → Text → Text
join [] separator = []
join (part ∷ []) separator = part
join (part ∷ other ∷ parts) separator = part ++ (separator ++ join (other ∷ parts) separator)

-- The string form; the verbs are sorted first, in the permission itself.
module _ (strings_equal : List Text → List Text → Bool) where
  unfoldable pub verbs_string : List Text → Text
  verbs_string verbs =
      if strings_equal write_verbs verbs
      then str "write "
      else if is_cons verbs && not (strings_equal read_verbs verbs)
      then join verbs (str ",") ++ str " "
      else []

  unfoldable pub permission_string : Permission → Text
  unfolding verbs_string
  permission_string p =
      let group =
        if not (is_empty p.api_group)
          || (any (λ c. c == b'/') p.resource || text_eq p.resource (str "*"))
        then p.api_group ++ str "/"
        else [] in
      let names = if is_empty p.resource_name then [] else str " " ++ p.resource_name in
      let url = if is_empty p.url then [] else str " url=" ++ p.url in
      if is_empty p.role
      then verbs_string (sort p.verbs) ++ (group ++ (p.resource ++ (names ++ url)))
      else str "role=" ++ p.role

-- A permission, an error, or an index out of range.
pub data Parsed : Type 0 where
  ok : Permission → Parsed
  invalid panicked : Parsed

abbrev no_permission : Permission
no_permission = record {
  role = [];
  verbs = [];
  api_group = [];
  resource = [];
  url = [];
  resource_name = [];
}

-- The last of the URLs, if there is one, else what is there.
unfoldable pub url_of : List Text → Text → Text
url_of [] url = url
url_of (part ∷ parts) url =
    url_of parts (if has_prefix part (str "url=") then trim_prefix part (str "url=") else url)

unfoldable pub filter_url : List Text → List Text
filter_url [] = []
filter_url (part ∷ parts) =
    let rest = filter_url parts in if has_prefix part (str "url=") then rest else part ∷ rest

unfoldable pub assign_verbs : Text → List Text
assign_verbs input =
    if text_eq input (str "read")
    then read_verbs
    else if text_eq input (str "write")
    then write_verbs
    else map trim_space (split_on b',' input)

module _ (kv : Kv) where
  unfoldable pub assign_api_group_resource : Text → Permission → Permission
  assign_api_group_resource input result =
      let (api_group, resource) = kv.split input b'/' in
      if is_empty resource
      then record result { resource = api_group }
      else record result { api_group = api_group; resource = resource }

  -- The branches on the number of parts; the URL is in the permission.
  unfoldable pub of_parts : List Text → Permission → Parsed
  of_parts [] result = Parsed.panicked
  of_parts (input ∷ []) result =
      Parsed.ok (assign_api_group_resource input (record result { verbs = read_verbs }))
  of_parts (verbs ∷ input ∷ []) result =
      Parsed.ok (assign_api_group_resource input (record result { verbs = assign_verbs verbs }))
  of_parts (verbs ∷ input ∷ name ∷ []) result =
      Parsed.ok
        (record (assign_api_group_resource input (record result { verbs = assign_verbs verbs })) {
          resource_name = name;
        })
  of_parts (verbs ∷ input ∷ name ∷ other ∷ more) result = Parsed.invalid

  unfoldable pub parse_perm : Text → Parsed
  parse_perm perm =
      let parts = fields perm in
      of_parts (filter_url parts) (record no_permission { url = url_of parts [] })

  unfoldable pub parse_permission : Text → Parsed
  parse_permission perm =
      let rule = trim_space (trim_prefix perm (str "rule=")) in
      if has_prefix perm (str "role=")
      then Parsed.ok (record no_permission { role = trim_space (trim_prefix perm (str "role=")) })
      else if is_empty rule
      then Parsed.invalid
      else parse_perm rule
