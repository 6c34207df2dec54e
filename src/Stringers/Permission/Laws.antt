-- ===== src/Stringers/Permission/Laws.antt =====
-- A rule that is printed and parsed.
use rio.Prelude.{
  Text, str, is_empty, text_eq, any, not, ◌||◌, ◌==◌, ◌≡◌, refl, sym, ap, ℕ, arith, ◌∙◌, true,
  false, Bool, Bool-cases, inl, inr, ◌⊎◌, Lacks, List, [], ◌∷◌, ◌++◌, if◌then◌else◌,
}
use mathlib.Core.Path.{subst}
use mathlib.Core.List.{append_assoc, append-nil}
use rio.Prelude.Sort.{sort}
use rio.Api.Service.{Permission}
use rio.Stringers.Kv.{Kv, IsKv, is_trimmed}
use rio.Stringers.Permission.{
  Parsed, no_permission, read_verbs, write_verbs, permission_string, verbs_string, parse_permission,
  assign_verbs, assign_api_group_resource, join,
}
use rio.Stringers.Permission.Bare.{IsPlainWord, IsBare, parse_two, parse_three}
use rio.Stringers.Permission.Words.{IsWord, AreVerbs, split_on-join, map-trim_space}

-- The word for the verbs, and the group with the resource.
abbrev pub verbs_word : (List Text → List Text → Bool) → Permission → Text
verbs_word strings_equal p =
    if strings_equal write_verbs p.verbs then str "write" else join p.verbs (str ",")

abbrev pub has_group : Permission → Bool
has_group p =
    not (is_empty p.api_group) || (any (λ c. c == b'/') p.resource || text_eq p.resource (str "*"))

abbrev pub target_word : Permission → Text
target_word p = (if has_group p then p.api_group ++ str "/" else []) ++ p.resource

-- A rule with verbs other than those for reading, a resource, and no URL.
pub record IsRule (strings_equal : List Text → List Text → Bool) (p : Permission) : Type 0 where
  pub first : Text
  pub others : List Text
  pub has_verbs : p.verbs ≡ first ∷ others
  pub verbs : AreVerbs (first ∷ others)
  pub sorted : sort p.verbs ≡ p.verbs
  pub not_read : strings_equal read_verbs p.verbs ≡ false
  pub not_named_read : text_eq (join p.verbs (str ",")) (str "read") ≡ false
  pub not_named_write : text_eq (join p.verbs (str ",")) (str "write") ≡ false
  pub no_role : p.role ≡ []
  pub no_url : p.url ≡ []
  pub group_lacks : Lacks b'/' p.api_group
  pub group_trimmed : is_trimmed p.api_group ≡ true
  pub resource_trimmed : is_trimmed p.resource ≡ true
  pub resource : is_empty p.resource ≡ false
  pub plain_verbs : IsPlainWord (verbs_word strings_equal p)
  pub plain_target : IsPlainWord (target_word p)
  pub plain_name : (p.resource_name ≡ []) ⊎ IsPlainWord p.resource_name
  pub bare : IsBare (permission_string strings_equal p)

-- What StringsEqual says.
abbrev pub IsStringsEqual : (List Text → List Text → Bool) → Type 0
IsStringsEqual strings_equal = (a b : List Text) → strings_equal a b ≡ true → a ≡ b

assign_write : assign_verbs (str "write") ≡ write_verbs
unfolding assign_verbs text_eq str
assign_write = refl

write_space : str "write " ≡ str "write" ++ str " "
unfolding str
write_space = refl

Lacks-of_any : (c : ℕ) (s : Text) → any (λ d. d == c) s ≡ false → Lacks c s
unfolding any
Lacks-of_any c [] h = tt
Lacks-of_any c (d ∷ s) h = (ground arith, Lacks-of_any c s (ground arith))

nil_of_is_empty : (s : Text) → is_empty s ≡ true → s ≡ []
nil_of_is_empty [] h = refl
nil_of_is_empty (c ∷ s) h = absurd (cc)

-- A resource without a group that is printed.
record IsLone (p : Permission) : Type 0 where
  no_group : p.api_group ≡ []
  lacks : Lacks b'/' p.resource

IsLone-of_has_group : (p : Permission) → has_group p ≡ false → IsLone p
IsLone-of_has_group p h = record {
  no_group = nil_of_is_empty p.api_group (ground arith);
  lacks = Lacks-of_any b'/' p.resource (ground arith);
}

module _ (strings_equal : List Text → List Text → Bool) (equal : IsStringsEqual strings_equal)
    (p : Permission) (h : IsRule strings_equal p) where
  assign_verbs-word : assign_verbs (verbs_word strings_equal p) ≡ p.verbs
  unfolding assign_verbs
  assign_verbs-word = elim (Bool-cases (strings_equal write_verbs p.verbs)) [
    | inl write ↦ rw write (assign_write ∙ equal write_verbs p.verbs write)
    | inr other ↦ rw other (
        rw h.not_named_read (
          rw h.not_named_write (
            rw h.has_verbs (
              rw (split_on-join h.first h.others h.verbs)
                (map-trim_space (h.first ∷ h.others) h.verbs)))))
  ]

  verbs_string-word : verbs_string strings_equal p.verbs ≡ verbs_word strings_equal p ++ str " "
  unfolding verbs_string
  verbs_string-word = elim (Bool-cases (strings_equal write_verbs p.verbs)) [
    | inl write ↦ rw write write_space
    | inr other ↦ rw other (rw h.not_read (rw h.has_verbs refl))
  ]

  assign-target_word :
      (kv : Kv) (r : Permission)
      → IsKv kv
      → r.api_group ≡ []
      → assign_api_group_resource kv (target_word p) r
        ≡ record r { api_group = p.api_group; resource = p.resource }
  unfolding assign_api_group_resource str
  assign-target_word kv r k e = elim (Bool-cases (has_group p)) [
    | inl group ↦ rw group (
        rw (append_assoc p.api_group (b'/' ∷ []) p.resource) (
          rw
            (k.split_at b'/' p.api_group p.resource h.group_lacks h.group_trimmed
              h.resource_trimmed)
            (rw h.resource refl)))
    | inr none ↦
        let lone = IsLone-of_has_group p none in
        rw none (
          rw (k.split_none b'/' p.resource lone.lacks h.resource_trimmed)
            (ap (λ g. record r { api_group = g; resource = p.resource }) (e ∙ sym lone.no_group)))
  ]

  permission_string-words :
      permission_string strings_equal p
      ≡ verbs_word strings_equal p
        ++ (b' '
            ∷ (target_word p ++ (if is_empty p.resource_name then [] else b' ' ∷ p.resource_name)))
  unfolding permission_string str
  permission_string-words =
      let group = if has_group p then p.api_group ++ str "/" else [] in
      let name = if is_empty p.resource_name then [] else str " " ++ p.resource_name in
      rw h.no_role (
        rw h.no_url (
          rw h.sorted (
            rw verbs_string-word (
              rw (append-nil name) (
                append_assoc (verbs_word strings_equal p) (str " ") (group ++ (p.resource ++ name))
                ∙ ap (λ t. verbs_word strings_equal p ++ (b' ' ∷ t))
                    (sym (append_assoc group p.resource name)))))))

  words_without_name :
      p.resource_name ≡ []
      → permission_string strings_equal p ≡ verbs_word strings_equal p ++ (b' ' ∷ target_word p)
  words_without_name e =
      permission_string-words
      ∙ rw e (ap (λ t. verbs_word strings_equal p ++ (b' ' ∷ t)) (append-nil (target_word p)))

  words_with_name :
      is_empty p.resource_name ≡ false
      → permission_string strings_equal p
        ≡ verbs_word strings_equal p ++ (b' ' ∷ (target_word p ++ (b' ' ∷ p.resource_name)))
  words_with_name e = permission_string-words ∙ rw e refl

  assigned :
      (kv : Kv)
      → IsKv kv
      → assign_api_group_resource kv
          (target_word p)
          (record no_permission { verbs = assign_verbs (verbs_word strings_equal p) })
        ≡ record no_permission { verbs = p.verbs; api_group = p.api_group; resource = p.resource }
  assigned kv k = assign-target_word kv _ k refl ∙ rw assign_verbs-word refl

  IsBare-words : (s : Text) → permission_string strings_equal p ≡ s → IsBare s
  IsBare-words s e = subst IsBare e h.bare

-- Parsing the form of a rule gives the rule back, if it has verbs other than those for reading, which
-- are sorted words, a resource, and no URL, and its parts hold no separator.
pub parse_permission-permission_string :
    (strings_equal : List Text → List Text → Bool) (kv : Kv) (p : Permission)
    → IsStringsEqual strings_equal
    → IsKv kv
    → IsRule strings_equal p
    → parse_permission kv (permission_string strings_equal p) ≡ Parsed.ok p
parse_permission-permission_string strings_equal kv p equal k h = elim h.plain_name [
  | inl e ↦
      let words = words_without_name strings_equal equal p h e in
      rw words (
        parse_two kv (verbs_word strings_equal p) (target_word p) h.plain_verbs h.plain_target
          (IsBare-words strings_equal equal p h _ words)
        ∙ rw (assigned strings_equal equal p h kv k) (ap Parsed.ok (cc (h.no_role, h.no_url, e))))
  | inr name ↦
      let words = words_with_name strings_equal equal p h (not_empty p.resource_name name.word) in
      rw words (
        parse_three kv (verbs_word strings_equal p) (target_word p) h.plain_verbs h.plain_target
          p.resource_name name (IsBare-words strings_equal equal p h _ words)
        ∙ rw (assigned strings_equal equal p h kv k) (ap Parsed.ok (cc (h.no_role, h.no_url))))
]
  where
    not_empty : (w : Text) → IsWord w → is_empty w ≡ false
    not_empty [] h = absurd (cc (h.filled))
    not_empty (c ∷ w) h = refl
