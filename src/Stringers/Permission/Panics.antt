-- ===== src/Stringers/Permission/Panics.antt =====
-- Where the parser of a rule runs out of parts.
use rio.Prelude.{
  Text, str, has_prefix, ◌≡◌, ◌↔◌, refl, All, true, Bool-cases, inl, inr, arith, List, [], ◌∷◌,
}
use rio.Api.Service.{Permission}
use rio.Stringers.Kv.{Kv}
use rio.Stringers.Permission.{Parsed, fields, filter_url, of_parts, parse_perm}

abbrev pub AreUrls : List Text → Type 0
AreUrls parts = All (λ part. has_prefix part (str "url=") ≡ true) parts

filter_url-AreUrls : (parts : List Text) → AreUrls parts → filter_url parts ≡ []
unfolding filter_url
filter_url-AreUrls [] h = refl
filter_url-AreUrls (part ∷ parts) (u, h) = rw u (filter_url-AreUrls parts h)

AreUrls-of_filter_url : (parts : List Text) → filter_url parts ≡ [] → AreUrls parts
unfolding filter_url
AreUrls-of_filter_url [] e = tt
AreUrls-of_filter_url (part ∷ parts) e = elim (Bool-cases (has_prefix part (str "url="))) [
  | inl u ↦ (u, AreUrls-of_filter_url parts (ground (arith, u)))
  | inr other ↦ absurd (ground (arith, other))
]

of_parts-panicked :
    (kv : Kv) (parts : List Text) (result : Permission)
    → of_parts kv parts result ≡ Parsed.panicked
    → parts ≡ []
unfolding of_parts
of_parts-panicked kv [] result h = refl
of_parts-panicked kv (a ∷ []) result h = absurd (cc)
of_parts-panicked kv (a ∷ b ∷ []) result h = absurd (cc)
of_parts-panicked kv (a ∷ b ∷ c ∷ []) result h = absurd (cc)
of_parts-panicked kv (a ∷ b ∷ c ∷ d ∷ more) result h = absurd (cc)

-- Parsing a rule panics exactly where each word of it is a URL.
pub parse_perm-panicked :
    (kv : Kv) (perm : Text) → (parse_perm kv perm ≡ Parsed.panicked) ↔ AreUrls (fields perm)
unfolding parse_perm of_parts
parse_perm-panicked kv perm = (
  λ h. AreUrls-of_filter_url (fields perm) (of_parts-panicked kv (filter_url (fields perm)) _ h),
  λ h. rw (filter_url-AreUrls (fields perm) h) refl,
)
