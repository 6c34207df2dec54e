-- ===== src/RouteCommand/Patterns.antt =====
-- cli/pkg/pretty/objectmappers/strings_match.go: string matches, printed and parsed.
use rio.Prelude.{
  Text, str, ℕ, ◌==◌, is_empty, has_prefix, has_suffix, trim_suffix, Bool, false, not, ◌&&◌, ◌||◌,
  [], ◌∷◌, ◌++◌, if◌then◌else◌, ◌≡◌, refl, arith, trim_suffix-append, has_suffix-append,
  not-has_suffix-append, has_prefix-append,
}
use rio.Api.Router.{StringMatch}

unfoldable pub string_match_string : StringMatch → Text
string_match_string s =
    if not (is_empty s.exact)
    then s.exact
    else if not (is_empty s.prefix)
    then s.prefix ++ str "*"
    else if not (is_empty s.regexp)
    then str "regex(" ++ (s.regexp ++ str ")")
    else []

unfoldable pub is_regexp : Text → Bool
is_regexp s =
    (has_prefix s (str "regex(") || has_prefix s (str "regexp(")) && has_suffix s (str ")")

-- `strings.SplitN(s, separator, 2)[1]`, of a text with the separator.
unfoldable pub behind_first : ℕ → Text → Text
behind_first c [] = []
behind_first c (d ∷ s) = if d == c then s else behind_first c s

-- `str[:len(str)-1]` of a text with the end "*" is the text without it.
unfoldable pub parse_string_match : Text → StringMatch
unfolding is_regexp behind_first
parse_string_match s =
    if has_suffix s (str "*")
    then record { exact = []; prefix = trim_suffix s (str "*"); regexp = [] }
    else if is_regexp s
    then record { exact = []; prefix = []; regexp = trim_suffix (behind_first b'(' s) (str ")") }
    else record { exact = s; prefix = []; regexp = [] }

abbrev pub exactly : Text → StringMatch
exactly s = record { exact = s; prefix = []; regexp = [] }

abbrev pub prefixed_by : Text → StringMatch
prefixed_by s = record { exact = []; prefix = s; regexp = [] }

abbrev pub matching : Text → StringMatch
matching s = record { exact = []; prefix = []; regexp = s }

-- The matches that are told apart by their forms.
pub data IsPlain : StringMatch → Type 0 where
  exact_text :
      (s : Text) → has_suffix s (str "*") ≡ false → is_regexp s ≡ false → IsPlain (exactly s)
  prefix_text : (s : Text) → is_empty s ≡ false → IsPlain (prefixed_by s)
  regexp_text : (s : Text) → is_empty s ≡ false → IsPlain (matching s)

parse_string_match-prefix : (s : Text) → parse_string_match (s ++ str "*") ≡ prefixed_by s
unfolding parse_string_match str
parse_string_match-prefix s = rw (has_suffix-append b'*' s, trim_suffix-append b'*' s) refl

parse_string_match-regexp :
    (s : Text) → parse_string_match (str "regex(" ++ (s ++ str ")")) ≡ matching s
unfolding parse_string_match is_regexp behind_first str
parse_string_match-regexp s =
    rw
      (
        not-has_suffix-append b'*' b')' (str "regex(" ++ s) (λ e. ground (arith, e)),
        has_suffix-append b')' (str "regex(" ++ s),
        has_prefix-append (str "regex(") (s ++ str ")"),
        trim_suffix-append b')' s,
      )
      refl

parse_string_match-exact :
    (s : Text)
    → has_suffix s (str "*") ≡ false
    → is_regexp s ≡ false
    → parse_string_match (string_match_string (exactly s)) ≡ exactly s
unfolding parse_string_match string_match_string
parse_string_match-exact [] h k = rw (h, k) refl
parse_string_match-exact (c ∷ s) h k = rw (h, k) refl

-- Parsing the form of a string match gives the match back, if it has one text alone, which is a
-- prefix or a regular expression that is not empty, or which is exact and reads as neither of them.
pub parse_string_match-string_match_string :
    (s : StringMatch) → IsPlain s → parse_string_match (string_match_string s) ≡ s
unfolding string_match_string
parse_string_match-string_match_string _ (exact_text s h k) = parse_string_match-exact s h k
parse_string_match-string_match_string _ (prefix_text s h) = rw h (parse_string_match-prefix s)
parse_string_match-string_match_string _ (regexp_text s h) = rw h (parse_string_match-regexp s)
