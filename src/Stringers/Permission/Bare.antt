-- ===== src/Stringers/Permission/Bare.antt =====
-- A rule of two or three words.
use rio.Prelude.{Text, str, is_empty, has_prefix, trim_prefix, ◌≡◌, refl, ◌∙◌, false, [], ◌∷◌, ◌++◌}
use rio.Stringers.Kv.{Kv}
use rio.Stringers.Permission.{
  Parsed, no_permission, parse_permission, parse_perm, filter_url, url_of, of_parts, assign_verbs,
  assign_api_group_resource, trim_space,
}
use rio.Stringers.Permission.Words.{
  IsWord, EndsWell-word, EndsWell-append, fields-word, fields-last, trim_space-words,
}

-- A word that is no URL.
pub record IsPlainWord (w : Text) : Type 0 where
  pub word : IsWord w
  pub no_url : has_prefix w (str "url=") ≡ false

-- The text is neither a role nor a marked rule.
pub record IsBare (s : Text) : Type 0 where
  pub no_role : has_prefix s (str "role=") ≡ false
  pub no_rule : has_prefix s (str "rule=") ≡ false

unmarked : (s : Text) → IsBare s → trim_prefix s (str "rule=") ≡ s
unfolding trim_prefix
unmarked s b = rw (b.no_rule, trim_prefix) refl

parse_bare :
    (kv : Kv) (s : Text)
    → IsBare s
    → trim_space s ≡ s
    → is_empty s ≡ false
    → parse_permission kv s ≡ parse_perm kv s
unfolding parse_permission
parse_bare kv s b t e = rw b.no_role (rw (unmarked s b) (rw t (rw e refl)))

is_empty-word : (w s : Text) → IsWord w → is_empty (w ++ s) ≡ false
is_empty-word [] s h = absurd (cc (h.filled))
is_empty-word (c ∷ w) s h = refl

module _ (kv : Kv) (w t : Text) (hw : IsPlainWord w) (ht : IsPlainWord t) where
  pub parse_two :
      IsBare (w ++ (b' ' ∷ t))
      → parse_permission kv (w ++ (b' ' ∷ t))
        ≡ Parsed.ok
            (assign_api_group_resource kv t (record no_permission { verbs = assign_verbs w }))
  unfolding parse_perm of_parts url_of filter_url
  parse_two b =
      parse_bare kv (w ++ (b' ' ∷ t)) b (trim_space-words w t hw.word (EndsWell-word t ht.word))
        (is_empty-word w _ hw.word)
      ∙ rw (fields-word w t hw.word) (rw (fields-last t ht.word) (rw hw.no_url (rw ht.no_url refl)))

  pub parse_three :
      (n : Text)
      → IsPlainWord n
      → IsBare (w ++ (b' ' ∷ (t ++ (b' ' ∷ n))))
      → parse_permission kv (w ++ (b' ' ∷ (t ++ (b' ' ∷ n))))
        ≡ Parsed.ok
            (record (assign_api_group_resource kv t
              (record no_permission { verbs = assign_verbs w })) { resource_name = n })
  unfolding parse_perm of_parts url_of filter_url
  parse_three n hn b =
      let trimmed : trim_space (w ++ (b' ' ∷ (t ++ (b' ' ∷ n)))) ≡ w ++ (b' ' ∷ (t ++ (b' ' ∷ n))) =
        trim_space-words w _ hw.word (EndsWell-append t n ht.word (EndsWell-word n hn.word)) in
      parse_bare kv _ b trimmed (is_empty-word w _ hw.word)
      ∙ rw (fields-word w _ hw.word) (
          rw (fields-word t n ht.word)
            (rw (fields-last n hn.word) (rw hw.no_url (rw ht.no_url (rw hn.no_url refl)))))
