-- ===== src/Stringers/Permission/Words.antt =====
-- Words between spaces.
use rio.Prelude.{
  Text, str, ◌≡◌, refl, sym, ap, ◌∙◌, All, true, arith, is_cons, List, [], ◌∷◌, ◌++◌, map, Lacks,
  split_on, split_on-Lacks, split_on-append,
}
use mathlib.Core.Path.{ap₂}
use mathlib.Core.List.{append_assoc, map-append}
use rio.Stringers.Permission.{
  Piece, space, byte, pieces, prepend, words_of, fields, trim_space, drop_spaces, drop_last_spaces,
  join,
}
use rio.Stringers.Permission.Pieces.{pieces-append, flatten-pieces}

-- A text with a byte, and without a space.
pub record IsWord (s : Text) : Type 0 where
  pub filled : is_cons s ≡ true
  pub solid : pieces s ≡ map byte s

words_of-word :
    (w t : Text) (ps : List Piece)
    → is_cons w ≡ true
    → words_of (map byte w ++ (space t ∷ ps)) ≡ w ∷ words_of ps
unfolding words_of prepend
words_of-word [] t ps h = absurd (cc)
words_of-word (c ∷ []) t ps h = refl
words_of-word (c ∷ d ∷ w) t ps h = rw (words_of-word (d ∷ w) t ps refl) refl

words_of-last : (w : Text) → is_cons w ≡ true → words_of (map byte w) ≡ w ∷ []
unfolding words_of prepend
words_of-last [] h = absurd (cc)
words_of-last (c ∷ []) h = refl
words_of-last (c ∷ d ∷ w) h = rw (words_of-last (d ∷ w) refl) refl

pieces-word :
    (w s : Text)
    → IsWord w
    → pieces (w ++ (b' ' ∷ s)) ≡ map byte w ++ (space (b' ' ∷ []) ∷ pieces s)
pieces-word w s h = rw (pieces-append b' ' (omega arith) w s) (rw h.solid refl)

pub fields-word : (w s : Text) → IsWord w → fields (w ++ (b' ' ∷ s)) ≡ w ∷ fields s
unfolding fields
fields-word w s h = rw (pieces-word w s h) (words_of-word w _ (pieces s) h.filled)

pub fields-last : (w : Text) → IsWord w → fields w ≡ w ∷ []
unfolding fields
fields-last w h = rw h.solid (words_of-last w h.filled)

-- A text that ends with a word.
pub record EndsWell (s : Text) : Type 0 where
  before : List Piece
  last : Text
  filled : is_cons last ≡ true
  ending : pieces s ≡ before ++ map byte last

pub EndsWell-word : (w : Text) → IsWord w → EndsWell w
EndsWell-word w h = record { before = []; last = w; filled = h.filled; ending = h.solid }

pub EndsWell-append : (w s : Text) → IsWord w → EndsWell s → EndsWell (w ++ (b' ' ∷ s))
EndsWell-append w s h e = record {
  before = map byte w ++ (space (b' ' ∷ []) ∷ e.before);
  last = e.last;
  filled = e.filled;
  ending =
      pieces-word w s h
      ∙ rw e.ending
          (sym (append_assoc (map byte w) (space (b' ' ∷ []) ∷ e.before) (map byte e.last)));
}

drop_last_spaces-bytes : (w : Text) → drop_last_spaces (map byte w) ≡ map byte w
unfolding drop_last_spaces
drop_last_spaces-bytes [] = refl
drop_last_spaces-bytes (c ∷ w) = ap (λ ps. byte c ∷ ps) (drop_last_spaces-bytes w)

is_cons-append : (ps : List Piece) (w : Text) → is_cons w ≡ true → is_cons (ps ++ map byte w) ≡ true
is_cons-append [] [] h = absurd (cc)
is_cons-append [] (c ∷ w) h = refl
is_cons-append (p ∷ ps) w h = refl

drop_last_spaces-append :
    (ps : List Piece) (w : Text)
    → is_cons w ≡ true
    → drop_last_spaces (ps ++ map byte w) ≡ ps ++ map byte w
unfolding drop_last_spaces
drop_last_spaces-append [] w h = drop_last_spaces-bytes w
drop_last_spaces-append (byte c ∷ ps) w h = ap (λ qs. byte c ∷ qs) (drop_last_spaces-append ps w h)
drop_last_spaces-append (space t ∷ ps) w h =
    rw (drop_last_spaces-append ps w h) (rw (is_cons-append ps w h) refl)

drop_spaces-word :
    (w : Text) (ps : List Piece)
    → is_cons w ≡ true
    → drop_spaces (map byte w ++ ps) ≡ map byte w ++ ps
unfolding drop_spaces
drop_spaces-word [] ps h = absurd (cc)
drop_spaces-word (c ∷ w) ps h = refl

drop_spaces-bytes : (w : Text) → drop_spaces (map byte w) ≡ map byte w
unfolding drop_spaces
drop_spaces-bytes [] = refl
drop_spaces-bytes (c ∷ w) = refl

-- A text that starts and ends with a word.
pub trim_space-words :
    (w s : Text) → IsWord w → EndsWell s → trim_space (w ++ (b' ' ∷ s)) ≡ w ++ (b' ' ∷ s)
unfolding trim_space
trim_space-words w s h e =
    let whole = EndsWell-append w s h e in
    let t = w ++ (b' ' ∷ s) in
    let front : drop_spaces (pieces t) ≡ pieces t =
      rw (pieces-word w s h) (drop_spaces-word w _ h.filled) in
    rw front (
      rw whole.ending (
        rw (drop_last_spaces-append whole.before whole.last whole.filled)
          (rw (sym whole.ending) (flatten-pieces t))))

pub trim_space-word : (w : Text) → IsWord w → trim_space w ≡ w
unfolding trim_space
trim_space-word w h =
    rw h.solid (
      rw (drop_spaces-bytes w)
        (rw (drop_last_spaces-bytes w) (rw (sym h.solid) (flatten-pieces w))))

-- Words that are joined by commas.
abbrev pub AreVerbs : List Text → Type 0
AreVerbs verbs = All (λ v. IsWord v × Lacks b',' v) verbs

IsWord-append : (v w : Text) → IsWord v → IsWord w → IsWord (v ++ (b',' ∷ w))
IsWord-append v w h k = record {
  filled = filled_append v;
  solid =
      pieces-append b',' (omega arith) v w
      ∙ rw h.solid (rw k.solid (sym (map-append byte v (b',' ∷ w))));
}
  where
    filled_append : (v : Text) → is_cons (v ++ (b',' ∷ w)) ≡ true
    filled_append [] = refl
    filled_append (c ∷ v) = refl

pub join-IsWord :
    (v : Text) (verbs : List Text) → AreVerbs (v ∷ verbs) → IsWord (join (v ∷ verbs) (str ","))
unfolding join str
join-IsWord v [] (h, hs) = h.0
join-IsWord v (u ∷ verbs) (h, hs) = IsWord-append v _ h.0 (join-IsWord u verbs hs)

pub split_on-join :
    (v : Text) (verbs : List Text)
    → AreVerbs (v ∷ verbs)
    → split_on b',' (join (v ∷ verbs) (str ",")) ≡ v ∷ verbs
unfolding join str
split_on-join v [] (h, hs) = split_on-Lacks b',' v h.1
split_on-join v (u ∷ verbs) (h, hs) =
    split_on-append b',' v _ h.1 ∙ ap (λ parts. v ∷ parts) (split_on-join u verbs hs)

pub map-trim_space : (verbs : List Text) → AreVerbs verbs → map trim_space verbs ≡ verbs
map-trim_space [] h = refl
map-trim_space (v ∷ verbs) (h, hs) =
    ap₂ (λ w ws. w ∷ ws) (trim_space-word v h.0) (map-trim_space verbs hs)
