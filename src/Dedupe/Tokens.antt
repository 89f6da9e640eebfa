-- ===== src/Dedupe/Tokens.antt =====
-- internal/dedupe/simhash.go: words, shingles and the block key. A text is its code points;
-- `unicode` is Go's table of lower case beyond ASCII, `unicode_upper` that of upper case.
pub mod Words
use devsignal.Prelude.{
  ℕ, zero, suc, ◌+◌, ◌-◌, Bool, true, false, not, ◌&&◌, ◌||◌, List, [], ◌∷◌, ◌++◌, map, length,
  take, filter, ltb, leb, ◌==◌, if◌then◌else◌, bytes,
}
use devsignal.Prelude.Text.{Text, text_eq, is_empty, has_word, join, to_lower_rune, to_upper_rune}

abbrev pub shingle_size : ℕ
shingle_size = 3

-- The loop of stripTags, at a depth of open brackets.
unfoldable pub strip_from : ℕ → Text → Text
strip_from depth [] = []
strip_from depth (c ∷ s) =
    let inside = strip_from (depth + 1) s in
    let closed = strip_from (depth - 1) s in
    let same = strip_from depth s in
    if c == b'<'
    then inside
    else if c == b'>'
    then (if ltb 0 depth then b' ' ∷ closed else same)
    else if depth == 0
    then c ∷ same
    else same

unfoldable pub strip_tags : Text → Text
unfolding strip_from
strip_tags s = strip_from 0 s

-- The characters of a word: letters, digits, and the plus and hash of c++ and c#.
unfoldable pub word_rune : ℕ → Bool
word_rune c = leb b'a' c && leb c b'z' || leb b'0' c && leb c b'9' || c == b'+' || c == b'#'

-- What stands in the builder becomes a word, unless nothing does.
abbrev pub flush : Text → List Text → List Text
flush [] words = words
flush (c ∷ cur) words = (c ∷ cur) ∷ words

-- The loop of tokenize, with the current word.
unfoldable pub tokens_from : Text → Text → List Text
unfolding word_rune
tokens_from cur [] = flush cur []
tokens_from cur (c ∷ s) =
    let grown = tokens_from (cur ++ c ∷ []) s in
    let fresh = tokens_from [] s in if word_rune c then grown else flush cur fresh

unfoldable pub tokenize : (ℕ → ℕ) → Text → List Text
unfolding strip_tags tokens_from to_lower_rune
tokenize unicode text = tokens_from [] (strip_tags (map (to_lower_rune unicode) text))

-- The windows of three words.
unfoldable pub windows : List Text → List Text
unfolding join
windows (a ∷ b ∷ c ∷ ws) = join (bytes " ") (a ∷ b ∷ c ∷ []) ∷ windows (b ∷ c ∷ ws)
windows _ = []

unfoldable pub shingles_of : List Text → List Text
unfolding windows join
shingles_of [] = []
shingles_of words =
    if ltb (length words) shingle_size then join (bytes " ") words ∷ [] else windows words

unfoldable pub shingles : (ℕ → ℕ) → Text → List Text
unfolding tokenize shingles_of
shingles unicode text = shingles_of (tokenize unicode text)

abbrev pub stop_words : List Text
stop_words =
    map bytes ("a" ∷ "an" ∷ "and" ∷ "the" ∷ "of" ∷ "for" ∷ "to" ∷ "in" ∷ "at" ∷ "with" ∷ "or" ∷ [])

abbrev keeps_word : Text → Bool
keeps_word w = not (has_word w stop_words) && ltb 1 (length w)

-- The words that are left; all of them, if none is.
abbrev pub or_all : List Text → List Text → List Text
or_all all [] = all
or_all all (w ∷ ws) = w ∷ ws

unfoldable pub drop_stop_words : List Text → List Text
unfolding has_word text_eq
drop_stop_words words = or_all words (filter keeps_word words)

-- Go's `<=` on strings of ASCII characters.
unfoldable pub text_le : Text → Text → Bool
text_le [] t = true
text_le (c ∷ s) [] = false
text_le (c ∷ s) (d ∷ t) = ltb c d || c == d && text_le s t

-- sort.Strings
unfoldable pub insert_text : Text → List Text → List Text
unfolding text_le
insert_text w [] = w ∷ []
insert_text w (v ∷ vs) = if text_le w v then w ∷ v ∷ vs else v ∷ insert_text w vs

unfoldable pub sort_texts : List Text → List Text
unfolding insert_text
sort_texts [] = []
sort_texts (w ∷ ws) = insert_text w (sort_texts ws)

unfoldable pub block_key : (ℕ → ℕ) → (ℕ → ℕ) → Text → Text → Text → Text
unfolding tokenize drop_stop_words sort_texts join to_upper_rune
block_key unicode unicode_upper company title country =
    let words = sort_texts (drop_stop_words (tokenize unicode title)) in
    company
    ++ (bytes "|"
        ++ (join (bytes "-") (take 3 words)
            ++ (bytes "|" ++ map (to_upper_rune unicode_upper) country)))
