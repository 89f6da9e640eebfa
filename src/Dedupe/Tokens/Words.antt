-- ===== src/Dedupe/Tokens/Words.antt =====
-- What `tokenize` and `Shingles` return.
use devsignal.Prelude.{
  ℕ, suc, ◌+◌, ◌-◌, ◌≡◌, ◌≢◌, refl, sym, ap, ◌∙◌, true, false, List, [], ◌∷◌, ◌++◌, map, length,
  All, arith, ltb, ◌==◌, if◌then◌else◌, Bool-cases, inl, inr, ◌⊎◌, bytes,
}
use mathlib.Core.List.{append-nil, append_assoc}
use devsignal.Prelude.Text.{Text, join, to_lower_rune}
use devsignal.Dedupe.Tokens.{
  strip_from, strip_tags, word_rune, flush, tokens_from, tokenize, windows, shingles_of,
}

-- A word: not empty, and only letters, digits, plus and hash.
pub record IsWord (w : Text) : Type 0 where
  pub filled : w ≢ []
  pub clean : All (λ c. word_rune c ≡ true) w

All-append_rune :
    (w : Text) (c : ℕ)
    → All (λ c. word_rune c ≡ true) w
    → word_rune c ≡ true
    → All (λ c. word_rune c ≡ true) (w ++ c ∷ [])
All-append_rune [] c h e = (e, tt)
All-append_rune (d ∷ w) c h e = (h.0, All-append_rune w c h.1 e)

flush-IsWord :
    (cur : Text) (words : List Text)
    → All (λ c. word_rune c ≡ true) cur
    → All IsWord words
    → All IsWord (flush cur words)
flush-IsWord [] words h k = k
flush-IsWord (c ∷ cur) words h k = (record { filled = λ e. cc; clean = h }, k)

tokens_from-IsWord :
    (cur s : Text) → All (λ c. word_rune c ≡ true) cur → All IsWord (tokens_from cur s)
unfolding tokens_from
tokens_from-IsWord cur [] h = flush-IsWord cur [] h tt
tokens_from-IsWord cur (c ∷ s) h = elim (Bool-cases (word_rune c)) [
  | inl e ↦ rw e (tokens_from-IsWord (cur ++ c ∷ []) s (All-append_rune cur c h e))
  | inr e ↦ rw e (flush-IsWord cur (tokens_from [] s) h (tokens_from-IsWord [] s tt))
]

-- Reading a word, and reading the space behind it.
tokens_from-word :
    (w cur rest : Text)
    → All (λ c. word_rune c ≡ true) w
    → tokens_from cur (w ++ rest) ≡ tokens_from (cur ++ w) rest
unfolding tokens_from
tokens_from-word [] cur rest h = rw append-nil
tokens_from-word (c ∷ w) cur rest h = rw h.0 (
    tokens_from-word w (cur ++ c ∷ []) rest h.1
    ∙ ap (λ x. tokens_from x rest) (append_assoc cur (c ∷ []) w))

tokens_from-flush : (cur : Text) → cur ≢ [] → flush cur [] ≡ cur ∷ []
tokens_from-flush [] h = absurd (h refl)
tokens_from-flush (c ∷ cur) h = refl

flush-filled : (cur : Text) (words : List Text) → cur ≢ [] → flush cur words ≡ cur ∷ words
flush-filled [] words h = absurd (h refl)
flush-filled (c ∷ cur) words h = refl

tokens_from-join : (ws : List Text) → All IsWord ws → tokens_from [] (join (bytes " ") ws) ≡ ws
unfolding join tokens_from
tokens_from-join [] h = refl
tokens_from-join (w ∷ []) h =
    ap (tokens_from []) (sym (append-nil w))
    ∙ tokens_from-word w [] [] h.0.clean
    ∙ flush-filled w [] h.0.filled
tokens_from-join (w ∷ v ∷ vs) h =
    tokens_from-word w [] (b' ' ∷ join (bytes " ") (v ∷ vs)) h.0.clean
    ∙ flush-filled w (tokens_from [] (join (bytes " ") (v ∷ vs))) h.0.filled
    ∙ ap (λ r. w ∷ r) (tokens_from-join (v ∷ vs) h.1)

-- A character that lower-casing and stripping leave alone.
abbrev IsPlain : ℕ → Type 0
IsPlain c = (word_rune c ≡ true) ⊎ (c ≡ b' ')

All-IsPlain :
    (w : Text) (s : Text) → All (λ c. word_rune c ≡ true) w → All IsPlain s → All IsPlain (w ++ s)
All-IsPlain [] s h k = k
All-IsPlain (c ∷ w) s h k = (inl h.0, All-IsPlain w s h.1 k)

join-IsPlain : (ws : List Text) → All IsWord ws → All IsPlain (join (bytes " ") ws)
unfolding join
join-IsPlain [] h = tt
join-IsPlain (w ∷ []) h = rw (← append-nil w) (All-IsPlain w [] h.0.clean tt)
join-IsPlain (w ∷ v ∷ vs) h =
    All-IsPlain w (b' ' ∷ join (bytes " ") (v ∷ vs)) h.0.clean (inr refl, join-IsPlain (v ∷ vs) h.1)

lower_plain : (unicode : ℕ → ℕ) (c : ℕ) → IsPlain c → to_lower_rune unicode c ≡ c
unfolding to_lower_rune word_rune
lower_plain unicode c h = ground arith

map-lower_plain : (unicode : ℕ → ℕ) (s : Text) → All IsPlain s → map (to_lower_rune unicode) s ≡ s
map-lower_plain unicode [] h = refl
map-lower_plain unicode (c ∷ s) h = cc (lower_plain unicode c h.0, map-lower_plain unicode s h.1)

plain_no_bracket : (c : ℕ) → IsPlain c → ((c == b'<') ≡ false) × ((c == b'>') ≡ false)
unfolding word_rune
plain_no_bracket c h = ground arith

strip_from-plain : (s : Text) → All IsPlain s → strip_from 0 s ≡ s
unfolding strip_from
strip_from-plain [] h = refl
strip_from-plain (c ∷ s) h =
    let (left, right) = plain_no_bracket c h.0 in
    rw (left, right) (ap (λ r. c ∷ r) (strip_from-plain s h.1))

-- The words of a text are its normal form: each is a word, and the words joined by spaces give back
-- exactly these words, whatever the case and the markup of the text were.
pub tokenize_round_trip :
    (unicode : ℕ → ℕ) (text : Text)
    → All IsWord (tokenize unicode text)
      × (tokenize unicode (join (bytes " ") (tokenize unicode text)) ≡ tokenize unicode text)
tokenize_round_trip unicode text =
    let words = tokenize unicode text in
    let all_words : All IsWord words =
      unfold tokenize in tokens_from-IsWord [] (strip_tags (map (to_lower_rune unicode) text)) tt in
    let plain = join-IsPlain words all_words in
    (
      all_words,
      unfold tokenize in
          (ap (λ s. tokens_from [] (strip_from 0 s))
              (map-lower_plain unicode (join (bytes " ") words) plain)
            ∙ ap (tokens_from []) (strip_from-plain (join (bytes " ") words) plain)
            ∙ tokens_from-join words all_words),
    )

abbrev IsText : ℕ → Type 0
IsText c = (c ≢ b'<') × (c ≢ b'>')

strip_from-IsText : (depth : ℕ) (s : Text) → All IsText (strip_from depth s)
unfolding strip_from
strip_from-IsText depth [] = tt
strip_from-IsText depth (c ∷ s) = elim (Bool-cases (c == b'<')) [
  | inl open_ ↦ rw open_ (strip_from-IsText (depth + 1) s)
  | inr other ↦ elim (Bool-cases (c == b'>')) [
    | inl close ↦ elim (Bool-cases (ltb 0 depth)) [
      | inl inside ↦
          rw (other, close, inside) ((omega arith, omega arith), strip_from-IsText (depth - 1) s)
      | inr outside ↦ rw (other, close, outside) (strip_from-IsText depth s)
    ]
    | inr text ↦ elim (Bool-cases (depth == 0)) [
      | inl top ↦ rw (other, text, top) ((ground arith, ground arith), strip_from-IsText depth s)
      | inr inside ↦ rw (other, text, inside) (strip_from-IsText depth s)
    ]
  ]
]

-- stripTags leaves no bracket, whatever the nesting.
pub strip_tags-IsText : (s : Text) → All IsText (strip_tags s)
unfolding strip_tags
strip_tags-IsText s = strip_from-IsText 0 s

length-windows : (a b : Text) (ws : List Text) → length (windows (a ∷ b ∷ ws)) ≡ length ws
unfolding windows
length-windows a b [] = refl
length-windows a b (c ∷ ws) = ap suc (length-windows b c ws)

-- One shingle for each window of three words; one for a text of one or two words; none for a text
-- with no word.
pub length-shingles_of :
    (words : List Text)
    → length (shingles_of words)
      ≡ (if ltb (length words) 3 then (if length words == 0 then 0 else 1) else length words - 2)
unfolding shingles_of
length-shingles_of [] = refl
length-shingles_of (a ∷ []) = refl
length-shingles_of (a ∷ b ∷ []) = refl
length-shingles_of (a ∷ b ∷ c ∷ ws) = ground (arith, length-windows a b (c ∷ ws))
