-- ===== src/Normalize/Location.antt =====
-- internal/normalize/location.go: ParseLocation. A text is its code points; `unicode` is Go's table of
-- lower case beyond ASCII, `title` its table of upper case, and the code of a country has two letters.
pub mod Countries
pub mod Sorting
pub mod Scope
pub mod Codes
use devsignal.Prelude.{
  ℕ, zero, suc, ◌+◌, ◌-◌, ◌*◌, Bool, true, false, not, ◌&&◌, ◌||◌, Option, none, some, List, [],
  ◌∷◌, ◌++◌, map, length, ltb, ◌==◌, if◌then◌else◌, bytes,
}
use mathlib.Core.List.{reverse}
use devsignal.Prelude.Text.{
  Text, text_eq, has_word, has_prefix, drop, join, fields, contains, to_lower, to_upper_rune,
  trim_space, is_empty, drop_while, push_word,
}
use devsignal.Normalize.Title.{contains_any, normalize_space}
pub use Countries.{Spelling, countries}
unfoldable pub use Countries.{country_of}

pub data WorkMode : Type 0 where
  unstated remote hybrid onsite : WorkMode

pub record Location : Type 0 where
  pub work_mode : WorkMode
  pub country : Option Text
  pub city : Option Text
  pub geo_scope : List Text

abbrev pub remote_hints : List Text
remote_hints =
    bytes "remote"
    ∷ bytes "work from home"
    ∷ bytes "wfh"
    ∷ bytes "anywhere"
    ∷ bytes "distributed"
    ∷ []

abbrev pub hybrid_hints : List Text
hybrid_hints = bytes "hybrid" ∷ []

-- Go's `<` on strings: UTF-8 keeps the order of code points.
unfoldable pub text_lt : Text → Text → Bool
text_lt [] [] = false
text_lt [] (d ∷ t) = true
text_lt (c ∷ s) [] = false
text_lt (c ∷ s) (d ∷ t) = ltb c d || c == d && text_lt s t

-- The inner loop: the new last element moves left while it is smaller. `rev` is the sorted part from
-- its end.
unfoldable pub sift : Text → List Text → List Text
unfolding text_lt
sift x [] = x ∷ []
sift x (y ∷ rev) = if text_lt x y then y ∷ sift x rev else x ∷ y ∷ rev

-- The outer loop, over what is left of the input.
unfoldable pub sort_from : List Text → List Text → List Text
unfolding sift
sort_from rev [] = rev
sort_from rev (x ∷ xs) = sort_from (sift x rev) xs

unfoldable pub sorted_strings : List Text → List Text
unfolding sort_from
sorted_strings xs = reverse (sort_from [] xs)

-- strings.FieldsFunc, at the separators of a location.
abbrev is_separator : ℕ → Bool
is_separator c = c == b',' || c == b';' || c == b'|' || c == b'/'

unfoldable pub fragments_from : Text → Text → List Text
fragments_from cur [] = push_word cur []
fragments_from cur (c ∷ s) =
    let next = fragments_from [] s in
    let same = fragments_from (cur ++ c ∷ []) s in
    if is_separator c then push_word cur next else same

-- strings.Trim with a set of characters.
abbrev in_set : List ℕ → ℕ → Bool
in_set [] c = false
in_set (d ∷ ds) c = d == c || in_set ds c

unfoldable pub trim : List ℕ → Text → Text
unfolding drop_while
trim set s = reverse (drop_while (in_set set) (reverse (drop_while (in_set set) s)))

-- The dashes are U+2013 and U+2014.
abbrev pub after_mode : List ℕ
after_mode = b'-' ∷ 0x2013 ∷ 0x2014 ∷ b':' ∷ b'(' ∷ b')' ∷ b'/' ∷ b',' ∷ []

abbrev pub around : List ℕ
around = b'-' ∷ 0x2013 ∷ 0x2014 ∷ b'(' ∷ b')' ∷ []

-- `len` counts the bytes of UTF-8.
abbrev utf8_width : ℕ → ℕ
utf8_width c = if ltb c 0x80 then 1 else if ltb c 0x800 then 2 else if ltb c 0x10000 then 3 else 4

abbrev pub byte_length : Text → ℕ
byte_length [] = 0
byte_length (c ∷ s) = utf8_width c + byte_length s

-- The loop over the words of work modes. The text without the word in front and the separators
-- replaces the fragment, if something came off.
unfoldable pub strip_words : List Text → Text → Text
unfolding trim trim_space has_prefix drop
strip_words [] frag = trim_space (trim around frag)
strip_words (w ∷ ws) frag =
    let rest = trim_space (trim after_mode (trim_space (drop (length w) frag))) in
    let shorter =
      not (text_eq rest frag)
      && (is_empty rest || ltb (byte_length rest) (byte_length frag - byte_length w + 1)) in
    let go_on = strip_words ws frag in
    if text_eq frag w
    then []
    else if has_prefix frag w && shorter
    then trim_space (trim around rest)
    else go_on

abbrev mode_words : List Text
mode_words =
    bytes "remote"
    ∷ bytes "hybrid"
    ∷ bytes "onsite"
    ∷ bytes "on-site"
    ∷ bytes "on site"
    ∷ bytes "wfh"
    ∷ []

unfoldable pub strip_mode_words : Text → Text
unfolding strip_words
strip_mode_words frag = strip_words mode_words (trim_space frag)

abbrev pub noise : List Text
noise =
    bytes "any"
    ∷ bytes "anywhere"
    ∷ bytes "global"
    ∷ bytes "worldwide"
    ∷ bytes "multiple locations"
    ∷ bytes "various"
    ∷ bytes "flexible"
    ∷ bytes "n/a"
    ∷ bytes "-"
    ∷ []

unfoldable pub is_noise : Text → Bool
unfolding has_word
is_noise s = has_word s noise || ltb (byte_length s) 2

abbrev title_word : (ℕ → ℕ) → Text → Text
title_word title [] = []
title_word title (c ∷ s) = to_upper_rune title c ∷ s

unfoldable pub titleish : (ℕ → ℕ) → Text → Text
unfolding to_upper_rune
titleish title s = join (bytes " ") (map (title_word title) (fields s))

-- The countries in the order in which they first occur, and the other fragments.
pub record Found : Type 0 where
  pub order : List Text
  pub other : List Text

add_country : Text → Found → Found
add_country iso f = if has_word iso f.order then f else record f { order = f.order ++ iso ∷ [] }

unfoldable pub sort_out : Text → Option Text → Found → Found
unfolding add_country
sort_out frag (some iso) f = add_country iso f
sort_out frag none f = record f { other = f.other ++ frag ∷ [] }

unfoldable pub look_up : List Text → Found → Found
unfolding sort_out
look_up [] f = f
look_up (raw ∷ raws) f =
    let frag = strip_mode_words raw in
    look_up raws (if is_empty frag then f else sort_out frag (country_of frag countries) f)

unfoldable pub mode_of : Text → WorkMode
unfolding contains_any
mode_of s =
    let padded = bytes " " ++ (s ++ bytes " ") in
    if contains_any padded hybrid_hints
    then hybrid
    else if contains_any padded remote_hints
    then remote
    else unstated

-- Exactly one recognised country.
abbrev pub single : List Text → Option Text
single (c ∷ []) = some c
single _ = none

abbrev pub city_of : (ℕ → ℕ) → List Text → Option Text
city_of title [] = none
city_of title (s ∷ ss) = if is_noise s then none else some (titleish title s)

abbrev pub nowhere : Location
nowhere = record { work_mode = unstated; country = none; city = none; geo_scope = [] }

settle_mode : WorkMode → Option Text → Option Text → List Text → Location
settle_mode unstated none none scope = nowhere
settle_mode unstated country city scope = record {
  work_mode = onsite;
  country = country;
  city = city;
  geo_scope = scope;
}
settle_mode mode country city scope = record {
  work_mode = mode;
  country = country;
  city = city;
  geo_scope = scope;
}

unfoldable pub located : (ℕ → ℕ) → WorkMode → Found → Location
unfolding settle_mode
located title mode f =
    let scope = sorted_strings f.order in
    settle_mode mode (single scope) (city_of title f.other) scope

unfoldable pub parse_normalized : (ℕ → ℕ) → Text → Location
parse_normalized title s =
    if is_empty s
    then nowhere
    else located title (mode_of s)
        (look_up (fragments_from [] s) (record { order = []; other = [] }))

unfoldable pub parse_location : (ℕ → ℕ) → (ℕ → ℕ) → Text → Location
parse_location unicode title raw = parse_normalized title (normalize_space (to_lower unicode raw))
