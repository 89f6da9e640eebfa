-- ===== src/Normalize/Location/Codes.antt =====
-- The countries of a location are codes without a comma.
use mathlib.Core.Path.{subst}
use mathlib.Core.Option.{some-injective}
use devsignal.Prelude.{
  ℕ, ◌≡◌, refl, sym, ap, ◌∙◌, Bool, true, false, not, ◌&&◌, Option, none, some, List, [], ◌∷◌, All,
  Bool-cases, inl, inr, ◌==◌, arith, if◌then◌else◌,
}
use devsignal.Prelude.Text.{Text, text_eq, has_word, is_empty, to_lower}
use devsignal.Normalize.Title.{normalize_space}
use devsignal.Normalize.Location.{
  WorkMode, unstated, remote, hybrid, onsite, Spelling, countries, country_of, Found, add_country,
  sort_out, look_up, fragments_from, strip_mode_words, settle_mode, located, parse_normalized,
  parse_location,
}
use devsignal.Normalize.Location.Sorting.{All-snoc, All-sorted_strings}

abbrev pub no_comma : Text → Bool
no_comma [] = true
no_comma (c ∷ s) = not (c == b',') && no_comma s

-- A text that is not empty and has no comma.
abbrev pub is_code : Text → Bool
is_code s = not (is_empty s) && no_comma s

abbrev pub AreCodes : List Text → Type 0
AreCodes xs = All (λ s. is_code s ≡ true) xs

abbrev all_codes : List Spelling → Bool
all_codes [] = true
all_codes (s ∷ ss) = is_code s.iso && all_codes ss

pub and_left : (a b : Bool) → (a && b) ≡ true → a ≡ true
and_left a b h = ground arith

pub and_right : (a b : Bool) → (a && b) ≡ true → b ≡ true
and_right a b h = ground arith

country_of-code :
    (frag : Text) (ss : List Spelling) (iso : Text)
    → all_codes ss ≡ true
    → country_of frag ss ≡ some iso
    → is_code iso ≡ true
unfolding country_of
country_of-code frag [] iso h e = absurd cc
country_of-code frag (s ∷ ss) iso h e = elim (Bool-cases (text_eq s.name frag)) [
  | inl t ↦
      let same : s.iso ≡ iso =
        some-injective s.iso iso
          (sym (ap (λ b. if b then some s.iso else country_of frag ss) t) ∙ e) in
      subst (λ x. is_code x ≡ true) same (and_left (is_code s.iso) (all_codes ss) h)
  | inr t ↦
      country_of-code frag ss iso (and_right (is_code s.iso) (all_codes ss) h)
        (sym (ap (λ b. if b then some s.iso else country_of frag ss) t) ∙ e)
]

sort_out-AreCodes :
    (frag : Text) (f : Found)
    → AreCodes f.order
    → AreCodes (sort_out frag (country_of frag countries) f).order
unfolding sort_out add_country
sort_out-AreCodes frag f h = go (country_of frag countries) refl
  where
    go :
        (found : Option Text)
        → country_of frag countries ≡ found
        → AreCodes (sort_out frag found f).order
    go none e = h
    go (some iso) e = elim (Bool-cases (has_word iso f.order)) [
      | inl known ↦ rw known h
      | inr new ↦ rw new (
          All-snoc (λ s. is_code s ≡ true) f.order iso h
            (country_of-code frag countries iso refl e))
    ]

either :
    (b : Bool) (f g : Found)
    → AreCodes f.order
    → AreCodes g.order
    → AreCodes (if b then f else g).order
either true f g h k = h
either false f g h k = k

look_up-AreCodes :
    (raws : List Text) (f : Found) → AreCodes f.order → AreCodes (look_up raws f).order
unfolding look_up
look_up-AreCodes [] f h = h
look_up-AreCodes (raw ∷ raws) f h =
    look_up-AreCodes raws _ (
      either (is_empty (strip_mode_words raw)) f _ h (sort_out-AreCodes (strip_mode_words raw) f h))

settle_mode-AreCodes :
    (mode : WorkMode) (country city : Option Text) (scope : List Text)
    → AreCodes scope
    → AreCodes (settle_mode mode country city scope).geo_scope
unfolding settle_mode
settle_mode-AreCodes unstated none none scope h = tt
settle_mode-AreCodes unstated none (some c) scope h = h
settle_mode-AreCodes unstated (some c) city scope h = h
settle_mode-AreCodes remote country city scope h = h
settle_mode-AreCodes hybrid country city scope h = h
settle_mode-AreCodes onsite country city scope h = h

pub parse_location-AreCodes :
    (lower upper : ℕ → ℕ) (raw : Text) → AreCodes (parse_location lower upper raw).geo_scope
unfolding parse_location parse_normalized located
parse_location-AreCodes lower upper raw =
    let s = normalize_space (to_lower lower raw) in
    elim (Bool-cases (is_empty s)) [
      | inl e ↦ rw e tt
      | inr e ↦ rw e (
          settle_mode-AreCodes _ _ _ _ (
            All-sorted_strings (λ c. is_code c ≡ true) _
              (look_up-AreCodes (fragments_from [] s) (record { order = []; other = [] }) tt)))
    ]
