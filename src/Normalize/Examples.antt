-- ===== src/Normalize/Examples.antt =====
-- The theorems about internal/normalize at concrete titles and locations, and tests of its functions.
use mathlib.Core.List.{Perm}
use devsignal.Prelude.{ℕ, ◌≡◌, refl, true, none, some, [], ◌∷◌, bytes, arith}
use devsignal.Prelude.Text.{
  to_lower_rune, text_eq, is_space, join, fields, to_lower, has_word, drop_while, has_prefix,
  trim_space, contains,
}
use devsignal.Normalize.Title.{
  intern, parse_title, first_match, contains_any, management_needles, seniority_rules,
  normalize_space,
}
use devsignal.Normalize.Title.Stable.{IsSettled, parse_title-parse_title}
use devsignal.Normalize.Location.{
  remote, nowhere, parse_normalized, located, mode_of, look_up, fragments_from, country_of,
  sort_out, parse_location, sorted_strings, strip_mode_words,
}
use devsignal.Normalize.Location.Sorting.{IsSorted, sorted_strings_lem}
use devsignal.Normalize.Location.Scope.{scope_by_mode}

abbrev same : ℕ → ℕ
same c = c

same-IsSettled : IsSettled same
unfolding to_lower_rune
same-IsSettled c h = ground arith

parse_title-parse_title_example :
    parse_title same (parse_title same (bytes " Senior  GO\tEngineer")).normalized
    ≡ parse_title same (bytes " Senior  GO\tEngineer")
parse_title-parse_title_example =
    parse_title-parse_title same same-IsSettled (bytes " Senior  GO\tEngineer")

-- A contractor is not a manager, but the needle "cto" occurs in the word.
contractor_test : contains_any (bytes " contractor ") management_needles ≡ true
unfolding contains_any
contractor_test = refl

-- The needle "intern" occurs in "internal".
internal_test : first_match (bytes " internal tools engineer ") seniority_rules ≡ some intern
unfolding first_match
internal_test = refl

-- The prefix "remote" comes off, though nothing separates it from the rest.
remoteville_test : strip_mode_words (bytes "remoteville") ≡ bytes "ville"
unfolding strip_mode_words text_eq is_space
remoteville_test = refl

sorted_strings_lem_example :
    IsSorted (sorted_strings (bytes "US" ∷ bytes "CA" ∷ bytes "GB" ∷ []))
    × Perm
        (sorted_strings (bytes "US" ∷ bytes "CA" ∷ bytes "GB" ∷ []))
        (bytes "US" ∷ bytes "CA" ∷ bytes "GB" ∷ [])
sorted_strings_lem_example = sorted_strings_lem (bytes "US" ∷ bytes "CA" ∷ bytes "GB" ∷ [])

-- Two countries without a work mode.
scope_by_mode_example : parse_location same same (bytes "Canada / USA") ≡ nowhere
unfolding normalize_space join fields to_lower mode_of look_up fragments_from strip_mode_words
    text_eq country_of has_word
scope_by_mode_example =
    (scope_by_mode same same (bytes "Canada / USA") refl).1 refl refl (omega arith)

remote_test : parse_location same same (bytes "Remote, Canada / USA") ≡ record {
  work_mode = remote;
  country = none;
  city = none;
  geo_scope = bytes "CA" ∷ bytes "US" ∷ [];
}
unfolding parse_location parse_normalized normalize_space join fields to_lower located mode_of
    sorted_strings look_up fragments_from strip_mode_words country_of sort_out text_eq has_word
    drop_while has_prefix trim_space contains
remote_test = refl
