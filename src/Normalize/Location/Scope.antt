-- ===== src/Normalize/Location/Scope.antt =====
-- What becomes of the countries of a location.
use mathlib.Core.List.{reverse, reverse-append}
use devsignal.Prelude.{
  ℕ, ◌+◌, ◌≤◌, ◌≡◌, ◌≢◌, refl, false, inl, inr, Bool-cases, Option, none, List, [], ◌∷◌, length,
  length-append, arith,
}
use devsignal.Prelude.Text.{Text, to_lower, is_empty}
use devsignal.Normalize.Title.{normalize_space}
use devsignal.Normalize.Location.{
  WorkMode, unstated, remote, hybrid, onsite, Found, text_lt, sift, sort_from, sorted_strings,
  look_up, fragments_from, mode_of, single, city_of, nowhere, settle_mode, located,
  parse_normalized, parse_location,
}

length-sift : (x : Text) (rev : List Text) → length (sift x rev) ≡ length rev + 1
unfolding sift
length-sift x [] = omega arith
length-sift x (y ∷ rev) = elim (Bool-cases (text_lt x y)) [
  | inl e ↦ rw e (omega (arith, length-sift x rev))
  | inr e ↦ rw e (omega arith)
]

length-sort_from : (rev xs : List Text) → length (sort_from rev xs) ≡ length rev + length xs
unfolding sort_from
length-sort_from rev [] = omega arith
length-sort_from rev (x ∷ xs) = omega (arith, length-sift x rev, length-sort_from (sift x rev) xs)

length-reverse : (xs : List Text) → length (reverse xs) ≡ length xs
length-reverse [] = refl
length-reverse (x ∷ xs) =
    rw (reverse-append (x ∷ []) xs)
      (omega (arith, length-append (reverse xs) (x ∷ []), length-reverse xs))

length-sorted_strings : (xs : List Text) → length (sorted_strings xs) ≡ length xs
unfolding sorted_strings
length-sorted_strings xs = omega (arith, length-reverse (sort_from [] xs), length-sort_from [] xs)

single-none : (xs : List Text) → 2 ≤ length xs → single xs ≡ none
single-none [] h = absurd (omega arith)
single-none (x ∷ []) h = absurd (omega arith)
single-none (x ∷ y ∷ xs) h = refl

settle_stated :
    (mode : WorkMode) (country city : Option Text) (scope : List Text)
    → mode ≢ unstated
    → settle_mode mode country city scope
      ≡ record { work_mode = mode; country = country; city = city; geo_scope = scope }
unfolding settle_mode
settle_stated unstated country city scope h = absurd (h refl)
settle_stated remote country city scope h = refl
settle_stated hybrid country city scope h = refl
settle_stated onsite country city scope h = refl

lost :
    (title : ℕ → ℕ) (mode : WorkMode) (f : Found)
    → mode ≡ unstated
    → f.other ≡ []
    → 2 ≤ length f.order
    → located title mode f ≡ nowhere
unfolding located settle_mode
lost title mode f m o h =
    let many : 2 ≤ length (sorted_strings f.order) =
      omega (arith, length-sorted_strings f.order, h) in
    rw (m, o, single-none (sorted_strings f.order) many) refl

-- What ParseLocation makes of the countries that it recognises in a text that is not blank. Where the
-- text states a work mode, the scope is all of them in order, and the country is the only one, if
-- there is only one. Where it states none and consists of two countries or more, nothing is left: no
-- scope, no country, no work mode.
pub scope_by_mode :
    (unicode title : ℕ → ℕ) (raw : Text)
    → let s = normalize_space (to_lower unicode raw) in
      let f = look_up (fragments_from [] s) (record { order = []; other = [] }) in
      let scope = sorted_strings f.order in
      is_empty s ≡ false
      → (mode_of s ≢ unstated
          → parse_location unicode title raw ≡ record {
            work_mode = mode_of s;
            country = single scope;
            city = city_of title f.other;
            geo_scope = scope;
          })
        × (mode_of s ≡ unstated
            → f.other ≡ []
            → 2 ≤ length f.order
            → parse_location unicode title raw ≡ nowhere)
unfolding parse_location parse_normalized located
scope_by_mode unicode title raw filled =
    let s = normalize_space (to_lower unicode raw) in
    let f = look_up (fragments_from [] s) (record { order = []; other = [] }) in
    let scope = sorted_strings f.order in
    (
      (λ stated.
          rw filled
            (settle_stated (mode_of s) (single scope) (city_of title f.other) scope stated)),
      (λ m o h. rw filled (lost title (mode_of s) f m o h)),
    )
