-- ===== src/Feed/Scope.antt =====
-- The countries of a posting, from its column to the feed.
use mathlib.Core.List.{append-nil, append_assoc}
use devsignal.Prelude.{
  ℕ, ◌≡◌, refl, sym, ap, ◌∙◌, true, false, not, List, [], ◌∷◌, ◌++◌, Bool-cases, inl, inr, ◌==◌,
  arith,
}
use devsignal.Prelude.Text.{Text, is_empty}
use devsignal.Normalize.Location.{parse_location}
use devsignal.Normalize.Location.Codes.{
  no_comma, AreCodes, parse_location-AreCodes, and_left, and_right,
}
use devsignal.Stages.Normalizer.{join_rest, join_scope}
use devsignal.Feed.Mapping.{split_from, split_scope}

-- What follows the first country.
abbrev tail : List Text → Text
tail [] = []
tail (s ∷ ss) = b',' ∷ (s ++ tail ss)

join_rest-eq : (out : Text) (ss : List Text) → join_rest out ss ≡ out ++ tail ss
unfolding join_rest
join_rest-eq out [] = sym (append-nil out)
join_rest-eq out (s ∷ ss) =
    join_rest-eq (out ++ b',' ∷ s) ss ∙ append_assoc out (b',' ∷ s) (tail ss)

split_from-code :
    (cur s : Text) (ss : List Text)
    → no_comma s ≡ true
    → AreCodes ss
    → split_from cur (s ++ tail ss) ≡ (cur ++ s) ∷ ss
unfolding split_from
split_from-code cur [] [] h k = ap (λ x. x ∷ []) (sym (append-nil cur))
split_from-code cur [] (t ∷ ss) h k =
    rw (append-nil cur)
      (ap (◌∷◌ cur) (split_from-code [] t ss (and_right (not (is_empty t)) _ k.0) k.1))
split_from-code cur (c ∷ s) ss h k = elim (Bool-cases (c == b',')) [
  | inl e ↦ absurd (ground arith)
  | inr e ↦ rw e (
      split_from-code (cur ++ c ∷ []) s ss (and_right (not (c == b',')) _ h) k
      ∙ ap (λ x. x ∷ ss) (append_assoc cur (c ∷ []) s))
]

not_empty : (s t : Text) → not (is_empty s) ≡ true → is_empty (s ++ t) ≡ false
not_empty [] t h = absurd (ground arith)
not_empty (c ∷ s) t h = refl

split-joined : (xs : List Text) → AreCodes xs → split_scope (join_scope xs) ≡ xs
unfolding split_scope join_scope
split-joined [] h = refl
split-joined (s ∷ ss) h =
    rw (join_rest-eq s ss, not_empty s (tail ss) (and_left _ _ h.0))
      (split_from-code [] s ss (and_right (not (is_empty s)) _ h.0) h.1)

-- The feed shows the countries that were recognised: what the normalizer stores of the countries of
-- a location, whatever its text, splits into these countries again, in their order.
pub split_scope-join_scope :
    (lower upper : ℕ → ℕ) (raw : Text)
    → split_scope (join_scope (parse_location lower upper raw).geo_scope)
      ≡ (parse_location lower upper raw).geo_scope
split_scope-join_scope lower upper raw =
    split-joined (parse_location lower upper raw).geo_scope
      (parse_location-AreCodes lower upper raw)
