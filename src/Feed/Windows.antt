-- ===== src/Feed/Windows.antt =====
-- A page as a part of the feed.
use devsignal.Prelude.{
  ℕ, zero, suc, ◌≤◌, ◌<◌, ◌≡◌, false≢true, refl, ap, sym, ◌∙◌, Bool, true, ◌&&◌, List, [], ◌∷◌,
  ◌++◌, arith, Bool-cases, inl, inr, length, take, filter, map, ltb,
}
use devsignal.Prelude.Int.{ℤ, pos, negsuc}
use devsignal.Feed.Mapping.{Entry, Summary}
use devsignal.Feed.List.{page_size}
use devsignal.Feed.Ordering.{Before, All-filter_kept, IsOrdered, drop_first}

pub page_size_positive : (s : ℤ) → (m : ℕ) × (page_size s ≡ suc m)
unfolding page_size
page_size_positive (pos zero) = (24, refl)
page_size_positive (pos (suc n)) = elim (Bool-cases (ltb 100 (suc n))) [
  | inl e ↦ (99, ground arith)
  | inr e ↦ (n, ground arith)
]
page_size_positive (negsuc n) = (24, ground arith)

pub filter-and :
    (a b : Entry → Bool) (xs : List Entry) → filter (λ o. a o && b o) xs ≡ filter b (filter a xs)
filter-and a b [] = refl
filter-and a b (x ∷ xs) = elim (Bool-cases (a x)) [
  | inl e ↦ rw (e, filter-and a b xs) refl
  | inr e ↦ rw (e, filter-and a b xs) refl
]

-- A stronger test makes a weaker one before it needless.
pub filter-weaker :
    (a b : Entry → Bool) (xs : List Entry)
    → ((x : Entry) → b x ≡ true → a x ≡ true)
    → filter b (filter a xs) ≡ filter b xs
filter-weaker a b [] h = refl
filter-weaker a b (x ∷ xs) h = elim (Bool-cases (a x)) [
  | inl e ↦ rw (e, filter-weaker a b xs h) refl
  | inr e ↦ elim (Bool-cases (b x)) [
    | inl f ↦ absurd (false≢true (sym e ∙ h x f))
    | inr f ↦ rw (e, f, filter-weaker a b xs h) refl
  ]
]

pub filter-IsOrdered : (p : Entry → Bool) (xs : List Entry) → IsOrdered xs → IsOrdered (filter p xs)
filter-IsOrdered p [] h = tt
filter-IsOrdered p (x ∷ xs) h = elim (Bool-cases (p x)) [
  | inl e ↦ rw e (All-filter_kept (Before x) p xs h.0, filter-IsOrdered p xs h.1)
  | inr e ↦ rw e (filter-IsOrdered p xs h.1)
]

pub length-drop :
    (n : ℕ) (xs : List Entry) → suc n ≤ length xs → length (drop_first (suc n) xs) < length xs
length-drop n [] l = absurd (omega arith)
length-drop zero (x ∷ xs) l = omega arith
length-drop (suc n) (x ∷ []) l = absurd (omega arith)
length-drop (suc n) (x ∷ z ∷ zs) l = omega (arith, length-drop n (z ∷ zs) (omega (arith, l)))

pub map-take_drop :
    (f : Entry → Summary) (n : ℕ) (xs : List Entry)
    → map f (take n xs) ++ map f (drop_first n xs) ≡ map f xs
map-take_drop f zero xs = refl
map-take_drop f (suc n) [] = refl
map-take_drop f (suc n) (x ∷ xs) = ap (◌∷◌ (f x)) (map-take_drop f n xs)

pub length-take : (n : ℕ) (xs : List Entry) → n ≤ length xs → length (take n xs) ≡ n
length-take zero xs l = refl
length-take (suc n) [] l = absurd (omega arith)
length-take (suc n) (x ∷ xs) l = omega (arith, length-take n xs (omega arith))
