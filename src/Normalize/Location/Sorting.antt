-- ===== src/Normalize/Location/Sorting.antt =====
-- `sortedStrings` sorts.
use mathlib.Core.List.Perm
use mathlib.Core.List.{reverse, Perm, perm_middle, reverse_perm, append-nil, reverse-append}
use devsignal.Prelude.{
  ◌≡◌, refl, true, false, inl, inr, Bool-cases, List, [], ◌∷◌, ◌++◌, arith, All, All-map,
}
use devsignal.Prelude.Text.{Text}
use devsignal.Normalize.Location.{text_lt, sift, sort_from, sorted_strings}

-- From the greatest to the least.
abbrev Falls : List Text → Type 0
Falls [] = Unit
Falls (x ∷ xs) = All (λ y. text_lt x y ≡ false) xs × Falls xs

-- No text stands before a smaller one.
abbrev pub IsSorted : List Text → Type 0
IsSorted [] = Unit
IsSorted (x ∷ xs) = All (λ y. text_lt y x ≡ false) xs × IsSorted xs

text_lt_trans : (s t u : Text) → text_lt s t ≡ false → text_lt t u ≡ false → text_lt s u ≡ false
unfolding text_lt
text_lt_trans [] [] u h k = k
text_lt_trans [] (d ∷ t) u h k = absurd cc
text_lt_trans (c ∷ s) [] [] h k = refl
text_lt_trans (c ∷ s) [] (e ∷ u) h k = absurd cc
text_lt_trans (c ∷ s) (d ∷ t) [] h k = refl
text_lt_trans (c ∷ s) (d ∷ t) (e ∷ u) h k = ground (arith, text_lt_trans s t u)

text_lt_asym : (s t : Text) → text_lt s t ≡ true → text_lt t s ≡ false
unfolding text_lt
text_lt_asym [] [] h = refl
text_lt_asym [] (d ∷ t) h = refl
text_lt_asym (c ∷ s) [] h = absurd cc
text_lt_asym (c ∷ s) (d ∷ t) h = ground (arith, text_lt_asym s t)

All-sift {κ} :
    (P : Text → Type κ) (x : Text) (rev : List Text) → P x → All P rev → All P (sift x rev)
unfolding sift
All-sift P x [] h k = (h, tt)
All-sift P x (y ∷ rev) h k = elim (Bool-cases (text_lt x y)) [
  | inl e ↦ rw e (k.0, All-sift P x rev h k.1)
  | inr e ↦ rw e (h, k)
]

sift-Falls : (x : Text) (rev : List Text) → Falls rev → Falls (sift x rev)
unfolding sift
sift-Falls x [] h = (tt, tt)
sift-Falls x (y ∷ rev) h = elim (Bool-cases (text_lt x y)) [
  | inl e ↦
      rw e
        (All-sift (λ z. text_lt y z ≡ false) x rev (text_lt_asym x y e) h.0, sift-Falls x rev h.1)
  | inr e ↦ rw e (
    (
      e,
      All-map (λ z. text_lt y z ≡ false) (λ z. text_lt x z ≡ false) rev
          (λ z k. text_lt_trans x y z e k) h.0,
    ),
    h,
  )
]

sift_perm : (x : Text) (rev : List Text) → Perm (sift x rev) (x ∷ rev)
unfolding sift
sift_perm x [] = Perm.refl (x ∷ [])
sift_perm x (y ∷ rev) = elim (Bool-cases (text_lt x y)) [
  | inl e ↦ rw e (Perm.trans (Perm.cons y (sift_perm x rev)) (Perm.swap x y rev))
  | inr e ↦ rw e (Perm.refl (x ∷ y ∷ rev))
]

sort_from-Falls : (rev xs : List Text) → Falls rev → Falls (sort_from rev xs)
unfolding sort_from
sort_from-Falls rev [] h = h
sort_from-Falls rev (x ∷ xs) h = sort_from-Falls (sift x rev) xs (sift-Falls x rev h)

sort_from_perm : (rev xs : List Text) → Perm (sort_from rev xs) (rev ++ xs)
unfolding sort_from
sort_from_perm rev [] = rw (append-nil rev) (Perm.refl rev)
sort_from_perm rev (x ∷ xs) =
    Perm.trans (sort_from_perm (sift x rev) xs)
      (Perm.trans (Perm.append_right xs (sift_perm x rev)) (Perm.symm (perm_middle rev xs)))

pub All-snoc {κ} :
    (P : Text → Type κ) (xs : List Text) (x : Text) → All P xs → P x → All P (xs ++ x ∷ [])
All-snoc P [] x h k = (k, tt)
All-snoc P (y ∷ xs) x h k = (h.0, All-snoc P xs x h.1 k)

IsSorted-snoc :
    (xs : List Text) (x : Text)
    → IsSorted xs
    → All (λ y. text_lt x y ≡ false) xs
    → IsSorted (xs ++ x ∷ [])
IsSorted-snoc [] x h k = (tt, tt)
IsSorted-snoc (y ∷ xs) x h k =
    (All-snoc (λ z. text_lt z y ≡ false) xs x h.0 k.0, IsSorted-snoc xs x h.1 k.1)

All-reverse {κ} : (P : Text → Type κ) (xs : List Text) → All P xs → All P (reverse xs)
All-reverse P [] h = tt
All-reverse P (x ∷ xs) h =
    rw (reverse-append (x ∷ []) xs) (All-snoc P (reverse xs) x (All-reverse P xs h.1) h.0)

Falls-reverse : (rev : List Text) → Falls rev → IsSorted (reverse rev)
Falls-reverse [] h = tt
Falls-reverse (x ∷ rev) h = rw (reverse-append (x ∷ []) rev) (
    IsSorted-snoc (reverse rev) x (Falls-reverse rev h.1)
      (All-reverse (λ y. text_lt x y ≡ false) rev h.0))

All-sort_from {κ} :
    (P : Text → Type κ) (rev xs : List Text) → All P rev → All P xs → All P (sort_from rev xs)
unfolding sort_from
All-sort_from P rev [] h k = h
All-sort_from P rev (x ∷ xs) h k = All-sort_from P (sift x rev) xs (All-sift P x rev k.0 h) k.1

pub All-sorted_strings {κ} :
    (P : Text → Type κ) (xs : List Text) → All P xs → All P (sorted_strings xs)
unfolding sorted_strings
All-sorted_strings P xs h = All-reverse P (sort_from [] xs) (All-sort_from P [] xs tt h)

-- The countries of a location are put in order, and none is lost or added: sortedStrings gives a
-- permutation of its argument in which no text stands before a smaller one.
pub sorted_strings_lem :
    (xs : List Text) → IsSorted (sorted_strings xs) × Perm (sorted_strings xs) xs
unfolding sorted_strings
sorted_strings_lem xs = (
  Falls-reverse (sort_from [] xs) (sort_from-Falls [] xs tt),
  Perm.trans (reverse_perm (sort_from [] xs)) (sort_from_perm [] xs),
)
