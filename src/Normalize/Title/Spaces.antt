-- ===== src/Normalize/Title/Spaces.antt =====
-- Words and spaces: `fields` and `join`, and the texts that normalization leaves as they are.
use mathlib.Core.List.{append_assoc, append-nil}
use devsignal.Prelude.{
  ℕ, ◌≡◌, refl, sym, ap, ◌∙◌, false, false≢true, List, [], ◌∷◌, ◌++◌, map, inl, inr, Bool-cases,
  bytes, All,
}
use devsignal.Prelude.Text.{Text, join, fields, fields_from, is_space, push_word, is_empty}

abbrev pub IsSolid : Text → Type 0
IsSolid w = All (λ c. is_space c ≡ false) w

abbrev pub IsWord : Text → Type 0
IsWord w = (is_empty w ≡ false) × IsSolid w

pub map_fixed : (f : ℕ → ℕ) (s : Text) → All (λ c. f c ≡ c) s → map f s ≡ s
map_fixed f [] h = refl
map_fixed f (c ∷ s) h = rw (h.0, map_fixed f s h.1) refl

pub All-append {κ} : (P : ℕ → Type κ) (s t : Text) → All P s → All P t → All P (s ++ t)
All-append P [] t h k = k
All-append P (c ∷ s) t h k = (h.0, All-append P s t h.1 k)

All-join {κ} :
    (P : ℕ → Type κ) (ws : List Text) → P 32 → All (All P) ws → All P (join (bytes " ") ws)
unfolding join
All-join P [] p h = tt
All-join P (w ∷ []) p h = h.0
All-join P (w ∷ v ∷ vs) p h =
    All-append P w (32 ∷ join (bytes " ") (v ∷ vs)) h.0 (p, All-join P (v ∷ vs) p h.1)

All-push_word {κ} :
    (Q : Text → Type κ) (cur : Text) (ws : List Text)
    → (is_empty cur ≡ false → Q cur)
    → All Q ws
    → All Q (push_word cur ws)
All-push_word Q [] ws q h = h
All-push_word Q (c ∷ s) ws q h = (q refl, h)

-- What holds of every character holds of those of the words.
All-fields_from {κ} :
    (P : ℕ → Type κ) (cur s : Text) → All P cur → All P s → All (All P) (fields_from cur s)
unfolding fields_from
All-fields_from P cur [] h k = All-push_word (All P) cur [] (λ _. h) tt
All-fields_from P cur (c ∷ s) h k = elim (Bool-cases (is_space c)) [
  | inl e ↦
      rw e (All-push_word (All P) cur (fields_from [] s) (λ _. h) (All-fields_from P [] s tt k.1))
  | inr e ↦ rw e (All-fields_from P (cur ++ c ∷ []) s (All-append P cur (c ∷ []) h (k.0, tt)) k.1)
]

fields_from-IsWord : (cur s : Text) → IsSolid cur → All IsWord (fields_from cur s)
unfolding fields_from
fields_from-IsWord cur [] h = All-push_word IsWord cur [] (λ e. (e, h)) tt
fields_from-IsWord cur (c ∷ s) h = elim (Bool-cases (is_space c)) [
  | inl e ↦
      rw e (All-push_word IsWord cur (fields_from [] s) (λ n. (n, h)) (fields_from-IsWord [] s tt))
  | inr e ↦ rw e (
      fields_from-IsWord (cur ++ c ∷ []) s
        (All-append (λ d. is_space d ≡ false) cur (c ∷ []) h (e, tt)))
]

-- A solid stretch goes to the current word.
fields_from-append :
    (cur w s : Text) → IsSolid w → fields_from cur (w ++ s) ≡ fields_from (cur ++ w) s
unfolding fields_from
fields_from-append cur [] s h = rw (append-nil cur) refl
fields_from-append cur (c ∷ w) s h =
    rw h.0 (fields_from-append (cur ++ c ∷ []) w s h.1 ∙ rw (append_assoc cur (c ∷ []) w) refl)

fields-join : (ws : List Text) → All IsWord ws → fields (join (bytes " ") ws) ≡ ws
unfolding fields join fields_from is_space
fields-join [] h = refl
fields-join ([] ∷ ws) h = absurd (false≢true (sym h.0.0))
fields-join ((c ∷ w) ∷ []) h =
    ap (fields_from []) (sym (append-nil (c ∷ w))) ∙ fields_from-append [] (c ∷ w) [] h.0.1
fields-join ((c ∷ w) ∷ v ∷ vs) h =
    fields_from-append [] (c ∷ w) (32 ∷ join (bytes " ") (v ∷ vs)) h.0.1
    ∙ ap (λ t. (c ∷ w) ∷ t) (fields-join (v ∷ vs) h.1)

-- One space between the words, and none at the ends.
unfoldable pub spaced : Text → Text
spaced s = join (bytes " ") (fields s)

pub spaced-spaced : (s : Text) → spaced (spaced s) ≡ spaced s
unfolding spaced fields
spaced-spaced s = ap (join (bytes " ")) (fields-join (fields s) (fields_from-IsWord [] s tt))

pub All-spaced {κ} : (P : ℕ → Type κ) (s : Text) → P 32 → All P s → All P (spaced s)
unfolding spaced fields
All-spaced P s p h = All-join P (fields s) p (All-fields_from P [] s tt h)

pub All-map_to {κ} : (P : ℕ → Type κ) (f : ℕ → ℕ) (s : Text) → ((c : ℕ) → P (f c)) → All P (map f s)
All-map_to P f [] h = tt
All-map_to P f (c ∷ s) h = (h c, All-map_to P f s h)
