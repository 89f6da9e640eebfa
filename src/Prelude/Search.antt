-- ===== src/Prelude/Search.antt =====
-- Rows that a test selects: a search, an update, and the search after the update.
use mathlib.Core.Option.{some-injective, none-ne-some}
use mathlib.Core.Path.{◌≡◌, refl, sym, ap, ◌∙◌, subst}
use mathlib.Core.Logic.{inl, inr}
use mathlib.Core.Bool.{Bool, true, false, ◌||◌}
use mathlib.Core.Option.{Option, none, some}
use mathlib.Core.List.{List, [], ◌∷◌, map}
use native.Mathlib.Omega.{arith}
use devsignal.Prelude.Tests.{if◌then◌else◌, Bool-cases}
use devsignal.Prelude.Lists.{All}

-- The first row that a test selects.
unfoldable pub find {ℓ} : {A : Type ℓ} → (A → Bool) → List A → Option A
find p [] = none
find p (x ∷ xs) = if p x then some x else find p xs

-- An update of the rows that a test selects.
abbrev pub update {ℓ} : {A : Type ℓ} → (A → Bool) → (A → A) → A → A
update p f x = if p x then f x else x

abbrev pub on_found {ℓ} : {A : Type ℓ} → (A → A) → Option A → Option A
on_found f none = none
on_found f (some x) = some (f x)

module _ {ℓ} {A : Type ℓ} (p : A → Bool) where
  -- An update that a search does not see commutes with it.
  pub find-map :
      (f : A → A) (xs : List A)
      → ((x : A) → p (f x) ≡ p x)
      → find p (map f xs) ≡ on_found f (find p xs)
  unfolding find
  find-map f [] h = refl
  find-map f (x ∷ xs) h = elim (Bool-cases (p x)) [
    | inl e ↦ rw (h x, e) refl
    | inr e ↦ rw (h x, e) (find-map f xs h)
  ]

  -- What holds of every selected row holds of the one that is found.
  pub find-All {κ} :
      (P : A → Type κ) (xs : List A) (x : A)
      → All (λ y. p y ≡ true → P y) xs
      → find p xs ≡ some x
      → P x
  unfolding find
  find-All P [] x a h = absurd (none-ne-some x h)
  find-All P (y ∷ xs) x a h = elim (Bool-cases (p y)) [
    | inl e ↦
        subst P (some-injective y x (sym (ap (λ b. if b then some y else find p xs) e) ∙ h)) (a.0 e)
    | inr e ↦ find-All P xs x a.1 (sym (ap (λ b. if b then some y else find p xs) e) ∙ h)
  ]

  trivially : (xs : List A) → All (λ y. p y ≡ true → p y ≡ true) xs
  trivially [] = tt
  trivially (y ∷ xs) = (λ e. e, trivially xs)

  pub find-selects : (xs : List A) (x : A) → find p xs ≡ some x → p x ≡ true
  find-selects xs x h = find-All (λ y. p y ≡ true) xs x (trivially xs) h

  pub find-none : (xs : List A) → All (λ x. p x ≡ false) xs → find p xs ≡ none
  unfolding find
  find-none [] h = refl
  find-none (x ∷ xs) h = rw h.0 (find-none xs h.1)

pub update-yes {ℓ} :
    {A : Type ℓ} (q : A → Bool) (f : A → A) (x : A) → q x ≡ true → update q f x ≡ f x
update-yes q f x h = rw h refl

-- Whether a test selects a row.
abbrev pub any {ℓ} : {A : Type ℓ} → (A → Bool) → List A → Bool
any p [] = false
any p (x ∷ xs) = p x || any p xs

pub any-at {ℓ} :
    {A : Type ℓ} (p q : A → Bool) (xs : List A) (x : A)
    → q x ≡ true
    → find p xs ≡ some x
    → any q xs ≡ true
unfolding find
any-at p q [] x e h = absurd (none-ne-some x h)
any-at p q (y ∷ xs) x e h = elim (Bool-cases (p y)) [
  | inl f ↦ rw (some-injective y x (sym (ap (λ b. if b then some y else find p xs) f) ∙ h), e) refl
  | inr f ↦
      ||-true (q y) _ (any-at p q xs x e (sym (ap (λ b. if b then some y else find p xs) f) ∙ h))
]
  where
    ||-true : (a b : Bool) → b ≡ true → (a || b) ≡ true
    ||-true true b e = refl
    ||-true false b e = e

pub any-found {ℓ} :
    {A : Type ℓ} (p q : A → Bool) (xs : List A) (x : A)
    → ((y : A) → p y ≡ true → q y ≡ true)
    → find p xs ≡ some x
    → any q xs ≡ true
any-found p q xs x f h = any-at p q xs x (f x (find-selects p xs x h)) h

pub any-none {ℓ} :
    {A : Type ℓ} (p q : A → Bool) (xs : List A)
    → find p xs ≡ none
    → find q xs ≡ none
    → any (λ x. p x || q x) xs ≡ false
unfolding find
any-none p q [] h k = refl
any-none p q (x ∷ xs) h k = ground (arith, any-none p q xs)
