-- ===== src/Prelude/Evolves.antt =====
-- How a table grows: new rows go in front, and every old row is kept or changed in its place.
use mathlib.Core.List.{List, [], ◌∷◌, map}

module _ {ℓ} {A : Type ℓ} where
  pub data Pointwise {κ} (R : A → A → Type κ) : List A → List A → Type (ℓ ⊔ κ) where
    nil : Pointwise R [] []
    cons : {x y : A} {xs ys : List A} → R x y → Pointwise R xs ys → Pointwise R (x ∷ xs) (y ∷ ys)

  -- R holds of an old row and what became of it, Q of a new row.
  pub data Evolves {κ} (R : A → A → Type κ) (Q : A → Type κ) : List A → List A → Type (ℓ ⊔ κ) where
    kept : {xs ys : List A} → Pointwise R xs ys → Evolves R Q xs ys
    added : {xs ys : List A} {y : A} → Q y → Evolves R Q xs ys → Evolves R Q xs (y ∷ ys)

  module _ {κ} where
    pub Pointwise-map :
        {R : A → A → Type κ} (f : A → A) (xs : List A)
        → ((x : A) → R x (f x))
        → Pointwise R xs (map f xs)
    Pointwise-map f [] r = nil
    Pointwise-map f (x ∷ xs) r = cons (r x) (Pointwise-map f xs r)

    pub Pointwise-map-map :
        {R : A → A → Type κ} (f g : A → A) (xs : List A)
        → ((x : A) → R x (g (f x)))
        → Pointwise R xs (map g (map f xs))
    Pointwise-map-map f g [] r = nil
    Pointwise-map-map f g (x ∷ xs) r = cons (r x) (Pointwise-map-map f g xs r)

    pub Pointwise-refl : {R : A → A → Type κ} (xs : List A) → ((x : A) → R x x) → Pointwise R xs xs
    Pointwise-refl [] r = nil
    Pointwise-refl (x ∷ xs) r = cons (r x) (Pointwise-refl xs r)

    pub Pointwise-trans :
        {R S T : A → A → Type κ} {xs ys zs : List A}
        → ((x y z : A) → R x y → S y z → T x z)
        → Pointwise R xs ys
        → Pointwise S ys zs
        → Pointwise T xs zs
    Pointwise-trans c nil nil = nil
    Pointwise-trans c (cons r p) (cons s q) = cons (c _ _ _ r s) (Pointwise-trans c p q)

    pub Evolves-then :
        {R S T : A → A → Type κ} {P Q : A → Type κ} {xs ys zs : List A}
        → ((x y z : A) → R x y → S y z → T x z)
        → ((y z : A) → P y → S y z → Q z)
        → Evolves R P xs ys
        → Pointwise S ys zs
        → Evolves T Q xs zs
    Evolves-then c k (kept p) q = kept (Pointwise-trans c p q)
    Evolves-then c k (added h e) (cons s q) = added (k _ _ h s) (Evolves-then c k e q)

    pub Evolves-trans :
        {R : A → A → Type κ} {Q : A → Type κ} {xs ys zs : List A}
        → ((x y z : A) → R x y → R y z → R x z)
        → ((y z : A) → Q y → R y z → Q z)
        → Evolves R Q xs ys
        → Evolves R Q ys zs
        → Evolves R Q xs zs
    Evolves-trans c k e (kept q) = Evolves-then c k e q
    Evolves-trans c k e (added h f) = added h (Evolves-trans c k e f)
