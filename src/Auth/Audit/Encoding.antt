-- ===== src/Auth/Audit/Encoding.antt =====
-- What is hashed determines its fields.
use native.Mathlib.Nat.{div-add-mod, div-div-eq-div-mul}
use native.Mathlib.Numerals.{unary_clauses}
use mathlib.Core.List.{append_assoc, append-nil}
use devsignal.Prelude.{
  ℕ, zero, suc, ◌+◌, ◌*◌, ◌/◌, ◌%◌, ◌^◌, ◌<◌, ◌≡◌, refl, ap, sym, ◌∙◌, [], ◌∷◌, ◌++◌, length, arith,
}
use devsignal.Prelude.Text.{Text}
use devsignal.Auth.Audit.{big_endian, field, payload}

abbrev head : ℕ → Text → ℕ
head d [] = d
head d (c ∷ s) = c

abbrev tail : Text → Text
tail [] = []
tail (c ∷ s) = s

cons-injective : {c d : ℕ} {s t : Text} → c ∷ s ≡ d ∷ t → (c ≡ d) × (s ≡ t)
cons-injective e = (ap (head 0) e, ap tail e)

-- Lists of one length in front of others can be told apart.
pub append-injective : (a b s t : Text) → length a ≡ length b → a ++ s ≡ b ++ t → (a ≡ b) × (s ≡ t)
append-injective [] [] s t h e = (refl, e)
append-injective [] (d ∷ b) s t h e = absurd (omega arith)
append-injective (c ∷ a) [] s t h e = absurd (omega arith)
append-injective (c ∷ a) (d ∷ b) s t h e =
    let first = cons-injective e in
    let rest = append-injective a b s t (omega (arith, h)) first.1 in (cc, rest.1)

length-big_endian : (k n : ℕ) → length (big_endian k n) ≡ k
unfolding big_endian
length-big_endian zero n = refl
length-big_endian (suc k) n = ap suc (length-big_endian k n)

-- The digits of a number, highest first, determine it.
mod-mul : (w n : ℕ) → n % (w * 256) ≡ n / w % 256 * w + n % w
mod-mul w n =
    let high = ap (λ q. w * q) (div-add-mod (n / w) 256) in
    let joined = ap (λ q. w * 256 * q) (div-div-eq-div-mul n w 256) in
    grind (arith, div-add-mod n w, div-add-mod n (w * 256), high, joined)

mod_split : (k n : ℕ) → n % 256 ^ suc k ≡ n / 256 ^ k % 256 * 256 ^ k + n % 256 ^ k
mod_split k n = simp unary_clauses (mod-mul (256 ^ k) n)

big_endian-mod : (k m n : ℕ) → big_endian k m ≡ big_endian k n → m % 256 ^ k ≡ n % 256 ^ k
unfolding big_endian
big_endian-mod zero m n e = omega arith
big_endian-mod (suc k) m n e =
    let first = cons-injective e in
    mod_split k m
    ∙ ap (λ x. x * 256 ^ k + m % 256 ^ k) first.0
    ∙ ap (λ x. n / 256 ^ k % 256 * 256 ^ k + x) (big_endian-mod k m n first.1)
    ∙ sym (mod_split k n)

big_endian-injective : (m n : ℕ) → m < 2 ^ 64 → n < 2 ^ 64 → big_endian 8 m ≡ big_endian 8 n → m ≡ n
big_endian-injective m n p q e = omega (arith, big_endian-mod 8 m n e)

-- A field in front of a text can be read off.
field-injective :
    (a b s t : Text)
    → length a < 2 ^ 64
    → length b < 2 ^ 64
    → field a ++ s ≡ field b ++ t
    → (a ≡ b) × (s ≡ t)
unfolding field
field-injective a b s t p q e =
    let split_a = append_assoc (big_endian 8 (length a)) a s in
    let split_b = append_assoc (big_endian 8 (length b)) b t in
    let sizes =
      append-injective (big_endian 8 (length a)) (big_endian 8 (length b)) (a ++ s) (b ++ t)
        (length-big_endian 8 (length a) ∙ sym (length-big_endian 8 (length b)))
        (sym split_a ∙ e ∙ split_b) in
    append-injective a b s t (big_endian-injective (length a) (length b) p q sizes.0) sizes.1

-- What chainHash hashes determines the previous hash and every field, where the previous hashes are of
-- one length and no field is longer than 2 ^ 64 - 1 bytes: no two different entries are hashed from
-- the same bytes.
pub payload-injective :
    (p q a b s t m n : Text)
    → length p ≡ length q
    → length a < 2 ^ 64
    → length b < 2 ^ 64
    → length s < 2 ^ 64
    → length t < 2 ^ 64
    → length m < 2 ^ 64
    → length n < 2 ^ 64
    → payload p a s m ≡ payload q b t n
    → (p ≡ q) × (a ≡ b) × (s ≡ t) × (m ≡ n)
unfolding payload
payload-injective p q a b s t m n h ha hb hs ht hm hn e =
    let prev = append-injective p q _ _ h e in
    let action = field-injective a b _ _ ha hb prev.1 in
    let subject = field-injective s t _ _ hs ht action.1 in
    let metadata =
      field-injective m n [] [] hm hn
        (append-nil (field m) ∙ subject.1 ∙ sym (append-nil (field n))) in
    (prev.0, action.0, subject.0, metadata.0)
