-- ===== src/Dedupe/SimHash/Hamming.antt =====
-- The distance of two signatures is a metric on 64-bit words.
use devsignal.Prelude.{
  ℕ, zero, suc, ◌+◌, ◌*◌, ◌/◌, ◌%◌, ◌^◌, ◌≤◌, ◌<◌, ◌≡◌, ◌↔◌, refl, ap, sym, ◌∙◌, arith,
}
use devsignal.Dedupe.SimHash.{xor, ones_count, hamming}

-- 1 where the lowest bits differ.
abbrev differs : ℕ → ℕ → ℕ
differs a b = (a % 2 + b % 2) % 2

abbrev distance : ℕ → ℕ → ℕ → ℕ
distance k a b = ones_count k (xor k a b)

low_bit : (d x : ℕ) → d < 2 → ((d + 2 * x) % 2 ≡ d) × ((d + 2 * x) / 2 ≡ x)
low_bit d x h = (omega arith, omega arith)

distance_step : (k a b : ℕ) → distance (suc k) a b ≡ differs a b + distance k (a / 2) (b / 2)
unfolding ones_count xor
distance_step k a b =
    let bits = low_bit (differs a b) (xor k (a / 2) (b / 2)) (omega arith) in
    rw (bits.0, bits.1) refl

distance_bound : (k n : ℕ) → ones_count k n ≤ k
unfolding ones_count
distance_bound zero n = omega arith
distance_bound (suc k) n = omega (arith, distance_bound k (n / 2))

distance_sym : (k a b : ℕ) → distance k a b ≡ distance k b a
unfolding ones_count
distance_sym zero a b = refl
distance_sym (suc k) a b =
    grind (arith, distance_step k a b, distance_step k b a, distance_sym k (a / 2) (b / 2))

distance_triangle : (k a b c : ℕ) → distance k a c ≤ distance k a b + distance k b c
unfolding ones_count
distance_triangle zero a b c = omega arith
distance_triangle (suc k) a b c = grind (
  arith,
  distance_step k a b,
  distance_step k b c,
  distance_step k a c,
  distance_triangle k (a / 2) (b / 2) (c / 2),
)

distance_self : (k a : ℕ) → distance k a a ≡ 0
unfolding ones_count
distance_self zero a = refl
distance_self (suc k) a = grind (arith, distance_step k a a, distance_self k (a / 2))

distance_zero : (k a b : ℕ) → a < 2 ^ k → b < 2 ^ k → distance k a b ≡ 0 → a ≡ b
unfolding ones_count
distance_zero zero a b p q e = omega arith
distance_zero (suc k) a b p q e =
    let halves : a / 2 ≡ b / 2 =
      distance_zero k (a / 2) (b / 2) (omega arith) (omega arith)
        (omega (arith, distance_step k a b)) in
    grind (arith, distance_step k a b)

-- `Hamming` is a metric on signatures: no two of them are further than 64 apart, the distance is
-- the same in both directions, it satisfies the triangle inequality, and below 2 ^ 64 it is zero
-- exactly between equal signatures.
pub hamming_metric :
    (a b c : ℕ)
    → (hamming a b ≤ 64)
      × (hamming a b ≡ hamming b a)
      × (hamming a c ≤ hamming a b + hamming b c)
      × (a < 2 ^ 64 → b < 2 ^ 64 → (hamming a b ≡ 0) ↔ (a ≡ b))
unfolding hamming
hamming_metric a b c = (
  distance_bound 64 (xor 64 a b),
  distance_sym 64 a b,
  distance_triangle 64 a b c,
  λ p q. (distance_zero 64 a b p q, λ e. ap (λ x. distance 64 a x) (sym e) ∙ distance_self 64 a),
)
