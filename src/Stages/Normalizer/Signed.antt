-- ===== src/Stages/Normalizer/Signed.antt =====
-- The signature of a posting in its column.
use devsignal.Prelude.{
  refl, ℕ, zero, suc, ◌+◌, ◌^◌, ◌<◌, ◌≡◌, arith, some, List, [], ◌∷◌, map, Bool-cases, inl, inr,
  ltb,
}
use devsignal.Prelude.Int.{pos, ltb_ℤ}
use devsignal.Prelude.Text.{Text}
use devsignal.Dedupe.Tokens.{shingles}
use devsignal.Dedupe.SimHash.{weight_from, assemble, fnv64a, signature, sim_hash}
use devsignal.Stages.Normalizer.{signed_hash, unsigned_hash}

pow_suc : (n : ℕ) → 2 ^ suc n ≡ 2 ^ n + 2 ^ n
pow_suc n = omega arith

assemble-bound : (n : ℕ) (sigs : List ℕ) → assemble n sigs < 2 ^ n
unfolding assemble
assemble-bound zero sigs = omega arith
assemble-bound (suc n) sigs = elim (Bool-cases (ltb_ℤ (pos 0) (weight_from (pos 0) n sigs))) [
  | inl e ↦ rw e (omega (arith, assemble-bound n sigs, pow_suc n))
  | inr e ↦ rw e (omega (arith, assemble-bound n sigs, pow_suc n))
]

signature-bound : (shs : List Text) → signature shs < 2 ^ 64
unfolding signature
signature-bound [] = omega arith
signature-bound (w ∷ ws) = assemble-bound 64 (map fnv64a (w ∷ ws))

unsigned_hash-signed_hash : (h : ℕ) → h < 2 ^ 64 → unsigned_hash (some (signed_hash h)) ≡ h
unfolding unsigned_hash signed_hash
unsigned_hash-signed_hash h below = elim (Bool-cases (ltb h (2 ^ 63))) [
  | inl e ↦ rw e refl
  | inr e ↦ rw e (omega arith)
]

-- The signature of every text survives its column: what the normalizer stores as an int64, the
-- deduplication reads as the signature itself, with no bit lost.
pub stored_signature :
    (lower : ℕ → ℕ) (text : Text)
    → unsigned_hash (some (signed_hash (sim_hash lower text))) ≡ sim_hash lower text
unfolding sim_hash
stored_signature lower text =
    unsigned_hash-signed_hash (sim_hash lower text) (signature-bound (shingles lower text))
