-- ===== src/Dedupe/SimHash.antt =====
-- internal/dedupe/simhash.go: the 64-bit signature and the distance of two signatures.
pub mod Hamming
use devsignal.Prelude.{
  ℕ, zero, suc, ◌+◌, ◌*◌, ◌/◌, ◌%◌, ◌^◌, Bool, true, false, List, [], ◌∷◌, map, ltb, ◌==◌,
  if◌then◌else◌,
}
use devsignal.Prelude.Int.{ℤ, pos, ◌+ℤ◌, ◌-ℤ◌, ltb_ℤ}
use devsignal.Prelude.Text.{Text}
use devsignal.Dedupe.Tokens.{shingles}

-- `a ^ b` on the lowest bits, as many as the first argument says.
unfoldable pub xor : ℕ → ℕ → ℕ → ℕ
xor zero a b = 0
xor (suc k) a b = (a % 2 + b % 2) % 2 + 2 * xor k (a / 2) (b / 2)

-- hash/fnv, 64-bit FNV-1a. A shingle is ASCII, so its code points are its bytes.
unfoldable pub fnv_from : ℕ → Text → ℕ
unfolding xor
fnv_from h [] = h
fnv_from h (c ∷ s) = fnv_from (xor 64 h c * 1_099_511_628_211 % 2 ^ 64) s

unfoldable pub fnv64a : Text → ℕ
unfolding fnv_from
fnv64a s = fnv_from 14_695_981_039_346_656_037 s

-- `sig&(1<<uint(bit)) != 0`
abbrev pub has_bit : ℕ → ℕ → Bool
has_bit sig bit = sig / 2 ^ bit % 2 == 1

-- `weights[bit]` after the loop over the signatures of the shingles.
unfoldable pub weight_from : ℤ → ℕ → List ℕ → ℤ
unfolding ◌+ℤ◌ ◌-ℤ◌
weight_from w bit [] = w
weight_from w bit (sig ∷ sigs) =
    weight_from (if has_bit sig bit then w +ℤ pos 1 else w -ℤ pos 1) bit sigs

-- The last loop, over the first `bits` bits: setting a bit that is not set yet adds its value.
unfoldable pub assemble : ℕ → List ℕ → ℕ
unfolding weight_from
assemble zero sigs = 0
assemble (suc bit) sigs =
    if ltb_ℤ (pos 0) (weight_from (pos 0) bit sigs)
    then assemble bit sigs + 2 ^ bit
    else assemble bit sigs

unfoldable pub signature : List Text → ℕ
unfolding assemble fnv64a
signature [] = 0
signature shs = assemble 64 (map fnv64a shs)

unfoldable pub sim_hash : (ℕ → ℕ) → Text → ℕ
unfolding shingles signature
sim_hash unicode text = signature (shingles unicode text)

-- bits.OnesCount64
unfoldable pub ones_count : ℕ → ℕ → ℕ
ones_count zero n = 0
ones_count (suc k) n = n % 2 + ones_count k (n / 2)

unfoldable pub hamming : ℕ → ℕ → ℕ
unfolding ones_count xor
hamming a b = ones_count 64 (xor 64 a b)
