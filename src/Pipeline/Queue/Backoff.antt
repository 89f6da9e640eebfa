-- ===== src/Pipeline/Queue/Backoff.antt =====
-- `backoff`: exponential, with a ceiling that holds also where float64 and int64 give out.
use devsignal.Prelude.{ℕ, ◌-◌, ◌*◌, ◌^◌, ◌≤◌, ◌<◌, ◌≡◌, lt→ltb, arith, ◌⊎◌, ltb, if◌then◌else◌}
use Prim.Native.Nat.{min}
use native.Mathlib.Nat.{one-le-pow, mul-pos, pow-le-pow_right, mul-le-mul_left}
use devsignal.Prelude.Int.{ℤ, pos, negsuc}
use devsignal.Pipeline.Queue.{Config, float64, ceiling, to_int64, backoff}

-- What a platform's conversion makes of a value beyond int64: the least int64, or the greatest.
abbrev pub IsOverflow : ℤ → Type 0
IsOverflow z = (z ≡ negsuc (2 ^ 63 - 1)) ⊎ (z ≡ pos (2 ^ 63 - 1))

-- An integer of at most 53 bits is a float64.
pub float64_exact : (n : ℕ) → n < 2 ^ 53 → float64 n ≡ n
unfolding float64
float64_exact n h = rw (lt→ltb n (2 ^ 53) h) (ground arith)

ceiling_lem :
    (max_backoff x : ℕ) (overflow : ℤ)
    → IsOverflow overflow
    → 0 < x
    → max_backoff < 2 ^ 63 - 1
    → ceiling max_backoff (to_int64 overflow x) ≡ min x max_backoff
unfolding ceiling to_int64
ceiling_lem max_backoff x overflow o p m = ground arith

pow_pos : (k : ℕ) → 0 < 2 ^ k
pow_pos k = one-le-pow k 2 (omega arith)

-- The delay after the given number of attempts doubles from the base for each attempt after the
-- first, up to the ceiling: for a positive base below 2 ^ 53 nanoseconds and a ceiling below the
-- greatest int64, whichever of the two extreme int64 values the platform converts an overflow to.
pub backoff_exact :
    (cfg : Config) (overflow : ℤ) (attempts : ℕ)
    → IsOverflow overflow
    → 0 < cfg.base_backoff
    → cfg.base_backoff < 2 ^ 53
    → cfg.max_backoff < 2 ^ 63 - 1
    → backoff cfg overflow attempts ≡ min (cfg.base_backoff * 2 ^ (attempts - 1)) cfg.max_backoff
unfolding backoff
backoff_exact cfg overflow attempts o p b m =
    let steps : (if ltb attempts 1 then 1 else attempts) - 1 ≡ attempts - 1 = ground arith in
    rw (float64_exact cfg.base_backoff b, steps)
      (ceiling_lem cfg.max_backoff (cfg.base_backoff * 2 ^ (attempts - 1)) overflow o
        (mul-pos p (pow_pos (attempts - 1))) m)

-- Under the same conditions a later attempt never waits less, and none waits longer than the
-- ceiling.
pub backoff_grows :
    (cfg : Config) (overflow : ℤ) (a b : ℕ)
    → IsOverflow overflow
    → 0 < cfg.base_backoff
    → cfg.base_backoff < 2 ^ 53
    → cfg.max_backoff < 2 ^ 63 - 1
    → a ≤ b
    → (backoff cfg overflow a ≤ backoff cfg overflow b) × (backoff cfg overflow b ≤ cfg.max_backoff)
backoff_grows cfg overflow a b o p q m le =
    let powers : 2 ^ (a - 1) ≤ 2 ^ (b - 1) = pow-le-pow_right (omega arith) (omega arith) in
    let products : cfg.base_backoff * 2 ^ (a - 1) ≤ cfg.base_backoff * 2 ^ (b - 1) =
      mul-le-mul_left cfg.base_backoff powers in
    omega
      (arith, backoff_exact cfg overflow a o p q m, backoff_exact cfg overflow b o p q m, products)
