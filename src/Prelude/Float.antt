-- ===== src/Prelude/Float.antt =====
-- Go's rounding of a non-negative number to a floating-point number.
use Prim.Native.Nat.{ℕ, zero, suc, ◌+◌, ◌*◌, ◌/◌, ◌%◌, ◌^◌}
use mathlib.Core.Bool.{◌&&◌, ◌||◌}
use devsignal.Prelude.Tests.{ltb, ◌==◌, if◌then◌else◌}

-- The nearest multiple of `unit`; halfway goes to the even one.
unfoldable pub round_to : ℕ → ℕ → ℕ
round_to unit n =
    let q = n / unit in
    let r = n % unit in
    if ltb unit (2 * r) || 2 * r == unit && q % 2 == 1 then (q + 1) * unit else q * unit

-- The nearest number of `bits` significant bits: `unit` is the distance of two neighbours, doubled
-- until n has at most that many bits over it. The first argument counts the doublings that are left.
unfoldable pub float_from : ℕ → ℕ → ℕ → ℕ → ℕ
unfolding round_to
float_from zero bits unit n = round_to unit n
float_from (suc k) bits unit n =
    let rest = float_from k bits (2 * unit) n in
    if ltb n (2 ^ bits * unit) then round_to unit n else rest
