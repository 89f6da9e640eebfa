-- ===== src/GhostRisk/Examples.antt =====
-- The theorems about internal/ghostrisk at concrete signals, and tests.
use devsignal.Prelude.{ℕ, ◌/◌, ◌*◌, ◌≡◌, refl, Bool, true, bytes}
use devsignal.Prelude.Int.{ℤ, pos, negsuc}
use devsignal.GhostRisk.{Signals, elevated, assess, plural, replace, itoa}

abbrev day : ℕ
day = 86_400_000_000_000

-- Truncated division by a day.
abbrev whole_days : ℤ → ℤ
whole_days (pos n) = pos (n / day)
whole_days (negsuc n) = pos 0

abbrev signals : ℕ → Bool → Signals
signals reposts apply = record {
  first_seen_at = pos 0;
  last_verified_at = pos 0;
  repost_count = pos reposts;
  has_apply_method = apply;
  company_median_days_to_close = pos 0;
}

test_plural : plural (pos 12) (bytes "seen %d time%s") ≡ bytes "seen 12 times"
unfolding plural replace itoa
test_plural = refl

-- Without a median 70 days are elevated.
test_old : (assess whole_days (signals 0 true) (pos (70 * day))).band ≡ elevated
unfolding assess
test_old = refl
