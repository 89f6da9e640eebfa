-- ===== src/GhostRisk/Bands.antt =====
-- Which signals give which band.
use devsignal.Prelude.{
  ℕ, ◌+◌, ◌≤◌, ◌≡◌, ◌≢◌, ◌↔◌, ◌⊎◌, inl, inr, refl, ap, Bool, true, not, List, [], ◌∷◌, ltb,
  if◌then◌else◌, length, arith, length-append,
}
use devsignal.Prelude.Int.{ℤ, pos, ltb_ℤ, ◌*ℤ◌, ◌≤ℤ◌}
use devsignal.GhostRisk.{
  Band, normal, elevated, high, Signals, Reason, days_open, Score, score_reposts, score_age,
  score_apply, band_of, scored, assess,
}

-- The points of each signal.
unfoldable repost_points : ℤ → ℕ
repost_points n = if not (ltb_ℤ n (pos 4)) then 3 else if not (ltb_ℤ n (pos 2)) then 1 else 0

unfoldable age_points : ℤ → ℤ → ℕ
unfolding ◌*ℤ◌
age_points days median =
    if ltb_ℤ (pos 0) median
    then (if not (ltb_ℤ days (median *ℤ pos 6))
        then 2
        else if not (ltb_ℤ days (median *ℤ pos 3))
        then 1
        else 0)
    else if not (ltb_ℤ days (pos 120))
    then 2
    else if not (ltb_ℤ days (pos 60))
    then 1
    else 0

abbrev apply_points : Bool → ℕ
apply_points has = if not has then 1 else 0

-- One reason for a signal with points.
abbrev one_if : ℕ → ℕ
one_if n = if ltb 0 n then 1 else 0

-- A step adds points, and one reason where there are any.
abbrev Adds : ℕ → Score → Score → Type 0
Adds n s t = (t.score ≡ s.score + n) × (length t.reasons ≡ length s.reasons + one_if n)

score_reposts-Adds :
    (g : Signals) (s : Score) → Adds (repost_points g.repost_count) s (score_reposts g s)
unfolding score_reposts repost_points
score_reposts-Adds g s = grind (arith, length-append)

score_age-Adds :
    (days median : ℤ) (s : Score) → Adds (age_points days median) s (score_age days median s)
unfolding score_age age_points
score_age-Adds days median s = grind (arith, length-append)

score_apply-Adds : (has : Bool) (s : Score) → Adds (apply_points has) s (score_apply has s)
unfolding score_apply
score_apply-Adds has s = grind (arith, length-append)

-- The points of an assessment, and the number of its reasons.
points : (ℤ → ℤ) → Signals → ℤ → ℕ
points days_of g now =
    repost_points g.repost_count
    + age_points (days_open days_of g.first_seen_at now) g.company_median_days_to_close
    + apply_points g.has_apply_method

scored_lem :
    (days_of : ℤ → ℤ) (g : Signals) (now : ℤ)
    → ((scored days_of g now).score ≡ points days_of g now)
      × (length (scored days_of g now).reasons
          ≡ one_if (repost_points g.repost_count)
            + one_if
                (age_points (days_open days_of g.first_seen_at now) g.company_median_days_to_close)
            + one_if (apply_points g.has_apply_method))
unfolding scored points
scored_lem days_of g now =
    let start : Score = record { score = 0; reasons = [] } in
    let days = days_open days_of g.first_seen_at now in
    let s = score_reposts g start in
    let t = score_age days g.company_median_days_to_close s in
    omega (
      arith,
      score_reposts-Adds g start,
      score_age-Adds days g.company_median_days_to_close s,
      score_apply-Adds g.has_apply_method t,
    )

repost_bounds :
    (n : ℤ)
    → (repost_points n ≤ 3)
      × (2 ≤ repost_points n → 3 ≤ repost_points n)
      × (pos 4 ≤ℤ n → 3 ≤ repost_points n)
      × (3 ≤ repost_points n → pos 4 ≤ℤ n)
      × (ltb_ℤ n (pos 2) ≡ true → repost_points n ≡ 0)
unfolding repost_points
repost_bounds n = ground arith

age_bounds : (days median : ℤ) → age_points days median ≤ 2
unfolding age_points
age_bounds days median = ground arith

empty_lem : (rs : List Reason) → length rs ≡ 0 → rs ≡ []
empty_lem [] h = refl
empty_lem (r ∷ rs) h = absurd (omega arith)

band_normal : (n : ℕ) → (band_of n ≡ normal) ↔ (n ≡ 0)
band_normal n = ground arith

band_high : (n : ℕ) → (band_of n ≡ high) ↔ (3 ≤ n)
band_high n = ground arith

apply_bounds : (has : Bool) → apply_points has ≤ 1
apply_bounds has = ground arith

-- Three points take the repost signal at its highest, or two signals.
two_signals :
    (r a p : ℕ)
    → r ≤ 3
    → (2 ≤ r → 3 ≤ r)
    → a ≤ 2
    → p ≤ 1
    → 3 ≤ r + a + p
    → (3 ≤ r) ⊎ (2 ≤ one_if r + one_if a + one_if p)
two_signals r a p h k i j l = ground arith

no_signals : (r a p : ℕ) → (r + a + p ≡ 0) ↔ (one_if r + one_if a + one_if p ≡ 0)
no_signals r a p = ground arith

-- A posting is flagged exactly where a reason is shown: the band is normal if and only if there are
-- no reasons. At 4 reposts or more it is always high; and a high band always has 4 reposts or more,
-- or at least two reasons.
pub assess_bands :
    (days_of : ℤ → ℤ) (g : Signals) (now : ℤ)
    → let a = assess days_of g now in
      ((a.band ≡ normal) ↔ (a.reasons ≡ []))
      × (pos 4 ≤ℤ g.repost_count → a.band ≡ high)
      × (a.band ≡ high → (pos 4 ≤ℤ g.repost_count) ⊎ (2 ≤ length a.reasons))
unfolding assess points
assess_bands days_of g now =
    let l = scored_lem days_of g now in
    let s = scored days_of g now in
    let reposts = repost_bounds g.repost_count in
    let age = age_bounds (days_open days_of g.first_seen_at now) g.company_median_days_to_close in
    let normal_lem = band_normal s.score in
    let none =
      no_signals (repost_points g.repost_count)
        (age_points (days_open days_of g.first_seen_at now) g.company_median_days_to_close)
        (apply_points g.has_apply_method) in
    let high_lem = band_high s.score in
    (
      (
        (λ e. empty_lem s.reasons (omega (arith, l, none.0 (omega (arith, l, normal_lem.0 e))))),
        (λ e. normal_lem.1 (omega (arith, l, none.1 (omega (arith, l, ap length e))))),
      ),
      (λ e. high_lem.1 (omega (arith, l, reposts.2 e))),
      (λ e.
          elim (two_signals _ _ _ reposts.0 reposts.1 age (apply_bounds g.has_apply_method)
            (omega (arith, l, high_lem.0 e))) [
              | inl often ↦ inl (reposts.3 often)
              | inr both ↦ inr (omega (arith, l, both))
            ]),
    )

repost_mono : (m n : ℤ) → m ≤ℤ n → repost_points m ≤ repost_points n
unfolding repost_points
repost_mono m n h = ground arith

age_mono : (d e median : ℤ) → d ≤ℤ e → age_points d median ≤ age_points e median
unfolding age_points
age_mono d e median h = ground arith

apply_mono : (a b : Bool) → (b ≡ true → a ≡ true) → apply_points a ≤ apply_points b
apply_mono a b h = ground arith

abbrev pub rank : Band → ℕ
rank normal = 0
rank elevated = 1
rank high = 2

rank_mono : (m n : ℕ) → m ≤ n → rank (band_of m) ≤ rank (band_of n)
rank_mono m n h = ground arith

-- More suspicion never lowers the band: with the same median, if a posting has been open at least as
-- many days, has been reposted at least as often, and has an apply method only if the other has
-- one, its band is at least that of the other.
pub assess_monotone :
    (days_of : ℤ → ℤ) (g h : Signals) (now later : ℤ)
    → g.company_median_days_to_close ≡ h.company_median_days_to_close
    → g.repost_count ≤ℤ h.repost_count
    → days_open days_of g.first_seen_at now ≤ℤ days_open days_of h.first_seen_at later
    → (h.has_apply_method ≡ true → g.has_apply_method ≡ true)
    → rank (assess days_of g now).band ≤ rank (assess days_of h later).band
unfolding assess points
assess_monotone days_of g h now later m r d a =
    let days = days_open days_of g.first_seen_at now in
    let days' = days_open days_of h.first_seen_at later in
    rank_mono (scored days_of g now).score (scored days_of h later).score (
      omega (
        arith,
        scored_lem days_of g now,
        scored_lem days_of h later,
        repost_mono g.repost_count h.repost_count r,
        apply_mono g.has_apply_method h.has_apply_method a,
        age_mono days days' g.company_median_days_to_close d,
        ap (age_points days') m,
      ))

-- Age alone never gives the highest band: a posting that can be applied to and has fewer than 2
-- reposts is not high, however long it has been open.
pub age_alone :
    (days_of : ℤ → ℤ) (g : Signals) (now : ℤ)
    → g.has_apply_method ≡ true
    → ltb_ℤ g.repost_count (pos 2) ≡ true
    → (assess days_of g now).band ≢ high
unfolding assess points
age_alone days_of g now a r e =
    let old = age_bounds (days_open days_of g.first_seen_at now) g.company_median_days_to_close in
    omega (
      arith,
      scored_lem days_of g now,
      (band_high (scored days_of g now).score).0 e,
      (repost_bounds g.repost_count).4 r,
      ap apply_points a,
      old,
    )
