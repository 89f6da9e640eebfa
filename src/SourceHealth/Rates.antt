-- ===== src/SourceHealth/Rates.antt =====
-- `Compare`: which windows it can judge, and when it finds nothing.
use devsignal.Prelude.{
  ℕ, ◌*◌, ◌^◌, ◌≤◌, ◌<◌, ◌≡◌, ◌≢◌, ◌↔◌, ◌⊎◌, inl, inr, refl, true, false, List, [], ◌∷◌, ◌++◌,
  Bool-cases, ltb, ◌||◌, arith,
}
use devsignal.SourceHealth.{
  Float64, healthy, degraded, unknown, Field, company, location, apply_url, language, Metrics,
  Reason, count_of, rate, drops, yield_reasons, field_reasons, fill_reasons, judged, compare,
}

-- Whole numbers up to here are exact in float64.
abbrev pub exact : ℕ
exact = 2 ^ 53

-- What the code relies on of float64. The quotient of two whole numbers is correctly rounded, and
-- rounding keeps order; the relative drop from a positive quotient to one that is not smaller is not
-- positive; and the three constants are positive.
pub record IsFloat64 {F : Type 0} (d : Float64 F) : Type 0 where
  pub quotient_mono :
      (n t m u : ℕ)
      → 0 < t
      → 0 < u
      → n < exact
      → t < exact
      → m < exact
      → u < exact
      → n * u ≤ m * t
      → d.le (d.div (d.of_int n) (d.of_int t)) (d.div (d.of_int m) (d.of_int u)) ≡ true
  pub no_drop :
      (n t m u : ℕ)
      → 0 < t
      → 0 < u
      → n < exact
      → t < exact
      → m < exact
      → u < exact
      → let before = d.div (d.of_int n) (d.of_int t) in
        let after = d.div (d.of_int m) (d.of_int u) in
        d.lt d.zero before ≡ true
        → d.le before after ≡ true
        → d.le (d.div (d.sub before after) before) d.zero ≡ true
  pub floor_positive :
      (x : F) → d.le x x ≡ true → d.lt x d.fill_floor_to_care ≡ false → d.lt d.zero x ≡ true
  pub yield_limit_positive : (x : F) → d.le x d.zero ≡ true → d.le d.yield_drop_limit x ≡ false
  pub fill_limit_positive : (x : F) → d.le x d.zero ≡ true → d.le d.fill_drop_limit x ≡ false

module _ {F : Type 0} (d : Float64 F) where
  judged_status :
      (rs : List (Reason F)) → ((judged d rs).status ≡ healthy) ⊎ ((judged d rs).status ≡ degraded)
  unfolding judged
  judged_status [] = inl refl
  judged_status (r ∷ rs) = inr refl

  -- Compare says that it cannot tell exactly where one of the two windows has fewer than 20 postings.
  pub unknown_iff_small :
      (current baseline : Metrics)
      → ((compare d current baseline).status ≡ unknown)
        ↔ ((current.postings < 20) ⊎ (baseline.postings < 20))
  unfolding compare
  unknown_iff_small current baseline =
      elim (Bool-cases (ltb current.postings 20 || ltb baseline.postings 20)) [
        | inl e ↦ rw e ((λ _. small (current.postings) baseline.postings e), λ _. refl)
        | inr e ↦ rw e (
          (λ k. absurd (
              not_unknown (yield_reasons d current baseline ++ fill_reasons d current baseline) k)),
          (λ h. absurd (ground arith)),
        )
      ]
    where
      small : (a b : ℕ) → (ltb a 20 || ltb b 20) ≡ true → (a < 20) ⊎ (b < 20)
      small a b e = ground arith

      not_unknown : (rs : List (Reason F)) → (judged d rs).status ≢ unknown
      not_unknown [] e = cc
      not_unknown (r ∷ rs) e = cc

  -- One proportion, today and in the baseline: today's is at least as large.
  abbrev NoWorse : ℕ → ℕ → ℕ → ℕ → Type 0
  NoWorse n t m u = n * u ≤ m * t

  module _ (laws : IsFloat64 d) (t u : ℕ) (ht : 20 ≤ t) (hu : 20 ≤ u) (et : t < exact)
      (eu : u < exact) where
    rate-quotient : (n k : ℕ) → 20 ≤ k → rate d n k ≡ d.div (d.of_int n) (d.of_int k)
    unfolding rate
    rate-quotient n k h = ground arith

    rate_number : (n : ℕ) → n < exact → d.le (rate d n t) (rate d n t) ≡ true
    rate_number n en =
        rw (rate-quotient n t ht)
          (laws.quotient_mono n t n t (omega arith) (omega arith) en et en et (omega arith))

    not_dropped :
        (limit : F) (n m : ℕ)
        → ((x : F) → d.le x d.zero ≡ true → d.le limit x ≡ false)
        → n < exact
        → m < exact
        → NoWorse n t m u
        → d.lt d.zero (rate d n t) ≡ true
        → drops d limit (rate d n t) (rate d m u) ≡ false
    unfolding drops
    not_dropped limit n m positive en em h p =
        let before = d.div (d.of_int n) (d.of_int t) in
        let grows : d.le before (d.div (d.of_int m) (d.of_int u)) ≡ true =
          laws.quotient_mono n t m u (omega arith) (omega arith) en et em eu h in
        let above : d.lt d.zero before ≡ true = rw (← rate-quotient n t ht) p in
        rw (rate-quotient n t ht, rate-quotient m u hu)
          (positive _ (laws.no_drop n t m u (omega arith) (omega arith) en et em eu above grows))

  -- The counts of a window are exact in float64.
  abbrev pub IsExact : Metrics → Type 0
  IsExact m = (m.postings < exact) × (m.usable < exact) × ((f : Field) → count_of f m.fill < exact)

  -- No proportion of the current window is below that of the baseline, as fractions.
  abbrev pub IsNoWorse : Metrics → Metrics → Type 0
  IsNoWorse current baseline =
      (baseline.usable * current.postings ≤ current.usable * baseline.postings)
      × ((f : Field)
          → count_of f baseline.fill * current.postings
            ≤ count_of f current.fill * baseline.postings)

  module _ (laws : IsFloat64 d) (current baseline : Metrics) (hc : 20 ≤ current.postings)
      (hb : 20 ≤ baseline.postings) (ec : IsExact current) (eb : IsExact baseline)
      (no_worse : IsNoWorse current baseline) where
    no_yield_reason : yield_reasons d current baseline ≡ []
    unfolding yield_reasons
    no_yield_reason = elim (Bool-cases (d.lt d.zero (rate d baseline.usable baseline.postings))) [
      | inl e ↦
          rw
            (
              e,
              not_dropped laws baseline.postings current.postings hb hc eb.0 ec.0 d.yield_drop_limit
                  baseline.usable current.usable laws.yield_limit_positive eb.1 ec.1 no_worse.0 e,
            )
            refl
      | inr e ↦ rw e refl
    ]

    no_field_reason : (f : Field) → field_reasons d current baseline f ≡ []
    unfolding field_reasons
    no_field_reason f =
        let before = rate d (count_of f baseline.fill) baseline.postings in
        elim (Bool-cases (d.lt before d.fill_floor_to_care)) [
          | inl e ↦ rw e refl
          | inr e ↦
              let number =
                rate_number laws baseline.postings current.postings hb hc eb.0 ec.0
                  (count_of f baseline.fill) (eb.2 f) in
              rw
                (
                  e,
                  not_dropped laws baseline.postings current.postings hb hc eb.0 ec.0
                      d.fill_drop_limit (count_of f baseline.fill) (count_of f current.fill)
                      laws.fill_limit_positive (eb.2 f) (ec.2 f) (no_worse.1 f)
                      (laws.floor_positive before number e),
                )
                refl
        ]

    -- A source that is no worse than it was is healthy. With at least 20 postings and counts below
    -- 2 ^ 53 on both sides, if the proportion of usable postings and that of each of the four fields
    -- are, as exact fractions, at least those of the baseline, then the comparison in float64 finds
    -- no reason and says healthy.
    pub no_worse_is_healthy : compare d current baseline ≡ record { status = healthy; reasons = [] }
    unfolding compare fill_reasons judged
    no_worse_is_healthy =
        rw
          (
            small_lem current.postings baseline.postings hc hb,
            no_yield_reason,
            no_field_reason company,
            no_field_reason location,
            no_field_reason apply_url,
            no_field_reason language,
          )
          refl
      where
        small_lem : (a b : ℕ) → 20 ≤ a → 20 ≤ b → (ltb a 20 || ltb b 20) ≡ false
        small_lem a b h k = ground arith
