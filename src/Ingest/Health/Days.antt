-- ===== src/Ingest/Health/Days.antt =====
-- The row of a day is the sum of the day's polls.
use devsignal.Prelude.{
  ℕ, ◌+◌, ◌≡◌, refl, sym, ap, none, some, List, [], ◌∷◌, inl, inr, Bool-cases, ==_refl, arith, All,
}
use mathlib.Core.Path.{subst}
use mathlib.Core.Option.{some-injective, none-ne-some}
use devsignal.Prelude.Search.{find}
use devsignal.SourceHealth.{Fill, Metrics}
use devsignal.Ingest.Health.{
  HealthDay, Registry, is_day, accumulate, upsert_day, record_source_health, today_source_health,
  metrics_of,
}

abbrev IsOf : ℕ → ℕ → HealthDay → Type 0
IsOf source day p = (p.source_id ≡ source) × (p.day ≡ day)

-- The polls of a day, recorded one after another.
unfoldable pub record_polls : List HealthDay → Registry → Registry
record_polls [] reg = reg
record_polls (p ∷ ps) reg = record_polls ps (record_source_health p reg)

abbrev pub sum_of : (HealthDay → ℕ) → List HealthDay → ℕ
sum_of count [] = 0
sum_of count (p ∷ ps) = count p + sum_of count ps

-- What a day of these polls comes to.
abbrev pub totals : List HealthDay → Metrics
totals ps =
    let fill : Fill = record {
      company = sum_of (λ p. p.with_company) ps;
      location = sum_of (λ p. p.with_location) ps;
      apply_url = sum_of (λ p. p.with_apply_url) ps;
      language = sum_of (λ p. p.with_language) ps;
    } in
    record {
      postings = sum_of (λ p. p.postings_seen) ps;
      usable = sum_of (λ p. p.postings_usable) ps;
      fill = fill;
    }

-- The row under a key before and after a poll is recorded.
abbrev FoundAfter : ℕ → ℕ → HealthDay → List HealthDay → Type 0
FoundAfter source day p days =
    (find (is_day source day) days ≡ none → find (is_day source day) (upsert_day p days) ≡ some p)
    × ((h : HealthDay)
        → find (is_day source day) days ≡ some h
        → find (is_day source day) (upsert_day p days) ≡ some (accumulate p h))

found_own : (p : HealthDay) (days : List HealthDay) → FoundAfter p.source_id p.day p days
unfolding find upsert_day
found_own p [] =
    ((λ _. rw (==_refl p.source_id, ==_refl p.day) refl), λ h e. absurd (none-ne-some h e))
found_own p (h ∷ days) = elim (Bool-cases (is_day p.source_id p.day h)) [
  | inl e ↦ rw e (
    (λ k. absurd (none-ne-some h (sym k))),
    (λ h' k. rw e (ap (λ x. some (accumulate p x)) (some-injective h h' k))),
  )
  | inr e ↦ rw (e, find) (rw e (found_own p days))
]

found_after :
    (source day : ℕ) (p : HealthDay) (days : List HealthDay)
    → IsOf source day p
    → FoundAfter source day p days
found_after source day p days of =
    subst (λ k. FoundAfter k day p days) of.0
      (subst (λ k. FoundAfter p.source_id k p days) of.1 (found_own p days))

module _ (source day : ℕ) where
  -- Every counter of the row is what it was with the sum of the polls.
  abbrev Grows : List HealthDay → HealthDay → HealthDay → Type 0
  Grows ps h t =
      (t.polls ≡ h.polls + sum_of (λ p. p.polls) ps)
      × (t.poll_failures ≡ h.poll_failures + sum_of (λ p. p.poll_failures) ps)
      × (t.not_modified ≡ h.not_modified + sum_of (λ p. p.not_modified) ps)
      × (t.postings_seen ≡ h.postings_seen + sum_of (λ p. p.postings_seen) ps)
      × (t.postings_usable ≡ h.postings_usable + sum_of (λ p. p.postings_usable) ps)
      × (t.with_company ≡ h.with_company + sum_of (λ p. p.with_company) ps)
      × (t.with_location ≡ h.with_location + sum_of (λ p. p.with_location) ps)
      × (t.with_apply_url ≡ h.with_apply_url + sum_of (λ p. p.with_apply_url) ps)
      × (t.with_language ≡ h.with_language + sum_of (λ p. p.with_language) ps)

  polls_after :
      (ps : List HealthDay) (h : HealthDay) (reg : Registry)
      → All (IsOf source day) ps
      → today_source_health source day reg ≡ some h
      → (t : HealthDay) × (today_source_health source day (record_polls ps reg) ≡ some t)
        × Grows ps h t
  unfolding record_polls record_source_health today_source_health
  polls_after [] h reg all found = (h, found, omega arith)
  polls_after (p ∷ ps) h reg all found =
      let (t, found', grows) =
        polls_after ps (accumulate p h) (record_source_health p reg) all.1
          ((found_after source day p reg.days all.0).1 h found) in
      (t, found', omega (arith, grows))

  -- The day is judged on its sums, not on its last poll. Where no row of the day exists yet, the
  -- polls of that source and day leave one row, whose numbers of polls, failures and unmodified
  -- answers are the sums over the polls, and whose counts of postings, of usable postings and of
  -- filled fields, on which the source is judged, are sums too.
  pub day_is_sum :
      (p : HealthDay) (ps : List HealthDay) (reg : Registry)
      → IsOf source day p
      → All (IsOf source day) ps
      → today_source_health source day reg ≡ none
      → (t : HealthDay) × (today_source_health source day (record_polls (p ∷ ps) reg) ≡ some t)
        × (t.polls ≡ sum_of (λ q. q.polls) (p ∷ ps))
        × (t.poll_failures ≡ sum_of (λ q. q.poll_failures) (p ∷ ps))
        × (t.not_modified ≡ sum_of (λ q. q.not_modified) (p ∷ ps))
        × (metrics_of t ≡ totals (p ∷ ps))
  unfolding record_polls record_source_health today_source_health metrics_of
  day_is_sum p ps reg of all fresh =
      let (t, found, grows) =
        polls_after ps p (record_source_health p reg) all
          ((found_after source day p reg.days of).0 fresh) in
      (
        t,
        found,
        omega (arith, grows),
        omega (arith, grows),
        omega (arith, grows),
        ground (arith, grows),
      )
