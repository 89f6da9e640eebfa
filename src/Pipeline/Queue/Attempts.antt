-- ===== src/Pipeline/Queue/Attempts.antt =====
-- `Fail`: what a recorded failure does to the row, and how failures end.
use devsignal.Prelude.{
  ℕ, suc, ◌+◌, ◌≤◌, ◌<◌, ◌≡◌, true, none, some, List, [], ◌∷◌, length, arith, leb, if◌then◌else◌,
  ap, ◌∙◌,
}
use devsignal.Prelude.Int.{ℤ}
use devsignal.Pipeline.State.{State, failed_permanent}
use devsignal.Pipeline.Row.{Row, FailAttemptParams, claimable, claim_row, fail_row, stamped}
use devsignal.Pipeline.Row.Keys.{id-fail_row}
use devsignal.Pipeline.Table.{Table, find_row}
use devsignal.Pipeline.Table.Lookup.{find_row-map, find_row-id}
use devsignal.Pipeline.Queue.{Config, Item, pg_interval, backoff, truncate, fail}

-- The row after a failure that was recorded at `now`.
abbrev pub failed_at : Config → ℤ → Item → List ℕ → ℕ → Row → Row
failed_at cfg overflow it cause now r = stamped now r (record r {
  last_error = some (truncate 2000 cause);
  lease_until = none;
  next_attempt_at = now + pg_interval (backoff cfg overflow it.attempts);
  state = if leb cfg.max_attempts r.attempts then failed_permanent else r.state;
})

module _ (cfg : Config) (overflow : ℤ) (it : Item) (cause : List ℕ) (now : ℕ) where
  params : FailAttemptParams
  params = record {
    err = truncate 2000 cause;
    backoff = pg_interval (backoff cfg overflow it.attempts);
    max_attempts = cfg.max_attempts;
    id = it.id;
  }

  fail_row-at :
      (r : Row) → r.id ≡ it.id → fail_row params now r ≡ failed_at cfg overflow it cause now r
  unfolding params fail_row
  fail_row-at r h = ground arith

  pub find_row-fail :
      (t : Table) (r : Row)
      → find_row it.id t ≡ some r
      → find_row it.id (fail cfg overflow it cause (record { now = now; up = true }) t).0
        ≡ some (failed_at cfg overflow it cause now r)
  unfolding fail params
  find_row-fail t r h =
      rw (find_row-map (fail_row params now) it.id t (λ s. id-fail_row s params now), h)
        (ap some (fail_row-at r (find_row-id it.id t r h)))

  -- A failure takes the lease away from whoever holds it. Fail checks no version: for a row below
  -- the limit on attempts and not merged away, a failure that any worker reports under the row's
  -- key leaves the row claimable again in its state once the backoff has passed, even while
  -- another worker's lease on it still runs.
  pub fail_frees_lease :
      (t : Table) (r : Row) (later : ℕ)
      → find_row it.id t ≡ some r
      → r.merged_into ≡ none
      → r.attempts < cfg.max_attempts
      → now + pg_interval (backoff cfg overflow it.attempts) ≤ later
      → (r' : Row) × (find_row it.id
            (fail cfg overflow it cause (record { now = now; up = true }) t).0
          ≡ some r')
        × (claimable later r.state r' ≡ true)
  unfolding claimable
  fail_frees_lease t r later h open_row few le =
      (failed_at cfg overflow it cause now r, find_row-fail t r h, ground arith)

-- One attempt: a claim of the row and a recorded failure.
pub record Attempt : Type 0 where
  pub claimed_at : ℕ
  pub lease : ℕ
  pub failed_at : ℕ
  pub backoff : ℕ
  pub err : List ℕ

abbrev pub attempt : ℕ → Attempt → Row → Row
attempt max_attempts a r =
    fail_row (record { err = a.err; backoff = a.backoff; max_attempts = max_attempts; id = r.id })
      a.failed_at (claim_row (r.id ∷ []) a.lease a.claimed_at r)

abbrev pub attempts : ℕ → List Attempt → Row → Row
attempts max_attempts [] r = r
attempts max_attempts (a ∷ more) r = attempts max_attempts more (attempt max_attempts a r)

attempt_lem :
    (max_attempts : ℕ) (a : Attempt) (r : Row)
    → ((attempt max_attempts a r).attempts ≡ r.attempts + 1)
      × ((attempt max_attempts a r).state
          ≡ (if leb max_attempts (r.attempts + 1) then failed_permanent else r.state))
unfolding fail_row claim_row
attempt_lem max_attempts a r = (ground arith, ground arith)

parked_or_kept :
    (max_attempts n : ℕ) (r s : Row)
    → s.attempts ≡ r.attempts + 1
    → s.state ≡ (if leb max_attempts (r.attempts + 1) then failed_permanent else r.state)
    → ◌≡◌ {A = State}
        (if leb max_attempts (s.attempts + suc n) then failed_permanent else s.state)
        (if leb max_attempts (r.attempts + suc (suc n)) then failed_permanent else r.state)
parked_or_kept max_attempts n r s a e = ground arith

-- Failing is finite: a row that is claimed and fails again and again, with nothing else in between,
-- keeps its state while its attempts stay below the limit, and is parked by the failure at which
-- they reach it.
pub attempts_end :
    (max_attempts : ℕ) (a : Attempt) (more : List Attempt) (r : Row)
    → ((attempts max_attempts (a ∷ more) r).attempts ≡ r.attempts + length (a ∷ more))
      × ((attempts max_attempts (a ∷ more) r).state ≡ (
          if leb max_attempts (r.attempts + length (a ∷ more)) then failed_permanent else r.state))
attempts_end max_attempts a [] r = attempt_lem max_attempts a r
attempts_end max_attempts a (b ∷ more) r =
    let (now, state) = attempt_lem max_attempts a r in
    let (counted, ended) = attempts_end max_attempts b more (attempt max_attempts a r) in
    (
      omega arith,
      ended ∙ parked_or_kept max_attempts (length more) r (attempt max_attempts a r) now state,
    )
