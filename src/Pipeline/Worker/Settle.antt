-- ===== src/Pipeline/Worker/Settle.antt =====
-- `handleOne`: what becomes of the row, for each outcome of the handler.
use devsignal.Prelude.{
  ℕ, ◌≤◌, ◌<◌, ◌≡◌, ◌⊎◌, refl, true, false, ◌&&◌, none, some, List, arith, leb, if◌then◌else◌, inl,
  inr, Bool-cases,
}
use devsignal.Prelude.Int.{ℤ}
use devsignal.Pipeline.State.{State, failed_permanent, degradable, next, next_ok}
use devsignal.Pipeline.Row.{Row}
use devsignal.Pipeline.Table.{Table, find_row}
use devsignal.Pipeline.Table.Lookup.{UniqueIds}
use devsignal.Pipeline.Queue.{Config, Item}
use devsignal.Pipeline.Queue.Advance.{IsFresh, advanced, advance_fresh}
use devsignal.Pipeline.Queue.Attempts.{failed_at, find_row-fail}
use devsignal.Pipeline.Worker.{Outcome, done, handled, conflict, broken, settle}

-- The row that an outcome asks for.
abbrev pub settled_row : Config → ℤ → Item → State → ℕ → Outcome → Row → Row
settled_row cfg overflow it n now done r = advanced n now r
settled_row cfg overflow it n now handled r = r
settled_row cfg overflow it n now conflict r = r
settled_row cfg overflow it n now (broken err) r =
    if degradable it.state && leb cfg.max_attempts it.attempts
    then advanced n now r
    else failed_at cfg overflow it err now r

module _ (cfg : Config) (overflow : ℤ) (it : Item) (now : ℕ) (t : Table) (r : Row) (n : State)
    (unique : UniqueIds t) (at_key : find_row it.id t ≡ some r) (succ : next it.state ≡ next_ok n)
    (fresh : IsFresh it r) where
  settle_outcome :
      (o : Outcome)
      → find_row it.id (settle cfg overflow it (record { now = now; up = true }) o t)
        ≡ some (settled_row cfg overflow it n now o r)
  unfolding settle
  settle_outcome done = (advance_fresh it now t r n unique at_key succ fresh).1
  settle_outcome handled = at_key
  settle_outcome conflict = at_key
  settle_outcome (broken err) =
      elim (Bool-cases (degradable it.state && leb cfg.max_attempts it.attempts)) [
        | inl e ↦ rw e (advance_fresh it now t r n unique at_key succ fresh).1
        | inr e ↦ rw e (find_row-fail cfg overflow it err now t r at_key)
      ]

  -- A fresh item in a degradable state is never parked: whatever the handler did, also with the
  -- attempts spent, the row stays in its state or is in the successor.
  pub degradable_never_parks :
      (o : Outcome)
      → degradable it.state ≡ true
      → r.attempts ≡ it.attempts
      → (r' : Row) × (find_row it.id (settle cfg overflow it (record { now = now; up = true }) o t)
          ≡ some r')
        × ((r'.state ≡ it.state) ⊎ (r'.state ≡ n))
  degradable_never_parks o d a = (settled_row cfg overflow it n now o r, settle_outcome o, go o)
    where
      go :
          (o : Outcome)
          → ((settled_row cfg overflow it n now o r).state ≡ it.state)
            ⊎ ((settled_row cfg overflow it n now o r).state ≡ n)
      go done = inr refl
      go handled = inl fresh.2
      go conflict = inl fresh.2
      go (broken err) = ground (arith, fresh)

  -- In a state that is not degradable, a broken handler parks a fresh item exactly when its
  -- attempts have reached the limit; before that the row keeps its state.
  pub broken_parks_at_limit :
      (err : List ℕ)
      → degradable it.state ≡ false
      → (r' : Row) × (find_row it.id
            (settle cfg overflow it (record { now = now; up = true }) (broken err) t)
          ≡ some r')
        × (r'.state ≡ (if leb cfg.max_attempts r.attempts then failed_permanent else it.state))
        × (r'.lease_until ≡ none)
  broken_parks_at_limit err d = (
    settled_row cfg overflow it n now (broken err) r,
    settle_outcome (broken err),
    ground (arith, fresh),
    ground arith,
  )

-- A stale failure parks a degradable row: if the row has spent its attempts while the item that
-- fails still counts fewer than the limit, the row is parked in failed_permanent although its state
-- is degradable.
pub stale_failure_parks :
    (cfg : Config) (overflow : ℤ) (it : Item) (now : ℕ) (t : Table) (r : Row) (err : List ℕ)
    → find_row it.id t ≡ some r
    → it.attempts < cfg.max_attempts
    → cfg.max_attempts ≤ r.attempts
    → (r' : Row) × (find_row it.id
          (settle cfg overflow it (record { now = now; up = true }) (broken err) t)
        ≡ some r')
      × (r'.state ≡ failed_permanent)
unfolding settle
stale_failure_parks cfg overflow it now t r err h few spent =
    let below : (degradable it.state && leb cfg.max_attempts it.attempts) ≡ false = ground arith in
    (
      failed_at cfg overflow it err now r,
      rw below (find_row-fail cfg overflow it err now t r h),
      ground arith,
    )
