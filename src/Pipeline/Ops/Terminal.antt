-- ===== src/Pipeline/Ops/Terminal.antt =====
-- The two terminal states absorb: no interleaving moves a row out of them.
use devsignal.Prelude.{ℕ, ◌<◌, ◌≡◌, true, false, some, List, All, arith}
use devsignal.Prelude.Int.{ℤ}
use devsignal.Pipeline.State.{State, ready, failed_permanent, next, next_ok, terminal}
use devsignal.Pipeline.Row.{Row, advance_row, fail_row, release_row, requeue_row, claimable}
use devsignal.Pipeline.Table.{Table, find_row}
use devsignal.Pipeline.Table.Lookup.{UniqueIds}
use devsignal.Pipeline.Queue.{Config, Item}
use devsignal.Pipeline.Queue.Advance.{params_of}
use devsignal.Pipeline.Ops.{Op, run}
use devsignal.Pipeline.Ops.Effect.{
  ClaimsOnly, AnyState, Effect, Effects, here, later, idle, claimed, advanced, failed, released,
  requeued,
}
use devsignal.Pipeline.Ops.Runs.{run-After, claims_any}

abbrev pub IsWork : State → Type 0
IsWork s = terminal s ≡ false

-- A row that has reached ready: the advance that brought it there set its attempts to 0.
abbrev pub IsPublished : Row → Type 0
IsPublished r = (r.state ≡ ready) × (r.attempts ≡ 0)

advance_row-terminal :
    (n : State) (it : Item) (now : ℕ) (r : Row)
    → next it.state ≡ next_ok n
    → terminal r.state ≡ true
    → advance_row (params_of n it) now r ≡ r
unfolding advance_row next terminal
advance_row-terminal n it now r succ e = ground arith

module _ (cfg : Config) where
  Effect-IsPublished :
      0 < cfg.max_attempts → (r r' : Row) → Effect IsWork cfg r r' → IsPublished r → IsPublished r'
  unfolding fail_row release_row requeue_row claimable terminal
  Effect-IsPublished pos r r' (idle e) p = ground arith
  Effect-IsPublished pos r r' (claimed s now lease work h e) p = ground arith
  Effect-IsPublished pos r r' (advanced n it now succ e) p =
      ground (arith, advance_row-terminal n it now r succ)
  Effect-IsPublished pos r r' (failed q now same e) p = ground arith
  Effect-IsPublished pos r r' (released id e) p = ground arith
  Effect-IsPublished pos r r' (requeued ids now e) p = ground arith

  Effect-parked :
      (r r' : Row)
      → Effect AnyState cfg r r'
      → r.state ≡ failed_permanent
      → r'.state ≡ failed_permanent
  unfolding fail_row release_row requeue_row terminal
  Effect-parked r r' (idle e) p = ground arith
  Effect-parked r r' (claimed s now lease work h e) p = ground arith
  Effect-parked r r' (advanced n it now succ e) p =
      ground (arith, advance_row-terminal n it now r succ)
  Effect-parked r r' (failed q now same e) p = ground arith
  Effect-parked r r' (released id e) p = ground arith
  Effect-parked r r' (requeued ids now e) p = ground arith

  Effects-IsPublished :
      0 < cfg.max_attempts
      → (r : Row) {r' : Row} → Effects IsWork cfg r r'
      → IsPublished r
      → IsPublished r'
  Effects-IsPublished pos r here p = p
  Effects-IsPublished pos r {r'} (later {s} before e) p =
      Effect-IsPublished pos s r' e (Effects-IsPublished pos r before p)

  Effects-parked :
      (r : Row) {r' : Row}
      → Effects AnyState cfg r r'
      → r.state ≡ failed_permanent
      → r'.state ≡ failed_permanent
  Effects-parked r here p = p
  Effects-parked r {r'} (later {s} before e) p = Effect-parked s r' e (Effects-parked r before p)

  -- With a positive limit on attempts, and claims only in states that are not terminal, a row that
  -- has reached ready with no attempts counted stays in ready with none, whatever stale workers and
  -- sweepers still commit.
  pub IsPublished-final :
      (overflow : ℤ) (ops : List Op) (t : Table) (id : ℕ) (r : Row)
      → 0 < cfg.max_attempts
      → All (ClaimsOnly IsWork) ops
      → UniqueIds t
      → find_row id t ≡ some r
      → IsPublished r
      → (r' : Row) × (find_row id (run cfg overflow ops t) ≡ some r') × IsPublished r'
  IsPublished-final overflow ops t id r pos work u h p =
      let (r', found, effects) = run-After IsWork cfg overflow id ops t r work u h in
      (r', found, Effects-IsPublished pos r effects p)

  -- A parked row stays parked: no claim, advance, failure, release or sweep in any order brings a
  -- row out of failed_permanent.
  pub parked_final :
      (overflow : ℤ) (ops : List Op) (t : Table) (id : ℕ) (r : Row)
      → UniqueIds t
      → find_row id t ≡ some r
      → r.state ≡ failed_permanent
      → (r' : Row) × (find_row id (run cfg overflow ops t) ≡ some r')
        × (r'.state ≡ failed_permanent)
  parked_final overflow ops t id r u h p =
      let (r', found, effects) = run-After AnyState cfg overflow id ops t r (claims_any ops) u h in
      (r', found, Effects-parked r effects p)
