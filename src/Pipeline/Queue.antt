-- ===== src/Pipeline/Queue.antt =====
-- internal/pipeline/queue.go: the queue over the table. `up` says whether the database runs a
-- statement; if it does not, the statement fails and changes nothing.
pub mod Advance
pub mod Claim
pub mod Backoff
pub mod Attempts
pub mod Sweep
use devsignal.Prelude.{
  ℕ, zero, suc, ◌+◌, ◌-◌, ◌*◌, ◌/◌, ◌%◌, ◌^◌, Bool, true, false, ◌&&◌, ◌||◌, Option, none, some,
  List, [], ◌∷◌, map, length, take, ltb, leb, ◌==◌, if◌then◌else◌,
}
use devsignal.Prelude.Int.{ℤ, pos, negsuc, ltb_ℤ, pos_part}
use devsignal.Prelude.Float.{float_from}
use devsignal.Pipeline.State.{State, NextResult, next_ok, no_successor, next}
use devsignal.Pipeline.Row.{Row, AdvanceStateParams, FailAttemptParams}
use devsignal.Pipeline.Table.{
  Table, advance_state, fail_attempt, release_claim, requeue_stranded, claim_batch, sweep_stranded,
}

-- Durations are nanoseconds; a configuration has none that is negative.
pub record Config : Type 0 where
  pub batch_size : ℕ
  pub lease : ℕ
  pub max_attempts : ℕ
  pub base_backoff : ℕ
  pub max_backoff : ℕ
  pub sweep_after : ℕ
  pub sweep_interval : ℕ

abbrev pub second : ℕ
second = 1_000_000_000

abbrev pub minute : ℕ
minute = 60 * second

abbrev pub default_config : Config
default_config = record {
  batch_size = 100;
  lease = 5 * minute;
  max_attempts = 5;
  base_backoff = 30 * second;
  max_backoff = 60 * minute;
  sweep_after = 30 * minute;
  sweep_interval = 5 * minute;
}

-- A claimed unit of work.
pub record Item : Type 0 where
  pub id : ℕ
  pub version : ℕ
  pub attempts : ℕ
  pub state : State

-- `d.Microseconds()`
abbrev pub pg_interval : ℕ → ℕ
pg_interval d = d / 1000

pub data QueueError : Type 0 where
  db_error : QueueError
  version_conflict : QueueError
  bad_state : State → QueueError

pub data Claimed : Type 0 where
  items : List Item → Claimed
  claim_failed : Claimed

unfoldable pub to_item : Row → Item
to_item r = record { id = r.id; version = r.version; attempts = r.attempts; state = r.state }

-- The time of a statement, and whether the database runs it.
pub record Db : Type 0 where
  pub now : ℕ
  pub up : Bool

unfoldable pub claim : Config → (ℕ → Bool) → Db → State → Table → Table × Claimed
unfolding claim_batch to_item
claim cfg locked db state t =
    if db.up
    then (let (t', rows) =
          claim_batch locked db.now (pg_interval cfg.lease) state cfg.batch_size t in
        (t', items (map to_item rows)))
    else (t, claim_failed)

-- AdvanceState's error, or ErrVersionConflict where no row was affected.
conflict_if_none : Table × ℕ → Table × Option QueueError
conflict_if_none (t, n) = (t, if n == 0 then some version_conflict else none)

advance_to : Item → Db → Table → NextResult → Table × Option QueueError
unfolding advance_state conflict_if_none
advance_to it db t (no_successor s) = (t, some (bad_state s))
advance_to it db t (next_ok n) =
    if db.up
    then conflict_if_none (
        advance_state
          (record { next_state = n; id = it.id; version = it.version; current_state = it.state })
          db.now t)
    else (t, some db_error)

unfoldable pub advance : Item → Db → Table → Table × Option QueueError
unfolding advance_to
advance it db t = advance_to it db t (next it.state)

-- The nearest float64 to n. Ten doublings reach every int64.
unfoldable pub float64 : ℕ → ℕ
unfolding float_from
float64 n = float_from 10 53 1 n

-- Multiplying by a power of two is exact in float64. A product beyond int64, also an infinite one,
-- converts to a value that Go leaves to the platform: `overflow`.
to_int64 : ℤ → ℕ → ℤ
to_int64 overflow x = if ltb x (2 ^ 63) then pos x else overflow

abbrev not_positive : ℤ → Bool
not_positive d = leb (pos_part d) 0

-- The ceiling, and the guard against a product that wrapped or vanished.
ceiling : ℕ → ℤ → ℕ
ceiling max_backoff d =
    if ltb_ℤ (pos max_backoff) d || not_positive d then max_backoff else pos_part d

unfoldable pub backoff : Config → ℤ → ℕ → ℕ
unfolding to_int64 ceiling
backoff cfg overflow attempts =
    let n = if ltb attempts 1 then 1 else attempts in
    ceiling cfg.max_backoff (to_int64 overflow (float64 cfg.base_backoff * 2 ^ (n - 1)))

-- `len(msg) > 2000`, `msg[:2000]`
unfoldable pub truncate : ℕ → List ℕ → List ℕ
truncate limit msg = if ltb limit (length msg) then take limit msg else msg

unfoldable pub fail : Config → ℤ → Item → List ℕ → Db → Table → Table × Option QueueError
unfolding truncate backoff fail_attempt
fail cfg overflow it cause db t =
    if db.up
    then (
      (fail_attempt
          (record {
            err = truncate 2000 cause;
            backoff = pg_interval (backoff cfg overflow it.attempts);
            max_attempts = cfg.max_attempts;
            id = it.id;
          })
          db.now t).0,
      none,
    )
    else (t, some db_error)

-- A release that fails is logged, and the loop goes on.
unfoldable pub release : (ℕ → Bool) → List ℕ → Table → Table
unfolding release_claim
release up [] t = t
release up (id ∷ ids) t = release up ids (if up id then release_claim id t else t)

pub data Swept : Type 0 where
  swept : ℕ → Swept
  sweep_failed : Swept

unfoldable pub requeue : List ℕ → Db → Table → Table × Swept
unfolding requeue_stranded
requeue [] db t = (t, swept 0)
requeue ids db t =
    if db.up
    then (let (t', n) = requeue_stranded ids db.now t in (t', swept n))
    else (t, sweep_failed)

-- The select and the update are two statements: `others` is what other transactions commit between
-- them, and `later` is the update's time and fate.
unfoldable pub sweep : Config → Db → (Table → Table) → Db → Table → Table × Swept
unfolding sweep_stranded requeue
sweep cfg db others later t =
    if db.up
    then requeue
        (map (λ r. r.id) (sweep_stranded db.now (pg_interval cfg.sweep_after) cfg.batch_size t))
        later (others t)
    else (t, sweep_failed)
