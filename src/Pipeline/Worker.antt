-- ===== src/Pipeline/Worker.antt =====
-- internal/pipeline/worker.go: one stage's worker. A handler is a parameter: it may read and write
-- the table, and returns an error or none, or panics. Log lines are not modelled.
pub mod Batch
pub mod Settle
use devsignal.Prelude.{
  ℕ, ◌*◌, Bool, true, false, ◌&&◌, Option, none, some, List, [], ◌∷◌, ◌++◌, map, filter, not, leb,
  ltb, ◌==◌, if◌then◌else◌, String, bytes,
}
use devsignal.Prelude.Int.{ℤ, pos, ltb_ℤ}
use devsignal.Pipeline.State.{State, degradable}
use devsignal.Pipeline.Row.{elem}
use devsignal.Pipeline.Table.{Table}
use devsignal.Pipeline.Queue.{Config, Item, Db, QueueError, advance, fail, release, second}

-- What a handler returns, as `errors.Is` tells it apart: no error, ErrHandled, ErrVersionConflict,
-- or any other error with its text.
pub data Outcome : Type 0 where
  done : Outcome
  handled : Outcome
  conflict : Outcome
  broken : List ℕ → Outcome

-- The value of a panic: a string, an error, or anything else.
pub data PanicValue : Type 0 where
  panic_string : List ℕ → PanicValue
  panic_error : List ℕ → PanicValue
  panic_other : PanicValue

pub data Handling : Type 0 where
  returns : Outcome → Handling
  panics : PanicValue → Handling

abbrev pub Handler : Type 0
Handler = Item → Table → Table × Handling

unfoldable pub sprint : PanicValue → List ℕ
sprint (panic_string s) = s
sprint (panic_error e) = e
sprint panic_other = bytes "unknown"

unfoldable pub recovered : Handling → Outcome
unfolding sprint
recovered (returns o) = o
recovered (panics v) = broken (bytes "panic in handler: " ++ sprint v)

-- The handler with its panics contained.
unfoldable pub safe_handle : Handler → Item → Table → Table × Outcome
unfolding recovered
safe_handle handle it t = let (t', h) = handle it t in (t', recovered h)

-- What handleOne does with the outcome. An error of Advance or of Fail is logged and dropped.
unfoldable pub settle : Config → ℤ → Item → Db → Outcome → Table → Table
settle cfg overflow it db handled t = t
settle cfg overflow it db conflict t = t
settle cfg overflow it db done t = (advance it db t).0
settle cfg overflow it db (broken err) t =
    if degradable it.state && leb cfg.max_attempts it.attempts
    then (advance it db t).0
    else (fail cfg overflow it err db t).0

-- `others` is what other transactions commit between the handler's return and the settling.
unfoldable pub handle_one : Config → ℤ → Handler → (Table → Table) → Db → Item → Table → Table
unfolding safe_handle settle
handle_one cfg overflow handle others db it t =
    let (t', o) = safe_handle handle it t in settle cfg overflow it db o (others t')

pub record Stage : Type 0 where
  pub state : State
  pub concurrency : ℤ
  pub poll_interval : ℤ

-- The defaults of NewWorker.
unfoldable pub new_worker : Stage → Stage
new_worker s = record s {
  concurrency = if ltb_ℤ s.concurrency (pos 1) then pos 1 else s.concurrency;
  poll_interval = if ltb_ℤ (pos 0) s.poll_interval then s.poll_interval else pos (2 * second);
}

-- The set `inFlight`.
unfoldable pub track : ℕ → List ℕ → List ℕ
track id ids = if elem id ids then ids else id ∷ ids

unfoldable pub untrack : ℕ → List ℕ → List ℕ
untrack id ids = filter (λ k. not (k == id)) ids

unfoldable pub release_outstanding : (ℕ → Bool) → List ℕ → Table → Table
release_outstanding up [] t = t
release_outstanding up ids t = release up ids t
