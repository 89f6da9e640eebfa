-- ===== src/Pipeline/Worker/Batch.antt =====
-- `process` and `Run` as interleavings. The loop tracks an item and then waits for a free slot; a
-- started item is handled, settled and untracked, each of these one step, in any order between the
-- items. Other transactions may commit at any time.
pub mod Bounds
use devsignal.Prelude.{ℕ, ◌<◌, ◌≡◌, Bool, Option, none, some, List, [], ◌∷◌, ◌++◌, length}
use devsignal.Prelude.Int.{ℤ}
use devsignal.Pipeline.State.{State}
use devsignal.Pipeline.Table.{Table}
use devsignal.Pipeline.Queue.{Config, Item, Db, Claimed, items, claim_failed, claim}
use devsignal.Pipeline.Worker.{Outcome, Handler, safe_handle, settle, track, untrack}

pub data Phase : Type 0 where
  handling : Phase
  settling : Outcome → Phase
  settled : Phase

pub record Batch : Type 0 where
  pub pending : List Item
  pub waiting : Option Item
  pub running : List (Item × Phase)
  pub in_flight : List ℕ
  pub table : Table

-- `process` begins with the claimed items.
abbrev pub begin : List Item → List ℕ → Table → Batch
begin its in_flight t = record {
  pending = its;
  waiting = none;
  running = [];
  in_flight = in_flight;
  table = t;
}

-- `g.Wait()` returns.
pub record IsFinished (b : Batch) : Type 0 where
  pub no_pending : b.pending ≡ []
  pub no_waiting : b.waiting ≡ none
  pub no_running : b.running ≡ []

module _ (cfg : Config) (overflow : ℤ) (handle : Handler) (limit : ℕ) where
  pub data Step (b : Batch) (b' : Batch) : Type 0 where
    takes :
        (it : Item) (rest : List Item)
        → b.pending ≡ it ∷ rest
        → b.waiting ≡ none
        → b' ≡ record b { pending = rest; waiting = some it; in_flight = track it.id b.in_flight }
        → Step b b'
    starts :
        (it : Item)
        → b.waiting ≡ some it
        → length b.running < limit
        → b' ≡ record b { waiting = none; running = (it, handling) ∷ b.running }
        → Step b b'
    handles :
        (xs ys : List (Item × Phase)) (it : Item)
        → b.running ≡ xs ++ (it, handling) ∷ ys
        → b' ≡ record b {
          running = xs ++ (it, settling (safe_handle handle it b.table).1) ∷ ys;
          table = (safe_handle handle it b.table).0;
        }
        → Step b b'
    settles :
        (xs ys : List (Item × Phase)) (it : Item) (o : Outcome) (db : Db)
        → b.running ≡ xs ++ (it, settling o) ∷ ys
        → b' ≡ record b {
          running = xs ++ (it, settled) ∷ ys;
          table = settle cfg overflow it db o b.table;
        }
        → Step b b'
    leaves :
        (xs ys : List (Item × Phase)) (it : Item)
        → b.running ≡ xs ++ (it, settled) ∷ ys
        → b' ≡ record b { running = xs ++ ys; in_flight = untrack it.id b.in_flight }
        → Step b b'
    others : (t : Table) → b' ≡ record b { table = t } → Step b b'

  pub data Steps (b : Batch) : Batch → Type 0 where
    here : Steps b b
    next : {c d : Batch} → Steps b c → Step c d → Steps b d

  -- The loop of `Run`, from the worker's start to the top of the loop, or to the sleep in which the
  -- context ends: the set of ids in flight, and the table.
  pub data Runs (state : State) : List ℕ → Table → Type 0 where
    started : (t : Table) → Runs state [] t
    meanwhile : {ids : List ℕ} {t : Table} (t' : Table) → Runs state ids t → Runs state ids t'
    polled :
        {ids : List ℕ} {t : Table} (locked : ℕ → Bool) (db : Db)
        → Runs state ids t
        → (claim cfg locked db state t).1 ≡ claim_failed
        → Runs state ids (claim cfg locked db state t).0
    processed :
        {ids : List ℕ} {t : Table} (locked : ℕ → Bool) (db : Db) (its : List Item) (b : Batch)
        → Runs state ids t
        → (claim cfg locked db state t).1 ≡ items its
        → Steps (begin its ids (claim cfg locked db state t).0) b
        → IsFinished b
        → Runs state b.in_flight b.table
