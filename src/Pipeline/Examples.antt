-- ===== src/Pipeline/Examples.antt =====
-- The theorems about internal/pipeline at concrete rows, and tests of its functions.
use devsignal.Prelude.{
  ℕ, ◌+◌, ◌-◌, ◌*◌, ◌^◌, ◌≤◌, ◌≡◌, ◌≢◌, ◌⊎◌, refl, inl, Bool, true, false, none, some, List, [],
  ◌∷◌, length, All, arith, bytes,
}
use devsignal.Prelude.Int.{ℤ, negsuc}
use Prim.Native.Nat.{min}
use devsignal.Pipeline.State.{
  State, fetched, deduped, enriched, ready, failed_permanent, next, next_ok, terminal, degradable,
}
use devsignal.Pipeline.Row.{Row, elem, claimable, stranded}
use devsignal.Pipeline.Table.{Table, find_row, pick, sweep_stranded}
use devsignal.Pipeline.Table.Lookup.{UniqueIds}
use devsignal.Pipeline.Queue.{
  default_config, Item, Db, version_conflict, claim, advance, backoff, float64, items, second,
  minute,
}
use devsignal.Pipeline.Queue.Advance.{IsFresh, IsStale, advanced, advance_guarded}
use devsignal.Pipeline.Queue.Attempts.{Attempt, attempts, attempts_end}
use devsignal.Pipeline.Queue.Backoff.{backoff_exact}
use devsignal.Pipeline.Queue.Claim.{claimed_items, IsClaimed, claim_contract, claim_exclusive}
use devsignal.Pipeline.Queue.Sweep.{swept_ids}
use devsignal.Pipeline.Ops.{Op, claims, advances, fails, releases, requeues, run}
use devsignal.Pipeline.Ops.Progress.{advance_once}
use devsignal.Pipeline.Ops.Terminal.{IsPublished, IsPublished-final}
use devsignal.Pipeline.Worker.{
  done, broken, Handler, settle, release_outstanding, returns, track, untrack, safe_handle,
}
use devsignal.Pipeline.Worker.Settle.{degradable_never_parks}
use devsignal.Pipeline.Worker.Batch.{Phase, settled, Batch, begin, Step, Steps, Runs}
use devsignal.Pipeline.Worker.Batch.Bounds.{shutdown_releases_nothing}

abbrev row : ℕ → State → ℕ → Row
row id state attempts = record {
  id = id;
  state = state;
  version = 3;
  attempts = attempts;
  last_error = none;
  next_attempt_at = 50;
  lease_until = none;
  merged_into = none;
  state_entered_at = 10;
  swept_at = none;
}

abbrev table : Table
table = row 7 deduped 1 ∷ row 8 fetched 0 ∷ row 9 ready 0 ∷ row 10 failed_permanent 5 ∷ []

table-UniqueIds : UniqueIds table
table-UniqueIds = omega arith

abbrev item : Item
item = record { id = 7; version = 3; attempts = 1; state = deduped }

abbrev up_at : ℕ → Db
up_at now = record { now = now; up = true }

abbrev platform : ℤ
platform = negsuc (2 ^ 63 - 1)

abbrev nobody : ℕ → Bool
nobody k = false

backoff_exact_example : backoff default_config platform 4 ≡ min (30 * second * 2 ^ 3) (60 * minute)
backoff_exact_example =
    backoff_exact default_config platform 4 (inl refl) (omega arith) (omega arith) (omega arith)

backoff_at_70 : backoff default_config platform 70 ≡ 60 * minute
unfolding backoff float64
backoff_at_70 = refl

float64_rounds : float64 (2 ^ 53 + 3) ≡ 2 ^ 53 + 4
unfolding float64
float64_rounds = refl

found_item : find_row 7 table ≡ some (row 7 deduped 1)
unfolding find_row
found_item = refl

deduped_next : next deduped ≡ next_ok enriched
unfolding next
deduped_next = refl

advance_guarded_example :
    (IsFresh item (row 7 deduped 1)
      → ((advance item (up_at 60) table).1 ≡ none)
        × (find_row 7 (advance item (up_at 60) table).0
            ≡ some (advanced enriched 60 (row 7 deduped 1))))
    × (IsStale item (row 7 deduped 1)
        → advance item (up_at 60) table ≡ (table, some version_conflict))
advance_guarded_example =
    advance_guarded item 60 table (row 7 deduped 1) enriched table-UniqueIds found_item deduped_next

claim_contract_example :
    let (t', c) = claim default_config nobody (up_at 60) deduped table in
    All (IsClaimed default_config 60 deduped table t') (claimed_items c)
    × (length (claimed_items c) ≤ 100)
claim_contract_example = claim_contract default_config nobody 60 deduped table table-UniqueIds

claim_exclusive_example :
    let (t', first) = claim default_config nobody (up_at 60) deduped table in
    let (t'', other) = claim default_config nobody (up_at 300) deduped t' in
    All (λ it. All (λ it'. it'.id ≢ it.id) (claimed_items other)) (claimed_items first)
claim_exclusive_example =
    claim_exclusive default_config nobody nobody 60 300 deduped deduped table table-UniqueIds
      (omega arith)

claims_one :
    (claim default_config nobody (up_at 60) deduped table).1
    ≡ items (record { id = 7; version = 3; attempts = 2; state = deduped } ∷ [])
unfolding claim pick claimable
claims_one = refl

abbrev attempt_at : ℕ → Attempt
attempt_at now = record {
  claimed_at = now;
  lease = 300_000_000;
  failed_at = now + 5;
  backoff = 30_000_000;
  err = bytes "boom";
}

attempts_end_example :
    let r = attempts 2 (attempt_at 60 ∷ attempt_at 90 ∷ []) (row 7 fetched 0) in
    (r.attempts ≡ 2) × (r.state ≡ failed_permanent)
attempts_end_example = attempts_end 2 (attempt_at 60) (attempt_at 90 ∷ []) (row 7 fetched 0)

abbrev late : ℕ
late = 1_800_000_011

stranded_there : elem 7 (swept_ids default_config late table) ≡ true
unfolding sweep_stranded stranded
stranded_there = refl

-- Between the select and the update another worker claims row 7.
abbrev claim_between : Table → Table
claim_between t = (claim default_config nobody (up_at late) deduped t).0

abbrev leased_row : Row
leased_row = record (row 7 deduped 2) { lease_until = some (late + 300_000_000) }

found_leased : find_row 7 (claim_between table) ≡ some leased_row
unfolding claim pick claimable find_row
found_leased = refl

abbrev history : List Op
history =
    claims nobody (up_at 60) deduped
    ∷ advances item (up_at 70)
    ∷ fails item (bytes "late") (up_at 80)
    ∷ requeues (7 ∷ 9 ∷ []) (up_at 90)
    ∷ releases nobody (7 ∷ [])
    ∷ []

advance_once_example :
    let after = run default_config platform (advances item (up_at 60) ∷ history) table in
    advance item (up_at 99) after ≡ (after, some version_conflict)
advance_once_example =
    advance_once default_config platform item item 60 99 history table (row 7 deduped 1) enriched
      enriched table-UniqueIds found_item (refl, refl, refl) deduped_next refl refl deduped_next

IsPublished-final_example :
    (r' : Row) × (find_row 9 (run default_config platform history table) ≡ some r') × IsPublished r'
unfolding terminal find_row
IsPublished-final_example =
    IsPublished-final default_config platform history table 9 (row 9 ready 0) (omega arith)
      (refl, (tt, (tt, (tt, (tt, tt))))) table-UniqueIds refl (refl, refl)

abbrev spent_item : Item
spent_item = record { id = 7; version = 3; attempts = 5; state = deduped }

abbrev spent_table : Table
spent_table = row 7 deduped 5 ∷ []

found_spent : find_row 7 spent_table ≡ some (row 7 deduped 5)
unfolding find_row
found_spent = refl

degradable_never_parks_example :
    (r' : Row) × (find_row 7 (
        settle default_config platform spent_item
          (up_at 60)
          (broken (bytes "model down"))
          spent_table)
      ≡ some r')
    × ((r'.state ≡ deduped) ⊎ (r'.state ≡ enriched))
degradable_never_parks_example =
    degradable_never_parks default_config platform spent_item 60 spent_table (row 7 deduped 5)
      enriched (omega arith) found_spent deduped_next (refl, refl, refl)
      (broken (bytes "model down")) (unfold degradable in refl) refl

abbrev fetched_item : Item
fetched_item = record { id = 8; version = 3; attempts = 0; state = fetched }

abbrev noop : Handler
noop it t = (t, returns done)

-- A worker of two slots claims row 7, handles it, settles it and untracks it.
abbrev claimed_table : Table
claimed_table = (claim default_config nobody (up_at 60) deduped table).0

abbrev claimed_item : Item
claimed_item = record { id = 7; version = 3; attempts = 2; state = deduped }

abbrev at_phase : List (Item × Phase) → List ℕ → Table → Batch
at_phase running in_flight t = record {
  pending = [];
  waiting = none;
  running = running;
  in_flight = in_flight;
  table = t;
}

abbrev settled_table : Table
settled_table = settle default_config platform claimed_item (up_at 70) done claimed_table

running_batch :
    Steps default_config platform noop 2
      (begin (claimed_item ∷ []) [] claimed_table)
      (at_phase ((claimed_item, settled) ∷ []) (7 ∷ []) settled_table)
unfolding track safe_handle
running_batch =
    Steps.next
      (Steps.next
        (Steps.next (Steps.next Steps.here (Step.takes claimed_item [] refl refl refl))
          (Step.starts claimed_item refl (omega arith) refl))
        (Step.handles [] [] claimed_item refl refl))
      (Step.settles [] [] claimed_item done (up_at 70) refl refl)

finished_batch :
    Steps default_config platform noop 2
      (begin (claimed_item ∷ []) [] claimed_table)
      (at_phase [] [] settled_table)
unfolding untrack
finished_batch = Steps.next running_batch (Step.leaves [] [] claimed_item refl refl)

worker_run : Runs default_config platform noop 2 deduped [] settled_table
unfolding claim pick claimable
worker_run =
    Runs.processed nobody (up_at 60) (claimed_item ∷ []) (at_phase [] [] settled_table)
      (Runs.started table) refl finished_batch
      (record { no_pending = refl; no_waiting = refl; no_running = refl })

shutdown_releases_nothing_example :
    (◌≡◌ {A = List ℕ} [] []) × (release_outstanding nobody [] settled_table ≡ settled_table)
shutdown_releases_nothing_example =
    shutdown_releases_nothing default_config platform noop 2 deduped nobody [] settled_table
      worker_run
