-- ===== src/Stages/Normalizer/Advancing.antt =====
-- The normalizer on the columns of the queue.
use devsignal.Prelude.{
  ℕ, ◌≡◌, refl, Bool, true, false, Option, none, some, List, [], ◌∷◌, map, arith, Bool-cases, inl,
  inr, length, filter, if◌then◌else◌,
}
use devsignal.Prelude.Text.{Text}
use devsignal.Prelude.Search.{find}
use mathlib.Core.Path.{ap₂}
use devsignal.Pipeline.State.{next, NextResult, next_ok, no_successor}
use devsignal.Pipeline.Row.{AdvanceStateParams, advances, advance_row}
use devsignal.Pipeline.Table.{Table, affected}
use devsignal.Pipeline.Queue.{Item, Db, QueueError, db_error, version_conflict, bad_state, advance}
use devsignal.Pipeline.Worker.{Outcome, handled, conflict, broken}
use devsignal.Stages.Normalizer.{
  Derived, Listing, ApplyNormalizationParams, applies, apply_row, Fault, state_fault, apply_fault,
  has_key, write_derived, derive, handle_normalize,
}

abbrev pub queue : List Listing → Table
queue ts = map (λ l. l.row) ts

abbrev pub guard : ApplyNormalizationParams → AdvanceStateParams
guard p = record {
  next_state = p.next_state;
  id = p.id;
  version = p.version;
  current_state = p.current_state;
}

-- What the handler says where Advance has this answer.
abbrev pub outcome_of : (Fault → Text) → Option QueueError → Outcome
outcome_of wording none = handled
outcome_of wording (some version_conflict) = conflict
outcome_of wording (some db_error) = broken (wording apply_fault)
outcome_of wording (some (bad_state s)) = broken (wording (state_fault s))

pub applies-eq :
    (p : ApplyNormalizationParams) (l : Listing) → applies p l ≡ advances (guard p) l.row
unfolding applies advances
applies-eq p l = ground arith

row-apply_row :
    (p : ApplyNormalizationParams) (now : ℕ) (l : Listing)
    → (apply_row p now l).row ≡ advance_row (guard p) now l.row
unfolding apply_row advance_row
row-apply_row p now l = elim (Bool-cases (advances (guard p) l.row)) [
  | inl e ↦ rw (applies-eq p l, e) refl
  | inr e ↦ rw (applies-eq p l, e) refl
]

queue-apply :
    (p : ApplyNormalizationParams) (now : ℕ) (ts : List Listing)
    → queue (map (apply_row p now) ts) ≡ map (advance_row (guard p) now) (queue ts)
queue-apply p now [] = refl
queue-apply p now (l ∷ ts) = ap₂ ◌∷◌ (row-apply_row p now l) (queue-apply p now ts)

pub count-applies :
    (p : ApplyNormalizationParams) (ts : List Listing)
    → length (filter (applies p) ts) ≡ affected (advances (guard p)) (queue ts)
count-applies p [] = refl
count-applies p (l ∷ ts) = ground (arith, applies-eq p l, count-applies p ts)

outcome-if :
    (wording : Fault → Text) (b : Bool)
    → (if b then conflict else handled)
      ≡ outcome_of wording (if b then some version_conflict else none)
outcome-if wording true = refl
outcome-if wording false = refl

write-queue :
    (wording : Fault → Text) (d : Derived) (it : Item) (db : Db) (ts : List Listing)
    → let (after, outcome) = write_derived wording d it db ts (next it.state) in
      let (table, err) = advance it db (queue ts) in
      (queue after ≡ table) × (outcome ≡ outcome_of wording err)
unfolding write_derived advance
write-queue wording d it db ts = go (next it.state) refl
  where
    go :
        (x : NextResult)
        → next it.state ≡ x
        → let (after, outcome) = write_derived wording d it db ts (next it.state) in
          let (table, err) = advance it db (queue ts) in
          (queue after ≡ table) × (outcome ≡ outcome_of wording err)
    go (no_successor s) e = rw e (refl, refl)
    go (next_ok n) e =
        let p : ApplyNormalizationParams = record {
          derived = d;
          next_state = n;
          id = it.id;
          version = it.version;
          current_state = it.state;
        } in
        elim (Bool-cases db.up) [
          | inl up ↦
              rw (e, up) (queue-apply p db.now ts, rw (count-applies p ts) (outcome-if wording _))
          | inr down ↦ rw (e, down) (refl, refl)
        ]

-- On the columns of the queue, the normalizer is Advance. If the database finds the row of the item,
-- then whatever others commit before the write, Handle leaves those columns as Advance leaves them,
-- and it says `handled` where Advance succeeds, a version conflict where Advance has one, and an
-- error where Advance has an error.
pub normalizer_advances :
    (lower upper : ℕ → ℕ) (wording : Fault → Text) (it : Item) (read write : Db)
    (others : List Listing → List Listing) (ts : List Listing) (l : Listing)
    → read.up ≡ true
    → find (has_key it.id) ts ≡ some l
    → let (after, outcome) = handle_normalize lower upper wording it read others write ts in
      let (table, err) = advance it write (queue (others ts)) in
      (queue after ≡ table) × (outcome ≡ outcome_of wording err)
unfolding handle_normalize
normalizer_advances lower upper wording it read write others ts l up at_key =
    rw (up, at_key) (write-queue wording (derive lower upper l.stated) it write (others ts))
