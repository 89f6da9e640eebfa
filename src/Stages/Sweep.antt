-- ===== src/Stages/Sweep.antt =====
-- internal/stages/dedupe.go: `sweepOne` and `merge` over the rows of one block. `up` says whether the
-- database runs the transaction that merges one row into another.
pub mod Canonical
use devsignal.Prelude.{
  ℕ, zero, suc, ◌+◌, Bool, true, false, not, ◌&&◌, ◌||◌, List, [], ◌∷◌, length, ltb, ◌==◌,
  if◌then◌else◌,
}
use devsignal.Dedupe.Decide.{Candidate, Verdict, decide, auto_apply}

-- A row of ListBlockMembers, oldest first: its key, and toCandidate.
pub record Member : Type 0 where
  pub id : ℕ
  pub candidate : Candidate

-- The rows that are merged away, each with the row that it went into.
pub record Merged : Type 0 where
  pub from : ℕ
  pub into : ℕ

pub record Swept : Type 0 where
  pub merged : List Merged
  pub review : List Merged
  pub gone : List ℕ
  pub merges : ℕ
  pub failed : Bool

unfoldable pub is_from : ℕ → List Merged → Bool
is_from id [] = false
is_from id (p ∷ ps) = p.from == id || is_from id ps

abbrev pub member_of : ℕ → List ℕ → Bool
member_of id [] = false
member_of id (k ∷ ks) = k == id || member_of id ks

pub data MergeResult : Type 0 where
  merge_done : List Merged → MergeResult
  merge_conflict : MergeResult
  merge_failed : MergeResult

-- Both sides are read again under the lock of the block. The constraint opp_merge_not_self of
-- migrations/000010 refuses the record of a merge of a row into itself, which undoes the transaction.
unfoldable pub merge_rows : Bool → ℕ → ℕ → List Merged → MergeResult
unfolding is_from
merge_rows up from into merged =
    if not up
    then merge_failed
    else if is_from from merged || is_from into merged
    then merge_conflict
    else if from == into
    then merge_failed
    else merge_done (record { from = from; into = into } ∷ merged)

unfoldable pub after_merge : ℕ → Swept → MergeResult → Swept
after_merge id s (merge_done merged) = record {
  merged = merged;
  review = s.review;
  gone = id ∷ s.gone;
  merges = s.merges + 1;
  failed = false;
}
after_merge id s merge_conflict = record {
  merged = s.merged;
  review = s.review;
  gone = id ∷ s.gone;
  merges = s.merges;
  failed = false;
}
after_merge id s merge_failed = record {
  merged = s.merged;
  review = s.review;
  gone = s.gone;
  merges = s.merges;
  failed = true;
}

-- One member against the keeper: nothing, the review queue, or a merge.
unfoldable pub judge : (ℕ → ℕ) → (ℕ → ℕ → Bool) → Member → Member → Swept → Swept
judge unicode up keeper m s =
    let v = decide unicode keeper.candidate m.candidate in
    if member_of m.id s.gone || not v.same
    then s
    else if not (auto_apply v)
    then record {
      merged = s.merged;
      review = record { from = m.id; into = keeper.id } ∷ s.review;
      gone = s.gone;
      merges = s.merges;
      failed = false;
    }
    else after_merge m.id s (merge_rows (up m.id keeper.id) m.id keeper.id s.merged)

-- The inner loop; an error ends both loops.
unfoldable pub sweep_rest : (ℕ → ℕ) → (ℕ → ℕ → Bool) → Member → List Member → Swept → Swept
sweep_rest unicode up keeper [] s = s
sweep_rest unicode up keeper (m ∷ ms) s =
    if s.failed then s else sweep_rest unicode up keeper ms (judge unicode up keeper m s)

unfoldable pub sweep_members : (ℕ → ℕ) → (ℕ → ℕ → Bool) → List Member → Swept → Swept
sweep_members unicode up [] s = s
sweep_members unicode up (k ∷ ms) s =
    let next = if member_of k.id s.gone then s else sweep_rest unicode up k ms s in
    if s.failed then s else sweep_members unicode up ms next

-- What is merged before the sweep.
unfoldable pub sweep_one : (ℕ → ℕ) → (ℕ → ℕ → Bool) → List Member → List Merged → Swept
sweep_one unicode up members merged =
    let start : Swept = record {
      merged = merged;
      review = [];
      gone = [];
      merges = 0;
      failed = false;
    } in
    if ltb (length members) 2 then start else sweep_members unicode up members start
