-- ===== src/Pipeline/Table.antt =====
-- internal/store/pipeline.sql.go: the statements over the whole table. A table is its rows in the
-- order in which the database meets them; a statement maps a row function over it, so that rows
-- neither appear, vanish nor move. `locked` says which rows another transaction holds.
pub mod Lookup
pub mod Pick
use devsignal.Prelude.{
  ℕ, ◌+◌, Bool, true, false, not, ◌&&◌, ◌||◌, Option, none, some, List, [], ◌∷◌, map, length, take,
  filter, ltb, leb, ◌==◌, if◌then◌else◌,
}
use devsignal.Pipeline.State.{State}
use devsignal.Pipeline.Row.{
  Row, elem, AdvanceStateParams, advances, advance_row, claimable, claim_row, FailAttemptParams,
  fail_row, release_row, stranded, requeue_row,
}

abbrev pub Table : Type 0
Table = List Row

-- GetOpportunityState reads one row by its key.
unfoldable pub find_row : ℕ → Table → Option Row
find_row id [] = none
find_row id (r ∷ t) = if r.id == id then some r else find_row id t

-- The rows that a WHERE clause selects, counted.
abbrev pub affected : (Row → Bool) → Table → ℕ
affected p t = length (filter p t)

unfoldable pub advance_state : AdvanceStateParams → ℕ → Table → Table × ℕ
advance_state p now t = (map (advance_row p now) t, affected (advances p) t)

unfoldable pub fail_attempt : FailAttemptParams → ℕ → Table → Table × ℕ
fail_attempt p now t = (map (fail_row p now) t, affected (λ r. r.id == p.id) t)

unfoldable pub release_claim : ℕ → Table → Table
release_claim id t = map (release_row id) t

unfoldable pub requeue_stranded : List ℕ → ℕ → Table → Table × ℕ
requeue_stranded ids now t = (map (requeue_row ids now) t, affected (λ r. elem r.id ids) t)

-- ORDER BY, as a stable insertion sort by a test that the first row may stand before the second.
unfoldable pub insert_row : (Row → Row → Bool) → Row → Table → Table
insert_row before r [] = r ∷ []
insert_row before r (s ∷ t) = if before r s then r ∷ s ∷ t else s ∷ insert_row before r t

unfoldable pub order_by : (Row → Row → Bool) → Table → Table
unfolding insert_row
order_by before [] = []
order_by before (r ∷ t) = insert_row before r (order_by before t)

-- ORDER BY next_attempt_at
abbrev pub by_next_attempt : Row → Row → Bool
by_next_attempt r s = leb r.next_attempt_at s.next_attempt_at

-- ORDER BY swept_at NULLS FIRST, state_entered_at
abbrev swept_before : Option ℕ → Option ℕ → ℕ → ℕ → Bool
swept_before none none a b = leb a b
swept_before none (some y) a b = true
swept_before (some x) none a b = false
swept_before (some x) (some y) a b = ltb x y || x == y && leb a b

abbrev pub by_swept : Row → Row → Bool
by_swept r s = swept_before r.swept_at s.swept_at r.state_entered_at s.state_entered_at

-- The subquery of ClaimBatch: SKIP LOCKED passes over rows that are held, then LIMIT counts.
unfoldable pub pick : (ℕ → Bool) → ℕ → State → ℕ → Table → List ℕ
unfolding order_by
pick locked now state batch t =
    map (λ r. r.id)
      (take batch
        (order_by by_next_attempt (filter (λ r. claimable now state r && not (locked r.id)) t)))

-- RETURNING gives the rows as the update leaves them.
unfoldable pub claim_batch : (ℕ → Bool) → ℕ → ℕ → State → ℕ → Table → Table × Table
unfolding pick claim_row
claim_batch locked now lease state batch t =
    let ids = pick locked now state batch t in
    let t' = map (claim_row ids lease now) t in (t', filter (λ r. elem r.id ids) t')

unfoldable pub sweep_stranded : ℕ → ℕ → ℕ → Table → Table
unfolding order_by
sweep_stranded now threshold batch t =
    take batch (order_by by_swept (filter (stranded now threshold) t))
