-- ===== src/Pipeline/Row/Keys.antt =====
-- The row functions leave the key alone, and those that fix a key leave other rows alone.
use devsignal.Prelude.{ℕ, ◌≡◌, true, false, List, arith}
use devsignal.Pipeline.Row.{
  Row, AdvanceStateParams, advances, advance_row, claim_row, FailAttemptParams, fail_row,
  release_row, requeue_row,
}

module _ (r : Row) where
  pub id-advance_row : (p : AdvanceStateParams) (now : ℕ) → (advance_row p now r).id ≡ r.id
  unfolding advance_row
  id-advance_row p now = ground arith

  pub id-claim_row : (ids : List ℕ) (lease now : ℕ) → (claim_row ids lease now r).id ≡ r.id
  unfolding claim_row
  id-claim_row ids lease now = ground arith

  pub id-fail_row : (p : FailAttemptParams) (now : ℕ) → (fail_row p now r).id ≡ r.id
  unfolding fail_row
  id-fail_row p now = ground arith

  pub id-release_row : (id : ℕ) → (release_row id r).id ≡ r.id
  unfolding release_row
  id-release_row id = ground arith

  pub id-requeue_row : (ids : List ℕ) (now : ℕ) → (requeue_row ids now r).id ≡ r.id
  unfolding requeue_row
  id-requeue_row ids now = ground arith

  pub advances-id : (p : AdvanceStateParams) → advances p r ≡ true → r.id ≡ p.id
  unfolding advances
  advances-id p h = ground arith

  pub advance_row-idle :
      (p : AdvanceStateParams) (now : ℕ) → advances p r ≡ false → advance_row p now r ≡ r
  unfolding advance_row
  advance_row-idle p now h = ground arith
