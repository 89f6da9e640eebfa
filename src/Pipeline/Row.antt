-- ===== src/Pipeline/Row.antt =====
-- internal/store/pipeline.sql.go: the columns of `opportunity` that the queue reads and writes, and
-- each of its statements as a function of one row. Times are microseconds, texts are
-- lists of bytes; `now` is the time of the
-- statement's transaction. The trigger of migrations/000008 stamps `state_entered_at`.
pub mod Keys
use devsignal.Prelude.{
  ℕ, suc, ◌+◌, ◌-◌, Bool, true, false, not, ◌&&◌, ◌||◌, Option, none, some, List, [], ◌∷◌, ltb, leb,
  ◌==◌, if◌then◌else◌,
}
use devsignal.Pipeline.State.{State, ready, failed_permanent, is_state}

pub record Row : Type 0 where
  pub id : ℕ
  pub state : State
  pub version : ℕ
  pub attempts : ℕ
  pub last_error : Option (List ℕ)
  pub next_attempt_at : ℕ
  pub lease_until : Option ℕ
  pub merged_into : Option ℕ
  pub state_entered_at : ℕ
  pub swept_at : Option ℕ

abbrev pub is_null {ℓ} : {A : Type ℓ} → Option A → Bool
is_null none = true
is_null (some _) = false

-- `id = ANY(ids)`
abbrev pub elem : ℕ → List ℕ → Bool
elem k [] = false
elem k (j ∷ js) = k == j || elem k js

-- `lease_until IS NULL OR lease_until < now()`
abbrev pub lease_free : ℕ → Option ℕ → Bool
lease_free now none = true
lease_free now (some t) = ltb t now

-- The BEFORE UPDATE trigger: a change of state stamps the time.
abbrev pub stamped : ℕ → Row → Row → Row
stamped now old r = record r {
  state_entered_at = if is_state r.state old.state then r.state_entered_at else now;
}

pub record AdvanceStateParams : Type 0 where
  pub next_state : State
  pub id : ℕ
  pub version : ℕ
  pub current_state : State

-- The WHERE clause of AdvanceState.
unfoldable pub advances : AdvanceStateParams → Row → Bool
advances p r = r.id == p.id && r.version == p.version && is_state r.state p.current_state

unfoldable pub advance_row : AdvanceStateParams → ℕ → Row → Row
unfolding advances
advance_row p now r =
    if advances p r
    then stamped now r (record r {
      state = p.next_state;
      version = r.version + 1;
      lease_until = none;
      attempts = 0;
      last_error = none;
      next_attempt_at = now;
    })
    else r

-- The WHERE clause of ClaimBatch's subquery.
unfoldable pub claimable : ℕ → State → Row → Bool
claimable now state r =
    is_state r.state state
    && is_null r.merged_into
    && leb r.next_attempt_at now
    && lease_free now r.lease_until

unfoldable pub claim_row : List ℕ → ℕ → ℕ → Row → Row
claim_row ids lease now r =
    if elem r.id ids
    then record r { lease_until = some (now + lease); attempts = r.attempts + 1 }
    else r

pub record FailAttemptParams : Type 0 where
  pub err : List ℕ
  pub backoff : ℕ
  pub max_attempts : ℕ
  pub id : ℕ

unfoldable pub fail_row : FailAttemptParams → ℕ → Row → Row
fail_row p now r =
    if r.id == p.id
    then stamped now r (record r {
      last_error = some p.err;
      lease_until = none;
      next_attempt_at = now + p.backoff;
      state = if leb p.max_attempts r.attempts then failed_permanent else r.state;
    })
    else r

-- GREATEST(attempts - 1, 0) is the subtraction of ℕ.
unfoldable pub release_row : ℕ → Row → Row
release_row id r =
    if r.id == id && not (is_null r.lease_until)
    then record r { lease_until = none; attempts = r.attempts - 1 }
    else r

-- The WHERE clause of SweepStranded; `state_entered_at < now() - threshold` is written as a sum.
unfoldable pub stranded : ℕ → ℕ → Row → Bool
stranded now threshold r =
    not (is_state r.state ready || is_state r.state failed_permanent)
    && is_null r.merged_into
    && lease_free now r.lease_until
    && ltb (r.state_entered_at + threshold) now

unfoldable pub requeue_row : List ℕ → ℕ → Row → Row
requeue_row ids now r =
    if elem r.id ids
    then record r { next_attempt_at = now; lease_until = none; swept_at = some now }
    else r
