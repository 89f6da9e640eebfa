-- ===== src/Pipeline/State.antt =====
-- internal/pipeline/state.go: the pipeline states and the happy path.
use devsignal.Prelude.{ℕ, Bool, ◌||◌, Option, none, some, List, [], ◌∷◌, ◌==◌}
-- The column has a CHECK constraint that admits these nine spellings and no other.
pub mod Chain

pub data State : Type 0 where
  discovered fetched parsed normalized deduped enriched embedded ready failed_permanent : State

-- The place of a state in the declaration's order, which is the order of the pipeline.
abbrev pub rank : State → ℕ
rank discovered = 0
rank fetched = 1
rank parsed = 2
rank normalized = 3
rank deduped = 4
rank enriched = 5
rank embedded = 6
rank ready = 7
rank failed_permanent = 8

-- Go's `==` on two states, and SQL's `=`.
abbrev pub is_state : State → State → Bool
is_state s t = rank s == rank t

-- The map `happyPath`: the successor of a state, if it has one.
unfoldable pub happy_path : State → Option State
happy_path discovered = some fetched
happy_path fetched = some parsed
happy_path parsed = some normalized
happy_path normalized = some deduped
happy_path deduped = some enriched
happy_path enriched = some embedded
happy_path embedded = some ready
happy_path _ = none

-- The error of `Next` names the state that has no successor.
pub data NextResult : Type 0 where
  next_ok : State → NextResult
  no_successor : State → NextResult

found : State → Option State → NextResult
found s none = no_successor s
found s (some n) = next_ok n

unfoldable pub next : State → NextResult
unfolding found happy_path
next s = found s (happy_path s)

unfoldable pub terminal : State → Bool
terminal s = is_state s ready || is_state s failed_permanent

unfoldable pub degradable : State → Bool
degradable s = is_state s deduped || is_state s enriched

-- The keys of `happyPath`; Go ranges over a map in no fixed order.
unfoldable pub all_non_terminal : List State
all_non_terminal = discovered ∷ fetched ∷ parsed ∷ normalized ∷ deduped ∷ enriched ∷ embedded ∷ []
