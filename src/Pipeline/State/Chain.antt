-- ===== src/Pipeline/State/Chain.antt =====
-- The happy path as a chain: where it goes, where it ends, and which states it never leaves.
use devsignal.Prelude.{
  ℕ, zero, suc, ◌+◌, ◌-◌, ◌≤◌, ◌≡◌, ◌↔◌, ◌⊎◌, refl, sym, true, false, List, [], ◌∷◌, arith,
}
use mathlib.Core.Bool.{false≢true}
use devsignal.Pipeline.State.{
  State, discovered, fetched, parsed, normalized, deduped, enriched, embedded, ready,
  failed_permanent, rank, is_state, next_ok, no_successor, next, terminal, degradable,
  all_non_terminal,
}

-- `advances k s t`: k calls of `Next` lead from s to t.
pub data Advances : ℕ → State → State → Type 0 where
  here : {s : State} → Advances zero s s
  step : {k : ℕ} {s t u : State} → next s ≡ next_ok t → Advances k t u → Advances (suc k) s u

pub is_state_iff : (s t : State) → (is_state s t ≡ true) ↔ (s ≡ t)
is_state_iff s t = ground arith

-- One call of `Next` moves one place along the declared order, and never into failed_permanent.
pub next-rank : (s t : State) → next s ≡ next_ok t → (rank t ≡ rank s + 1) × (rank t ≤ 7)
unfolding next
next-rank s t h = ground arith

-- Membership in a list of states, as a sum of equations.
abbrev pub Listed : State → List State → Type 0
Listed s [] = ⊥
Listed s (t ∷ ts) = (s ≡ t) ⊎ Listed s ts

-- `Next` refuses exactly the two terminal states; every state that is not terminal is in the list
-- of the non-terminal states, and only those are.
pub next_dichotomy :
    (s : State)
    → ((terminal s ≡ true) ↔ (next s ≡ no_successor s))
      × ((terminal s ≡ false) ↔ Listed s all_non_terminal)
unfolding terminal next all_non_terminal
next_dichotomy s = (ground arith, ground arith)

-- From a state that is not terminal the happy path leads to ready in as many calls of `Next` as
-- there are places between, and so it ends.
pub reaches_ready : (s : State) → terminal s ≡ false → Advances (7 - rank s) s ready
unfolding terminal next
reaches_ready ready h = here
reaches_ready failed_permanent h = absurd (false≢true (sym h))
reaches_ready embedded h = step refl here
reaches_ready enriched h = step refl (step refl here)
reaches_ready deduped h = step refl (step refl (step refl here))
reaches_ready normalized h = step refl (step refl (step refl (step refl here)))
reaches_ready parsed h = step refl (step refl (step refl (step refl (step refl here))))
reaches_ready fetched h = step refl (step refl (step refl (step refl (step refl (step refl here)))))
reaches_ready discovered h =
    step refl (step refl (step refl (step refl (step refl (step refl (step refl here))))))

-- The degradable states are not terminal, and their successors are the two states that follow
-- deduped and enriched: degrading past them still leads towards ready.
pub degradable-next :
    (s : State)
    → degradable s ≡ true
    → (terminal s ≡ false) × ((next s ≡ next_ok enriched) ⊎ (next s ≡ next_ok embedded))
unfolding degradable terminal next
degradable-next s h = ground arith
