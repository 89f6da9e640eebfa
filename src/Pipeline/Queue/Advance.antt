-- ===== src/Pipeline/Queue/Advance.antt =====
-- `Advance`: what it does on each branch.
use devsignal.Prelude.{
  ℕ, ◌+◌, ◌≡◌, ◌≢◌, ◌⊎◌, refl, true, false, none, some, [], ◌∷◌, map, Bool-cases, inl, inr, ap,
  arith, ◌==◌, if◌then◌else◌,
}
use mathlib.Core.Option
use mathlib.Core.Path.{ap₂}
use devsignal.Pipeline.State.Chain.{is_state_iff, next-rank}
use devsignal.Pipeline.State.{State, next, NextResult, next_ok, no_successor}
use devsignal.Pipeline.Row.{Row, AdvanceStateParams, advances, advance_row}
use devsignal.Pipeline.Row.Keys.{id-advance_row, advances-id, advance_row-idle}
use devsignal.Pipeline.Table.{Table, find_row, affected}
use devsignal.Pipeline.Table.Lookup.{UniqueIds, find_row-map, affected-eq}
use devsignal.Pipeline.Queue.{Item, Db, version_conflict, advance}

-- The item is what the row holds now.
abbrev pub IsFresh : Item → Row → Type 0
IsFresh it r = (r.id ≡ it.id) × (r.version ≡ it.version) × (r.state ≡ it.state)

-- The row that a successful advance leaves.
abbrev pub advanced : State → ℕ → Row → Row
advanced n now r = record r {
  state = n;
  version = r.version + 1;
  attempts = 0;
  last_error = none;
  next_attempt_at = now;
  lease_until = none;
  state_entered_at = now;
}

abbrev pub params_of : State → Item → AdvanceStateParams
params_of n it = record {
  next_state = n;
  id = it.id;
  version = it.version;
  current_state = it.state;
}

map_idle :
    (p : AdvanceStateParams) (now : ℕ) (t : Table)
    → affected (advances p) t ≡ 0
    → map (advance_row p now) t ≡ t
map_idle p now [] h = refl
map_idle p now (r ∷ t) h = elim (Bool-cases (advances p r)) [
  | inl e ↦ absurd (ground arith)
  | inr e ↦ ap₂ ◌∷◌ (advance_row-idle r p now e) (map_idle p now t (ground arith))
]

affected-advances :
    (p : AdvanceStateParams) (t : Table) (r : Row)
    → UniqueIds t
    → find_row p.id t ≡ some r
    → affected (advances p) t ≡ (if advances p r then 1 else 0)
affected-advances p t r u h = rw (affected-eq p.id (advances p) t (λ s. advances-id s p) u, h)

find_row-advance_state :
    (p : AdvanceStateParams) (now j : ℕ) (t : Table)
    → find_row j (map (advance_row p now) t) ≡ Option.map (advance_row p now) (find_row j t)
find_row-advance_state p now j t =
    find_row-map (advance_row p now) j t (λ r. id-advance_row r p now)

advance_row-fresh :
    (n : State) (it : Item) (now : ℕ) (r : Row)
    → next it.state ≡ next_ok n
    → IsFresh it r
    → (advances (params_of n it) r ≡ true) × (advance_row (params_of n it) now r ≡ advanced n now r)
unfolding advance_row
advance_row-fresh n it now r h f = ground (arith, next-rank it.state n h)

-- A row under the item's key that is no longer what the item holds.
abbrev pub IsStale : Item → Row → Type 0
IsStale it r = (r.version ≢ it.version) ⊎ (r.state ≢ it.state)

advances-stale :
    (n : State) (it : Item) (r : Row) → IsStale it r → advances (params_of n it) r ≡ false
unfolding advances
advances-stale n it r (inl h) = ground arith
advances-stale n it r (inr h) = ground (arith, is_state_iff r.state it.state)

-- An advance through a running database, in two parts: the row function over the table, and a
-- conflict if the WHERE clause matched no row.
advance-eq :
    (it : Item) (now : ℕ) (t : Table) (n : State)
    → next it.state ≡ next_ok n
    → advance it (record { now = now; up = true }) t ≡ (
      map (advance_row (params_of n it) now) t,
      if affected (advances (params_of n it)) t == 0 then some version_conflict else none,
    )
unfolding advance
advance-eq it now t n succ = rw succ

-- Whatever the database does, an advance leaves the table or maps the row function over it.
pub advance_cases :
    (it : Item) (db : Db) (t : Table)
    → ((advance it db t).0 ≡ t)
      ⊎ ((n : State) × (next it.state ≡ next_ok n)
          × ((advance it db t).0 ≡ map (advance_row (params_of n it) db.now) t))
unfolding advance
advance_cases it db t = go (next it.state) refl
  where
    go :
        (x : NextResult)
        → next it.state ≡ x
        → ((advance it db t).0 ≡ t)
          ⊎ ((n : State) × (next it.state ≡ next_ok n)
              × ((advance it db t).0 ≡ map (advance_row (params_of n it) db.now) t))
    go (no_successor s) e = inl (rw e)
    go (next_ok n) e = elim (Bool-cases db.up) [
      | inl up ↦ inr (n, e, rw (e, up))
      | inr down ↦ inl (rw (e, down))
    ]

module _ (it : Item) (now : ℕ) (t : Table) (r : Row) (n : State) (unique : UniqueIds t)
    (at_key : find_row it.id t ≡ some r) (succ : next it.state ≡ next_ok n) where
  pub advance_fresh :
      IsFresh it r
      → ((advance it (record { now = now; up = true }) t).1 ≡ none)
        × (find_row it.id (advance it (record { now = now; up = true }) t).0
            ≡ some (advanced n now r))
  advance_fresh f =
      let (passes, moved) = advance_row-fresh n it now r succ f in
      rw (advance-eq it now t n succ) (
        rw (affected-advances (params_of n it) t r unique at_key, passes) refl,
        rw (find_row-advance_state (params_of n it) now it.id t, at_key) (ap some moved),
      )

  pub advance_stale :
      IsStale it r → advance it (record { now = now; up = true }) t ≡ (t, some version_conflict)
  advance_stale f =
      let none_hit : affected (advances (params_of n it)) t ≡ 0 =
        rw (affected-advances (params_of n it) t r unique at_key, advances-stale n it r f) refl in
      rw (advance-eq it now t n succ, map_idle (params_of n it) now t none_hit, none_hit)

  -- Advance is a compare-and-swap on the version and the state. In a table with unique keys, for an
  -- item whose state has the successor n and a row r under the item's key: if the item is what the
  -- row holds, Advance succeeds and the row is in state n with the next version, without lease,
  -- attempts or error; if the row has another version or state, Advance reports a version conflict
  -- and the table is as it was.
  pub advance_guarded :
      (IsFresh it r
        → ((advance it (record { now = now; up = true }) t).1 ≡ none)
          × (find_row it.id (advance it (record { now = now; up = true }) t).0
              ≡ some (advanced n now r)))
      × (IsStale it r → advance it (record { now = now; up = true }) t ≡ (t, some version_conflict))
  advance_guarded = (advance_fresh, advance_stale)
