-- ===== src/Pipeline/Ops/Progress.antt =====
-- What no interleaving can do: turn a row back, lose it, or use one version twice.
use devsignal.Prelude.{ℕ, ◌+◌, ◌≤◌, ◌≡◌, true, some, List, ◌∷◌, arith, inl, ◌⊎◌}
use devsignal.Prelude.Int.{ℤ}
use devsignal.Pipeline.State.{State, rank, next, next_ok}
use devsignal.Pipeline.State.Chain.{next-rank}
use devsignal.Pipeline.Row.{Row, FailAttemptParams, advance_row, fail_row, release_row, requeue_row}
use devsignal.Pipeline.Table.{Table, find_row}
use devsignal.Pipeline.Table.Lookup.{UniqueIds}
use devsignal.Pipeline.Queue.{Config, Item, version_conflict, advance}
use devsignal.Pipeline.Queue.Advance.{params_of, advance_stale, advance_fresh, IsFresh}
use devsignal.Pipeline.Queue.Advance
use devsignal.Pipeline.Ops.{Op, advances, exec, run}
use devsignal.Pipeline.Ops.Effect.{
  AnyState, Effect, Effects, here, later, idle, claimed, advanced as effect_advanced, failed,
  released, requeued,
}
use devsignal.Pipeline.Ops.Runs.{run-After, claims_any, UniqueIds-exec, UniqueIds-run}

-- One row is at least as far as another: it has the later version, and does not stand before it in
-- the pipeline; with the same version it is in the same state, or parked.
pub record IsFurther (r : Row) (r' : Row) : Type 0 where
  pub versions : r.version ≤ r'.version
  pub ranks : rank r.state ≤ rank r'.state
  pub same_version : r'.version ≡ r.version → (rank r'.state ≡ rank r.state) ⊎ (rank r'.state ≡ 8)

rank_le : (s : State) → rank s ≤ 8
rank_le s = ground arith

advance_row_moves :
    (n : State) (it : Item) (now : ℕ) (r : Row)
    → (advance_row (params_of n it) now r ≡ r)
      ⊎ ((rank r.state ≡ rank it.state)
          × (rank (advance_row (params_of n it) now r).state ≡ rank n)
          × ((advance_row (params_of n it) now r).version ≡ r.version + 1))
unfolding advance_row
advance_row_moves n it now r = ground arith

fail_row_moves :
    (p : FailAttemptParams) (now : ℕ) (r : Row)
    → ((fail_row p now r).version ≡ r.version)
      × ((rank (fail_row p now r).state ≡ rank r.state) ⊎ (rank (fail_row p now r).state ≡ 8))
unfolding fail_row
fail_row_moves p now r = ground arith

IsFurther-trans : (r s u : Row) → IsFurther r s → IsFurther s u → IsFurther r u
IsFurther-trans r s u a b = ground (arith, rank_le u.state)

module _ (cfg : Config) where
  Effect-IsFurther : (r r' : Row) → Effect AnyState cfg r r' → IsFurther r r'
  unfolding release_row requeue_row
  Effect-IsFurther r r' (idle e) = ground arith
  Effect-IsFurther r r' (claimed s now lease fits h e) = ground arith
  Effect-IsFurther r r' (effect_advanced n it now succ e) =
      ground (arith, next-rank it.state n succ, advance_row_moves n it now r)
  Effect-IsFurther r r' (failed p now same e) =
      ground (arith, fail_row_moves p now r, rank_le r.state)
  Effect-IsFurther r r' (released id e) = ground arith
  Effect-IsFurther r r' (requeued ids now e) = ground arith

  Effects-IsFurther : {r r' : Row} → Effects AnyState cfg r r' → IsFurther r r'
  Effects-IsFurther {r} here = ground arith
  Effects-IsFurther {r} {r'} (later {s} before e) =
      IsFurther-trans r s r' (Effects-IsFurther before) (Effect-IsFurther s r' e)

  pub never_back :
      (overflow : ℤ) (ops : List Op) (t : Table) (id : ℕ) (r : Row)
      → UniqueIds t
      → find_row id t ≡ some r
      → (r' : Row) × (find_row id (run cfg overflow ops t) ≡ some r') × IsFurther r r'
  never_back overflow ops t id r u h =
      let (r', found, effects) = run-After AnyState cfg overflow id ops t r (claims_any ops) u h in
      (r', found, Effects-IsFurther effects)

  -- Two workers that hold the same version of a row cannot both move it on. When an advance from a
  -- fresh item has been committed, then after any further operations of any workers, another
  -- advance for the same key and version reports a version conflict and changes nothing.
  pub advance_once :
      (overflow : ℤ) (it it' : Item) (now now' : ℕ) (ops : List Op) (t : Table) (r : Row)
      (n n' : State)
      → UniqueIds t
      → find_row it.id t ≡ some r
      → IsFresh it r
      → next it.state ≡ next_ok n
      → it'.id ≡ it.id
      → it'.version ≡ it.version
      → next it'.state ≡ next_ok n'
      → let after = run cfg overflow (advances it (record { now = now; up = true }) ∷ ops) t in
        advance it' (record { now = now'; up = true }) after ≡ (after, some version_conflict)
  unfolding run exec
  advance_once overflow it it' now now' ops t r n n' u h fresh succ same_id same_version succ' =
      let first = (advance it (record { now = now; up = true }) t).0 in
      let moved = (advance_fresh it now t r n u h succ fresh).1 in
      let u' = UniqueIds-exec cfg overflow (advances it (record { now = now; up = true })) t u in
      let (z, found, further) =
        never_back overflow ops first it.id (Advance.advanced n now r) u' moved in
      advance_stale it' now' (run cfg overflow ops first) z n'
        (UniqueIds-run cfg overflow ops first u') (rw same_id found) succ' (inl (ground arith))
