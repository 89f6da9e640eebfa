-- ===== src/Pipeline/Ops/Runs.antt =====
-- Interleavings of any length, seen from one row, and the rule of induction over them.
use devsignal.Prelude.{
  ℕ, ◌≡◌, Bool, true, false, some, List, [], ◌∷◌, All, Bool-cases, inl, inr, if◌then◌else◌,
}
use devsignal.Prelude.Int.{ℤ}
use devsignal.Pipeline.State.{State}
use devsignal.Pipeline.Row.{Row, advance_row, claim_row, release_row, requeue_row}
use devsignal.Pipeline.Row.Keys.{
  id-advance_row, id-claim_row, id-fail_row, id-release_row, id-requeue_row,
}
use devsignal.Pipeline.Table.{Table, find_row, pick, release_claim}
use devsignal.Pipeline.Table.Lookup.{UniqueIds, UniqueIds-map}
use devsignal.Pipeline.Queue.{Config, claim, fail, release, requeue, pg_interval}
use devsignal.Pipeline.Queue.Advance.{params_of, advance_cases}
use devsignal.Pipeline.Ops.{Op, claims, advances, fails, releases, requeues, exec, run}
use devsignal.Pipeline.Ops.Effect.{ClaimsOnly, AnyState, Effects, here, Effects-trans, exec-After}

module _ (cfg : Config) (overflow : ℤ) where
  UniqueIds-release :
      (up : ℕ → Bool) (ids : List ℕ) (t : Table) → UniqueIds t → UniqueIds (release up ids t)
  unfolding release release_claim
  UniqueIds-release up [] t u = u
  UniqueIds-release up (k ∷ ids) t u =
      UniqueIds-release up ids (if up k then release_claim k t else t) (once (up k))
    where
      once : (b : Bool) → UniqueIds (if b then release_claim k t else t)
      once true = UniqueIds-map (release_row k) t (λ s. id-release_row s k) u
      once false = u

  pub UniqueIds-exec : (op : Op) (t : Table) → UniqueIds t → UniqueIds (exec cfg overflow op t)
  unfolding exec claim fail requeue
  UniqueIds-exec (claims locked db state) t u = elim (Bool-cases db.up) [
    | inr down ↦ rw down u
    | inl up ↦
        let ids = pick locked db.now state cfg.batch_size t in
        rw up (
          UniqueIds-map (claim_row ids (pg_interval cfg.lease) db.now) t
            (λ s. id-claim_row s ids (pg_interval cfg.lease) db.now) u)
  ]
  UniqueIds-exec (advances it db) t u = elim (advance_cases it db t) [
    | inl same ↦ rw same u
    | inr (n, succ, moved) ↦ rw moved (
        UniqueIds-map (advance_row (params_of n it) db.now) t
          (λ s. id-advance_row s (params_of n it) db.now) u)
  ]
  UniqueIds-exec (fails it cause db) t u = elim (Bool-cases db.up) [
    | inr down ↦ rw down u
    | inl up ↦ rw up (UniqueIds-map _ t (λ s. id-fail_row s _ db.now) u)
  ]
  UniqueIds-exec (releases up ids) t u = UniqueIds-release up ids t u
  UniqueIds-exec (requeues [] db) t u = u
  UniqueIds-exec (requeues (k ∷ ids) db) t u = elim (Bool-cases db.up) [
    | inr down ↦ rw down u
    | inl up ↦
        rw up (
          UniqueIds-map (requeue_row (k ∷ ids) db.now) t (λ s. id-requeue_row s (k ∷ ids) db.now) u)
  ]

  pub UniqueIds-run : (ops : List Op) (t : Table) → UniqueIds t → UniqueIds (run cfg overflow ops t)
  unfolding run
  UniqueIds-run [] t u = u
  UniqueIds-run (op ∷ ops) t u = UniqueIds-run ops (exec cfg overflow op t) (UniqueIds-exec op t u)

pub claims_any : (ops : List Op) → All (ClaimsOnly AnyState) ops
claims_any [] = tt
claims_any (claims locked db state ∷ ops) = (tt, claims_any ops)
claims_any (_ ∷ ops) = (tt, claims_any ops)

module _ (ok : State → Type 0) (cfg : Config) (overflow : ℤ) (id : ℕ) where
  -- No row is lost: after any interleaving the row is there under its key, changed by effects.
  pub run-After :
      (ops : List Op) (t : Table) (r : Row)
      → All (ClaimsOnly ok) ops
      → UniqueIds t
      → find_row id t ≡ some r
      → (r' : Row) × (find_row id (run cfg overflow ops t) ≡ some r') × Effects ok cfg r r'
  unfolding run
  run-After [] t r c u h = (r, h, here)
  run-After (op ∷ ops) t r c u h =
      let (s, found, first) = exec-After ok cfg overflow id op t r c.0 u h in
      let (z, at_end, rest) =
        run-After ops (exec cfg overflow op t) s c.1 (UniqueIds-exec cfg overflow op t u) found in
      (z, at_end, Effects-trans first rest)
