-- ===== src/Pipeline/Ops/Effect.antt =====
-- Each operation, seen from one row.
use devsignal.Prelude.{
  ℕ, ◌+◌, ◌≡◌, ◌⊎◌, refl, Bool, true, false, some, List, [], ◌∷◌, map, Bool-cases, inl, inr, ◌∙◌,
  ap, if◌then◌else◌,
}
use devsignal.Prelude.Int.{ℤ}
use devsignal.Pipeline.State.{State, next_ok, next}
use devsignal.Pipeline.Row.{
  Row, elem, claimable, advance_row, claim_row, FailAttemptParams, fail_row, release_row,
  requeue_row,
}
use devsignal.Pipeline.Row.Keys.{
  id-advance_row, id-claim_row, id-fail_row, id-release_row, id-requeue_row,
}
use devsignal.Pipeline.Table.{Table, find_row, pick, release_claim}
use devsignal.Pipeline.Table.Lookup.{UniqueIds, find_row-map, find_row-id}
use devsignal.Pipeline.Table.Pick.{pick-claimable}
use devsignal.Pipeline.Queue.{
  Config, Item, Db, claim, advance, fail, release, requeue, pg_interval, truncate, backoff,
}
use devsignal.Pipeline.Queue.Advance.{params_of, advance_cases}
use devsignal.Pipeline.Ops.{Op, claims, advances, fails, releases, requeues, exec}

-- The operation claims, if at all, in a state that the predicate admits.
abbrev pub ClaimsOnly : (State → Type 0) → Op → Type 0
ClaimsOnly ok (claims locked db state) = ok state
ClaimsOnly ok _ = Unit

abbrev pub AnyState : State → Type 0
AnyState s = Unit

-- What one statement may do to the row r. A claim touches it only if it is claimable in the state
-- that is claimed, which `ok` admits.
pub data Effect (ok : State → Type 0) (cfg : Config) (r : Row) (r' : Row) : Type 0 where
  idle : r' ≡ r → Effect ok cfg r r'
  claimed :
      (state : State) (now lease : ℕ)
      → ok state
      → claimable now state r ≡ true
      → r' ≡ record r { lease_until = some (now + lease); attempts = r.attempts + 1 }
      → Effect ok cfg r r'
  advanced :
      (n : State) (it : Item) (now : ℕ)
      → next it.state ≡ next_ok n
      → r' ≡ advance_row (params_of n it) now r
      → Effect ok cfg r r'
  failed :
      (p : FailAttemptParams) (now : ℕ)
      → p.max_attempts ≡ cfg.max_attempts
      → r' ≡ fail_row p now r
      → Effect ok cfg r r'
  released : (id : ℕ) → r' ≡ release_row id r → Effect ok cfg r r'
  requeued : (ids : List ℕ) (now : ℕ) → r' ≡ requeue_row ids now r → Effect ok cfg r r'

-- Several statements, one after the other.
pub data Effects (ok : State → Type 0) (cfg : Config) (r : Row) : Row → Type 0 where
  here : Effects ok cfg r r
  later : {s u : Row} → Effects ok cfg r s → Effect ok cfg s u → Effects ok cfg r u

pub Effects-trans :
    {ok : State → Type 0} {cfg : Config} {r s u : Row}
    → Effects ok cfg r s
    → Effects ok cfg s u
    → Effects ok cfg r u
Effects-trans a here = a
Effects-trans a (later b e) = later (Effects-trans a b) e

-- The row under a key after a statement.
abbrev After : (State → Type 0) → Config → ℕ → Table → Row → Type 0
After ok cfg id t r = (r' : Row) × (find_row id t ≡ some r') × Effects ok cfg r r'

module _ (ok : State → Type 0) (cfg : Config) (overflow : ℤ) (id : ℕ) where
  After-map :
      (f : Row → Row) (t : Table) (r : Row)
      → ((s : Row) → (f s).id ≡ s.id)
      → find_row id t ≡ some r
      → Effect ok cfg r (f r)
      → After ok cfg id (map f t) r
  After-map f t r keeps h e = (f r, rw (find_row-map f id t keeps, h), later here e)

  unchanged : (t : Table) (r : Row) → find_row id t ≡ some r → After ok cfg id t r
  unchanged t r h = (r, h, here)

  After-claim :
      (locked : ℕ → Bool) (db : Db) (state : State) (t : Table) (r : Row)
      → ok state
      → UniqueIds t
      → find_row id t ≡ some r
      → After ok cfg id (claim cfg locked db state t).0 r
  unfolding claim
  After-claim locked db state t r fits u h = elim (Bool-cases db.up) [
    | inr down ↦ rw down (unchanged t r h)
    | inl up ↦ rw up (
        After-map (claim_row ids (pg_interval cfg.lease) db.now) t r
          (λ s. id-claim_row s ids (pg_interval cfg.lease) db.now) h
          (touched (Bool-cases (elem r.id ids))))
  ]
    where
      ids : List ℕ
      ids = pick locked db.now state cfg.batch_size t

      touched :
          (elem r.id ids ≡ true) ⊎ (elem r.id ids ≡ false)
          → Effect ok cfg r (claim_row ids (pg_interval cfg.lease) db.now r)
      touched (inl e) =
          claimed state db.now (pg_interval cfg.lease) fits
            (pick-claimable locked db.now state cfg.batch_size t r.id r u
              (ap (λ k. find_row k t) (find_row-id id t r h) ∙ h) e).0
            (unfold claim_row in rw e)
      touched (inr e) = idle (unfold claim_row in rw e)

  After-advance :
      (it : Item) (db : Db) (t : Table) (r : Row)
      → find_row id t ≡ some r
      → After ok cfg id (advance it db t).0 r
  After-advance it db t r h = elim (advance_cases it db t) [
    | inl same ↦ rw same (unchanged t r h)
    | inr (n, succ, moved) ↦ rw moved (
        After-map (advance_row (params_of n it) db.now) t r
          (λ s. id-advance_row s (params_of n it) db.now) h (advanced n it db.now succ refl))
  ]

  After-fail :
      (it : Item) (cause : List ℕ) (db : Db) (t : Table) (r : Row)
      → find_row id t ≡ some r
      → After ok cfg id (fail cfg overflow it cause db t).0 r
  unfolding fail
  After-fail it cause db t r h = elim (Bool-cases db.up) [
    | inr down ↦ rw down (unchanged t r h)
    | inl up ↦ rw up (
        After-map (fail_row p db.now) t r (λ s. id-fail_row s p db.now) h
          (failed p db.now refl refl))
  ]
    where
      p : FailAttemptParams
      p = record {
        err = truncate 2000 cause;
        backoff = pg_interval (backoff cfg overflow it.attempts);
        max_attempts = cfg.max_attempts;
        id = it.id;
      }

  After-release :
      (up : ℕ → Bool) (ids : List ℕ) (t : Table) (r : Row)
      → find_row id t ≡ some r
      → After ok cfg id (release up ids t) r
  unfolding release release_claim
  After-release up [] t r h = unchanged t r h
  After-release up (k ∷ ids) t r h =
      let (s, found, first) = released_once (Bool-cases (up k)) in
      let (u, at_end, rest) =
        After-release up ids (if up k then release_claim k t else t) s found in
      (u, at_end, Effects-trans first rest)
    where
      released_once :
          (up k ≡ true) ⊎ (up k ≡ false) → After ok cfg id (if up k then release_claim k t else t) r
      released_once (inr down) = rw down (unchanged t r h)
      released_once (inl runs) = rw runs (
          unfold release_claim in
          After-map (release_row k) t r (λ s. id-release_row s k) h (released k refl))

  After-requeue :
      (ids : List ℕ) (db : Db) (t : Table) (r : Row)
      → find_row id t ≡ some r
      → After ok cfg id (requeue ids db t).0 r
  unfolding requeue
  After-requeue [] db t r h = unchanged t r h
  After-requeue (k ∷ ids) db t r h = elim (Bool-cases db.up) [
    | inr down ↦ rw down (unchanged t r h)
    | inl up ↦ rw up (
        After-map (requeue_row (k ∷ ids) db.now) t r (λ s. id-requeue_row s (k ∷ ids) db.now) h
          (requeued (k ∷ ids) db.now refl))
  ]

  -- Keys stay unique, and the row under a key undergoes effects.
  pub exec-After :
      (op : Op) (t : Table) (r : Row)
      → ClaimsOnly ok op
      → UniqueIds t
      → find_row id t ≡ some r
      → After ok cfg id (exec cfg overflow op t) r
  unfolding exec
  exec-After (claims locked db state) t r c u h = After-claim locked db state t r c u h
  exec-After (advances it db) t r c u h = After-advance it db t r h
  exec-After (fails it cause db) t r c u h = After-fail it cause db t r h
  exec-After (releases up ids) t r c u h = After-release up ids t r h
  exec-After (requeues ids db) t r c u h = After-requeue ids db t r h
