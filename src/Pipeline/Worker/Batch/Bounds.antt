-- ===== src/Pipeline/Worker/Batch/Bounds.antt =====
-- The invariants of a batch: bounded concurrency, and no id in flight without its item.
use devsignal.Prelude.{
  ℕ, ◌≤◌, ◌≡◌, refl, ap, Bool, true, false, false≢true, not, ◌||◌, Option, none, some, List, [],
  ◌∷◌, ◌++◌, length, All, All-map, All-filter, arith, ◌==◌, ==_refl, Bool-cases, inl, inr,
  length-append,
}
use devsignal.Prelude.Int.{ℤ}
use devsignal.Pipeline.State.{State}
use devsignal.Pipeline.Row.{elem}
use devsignal.Pipeline.Table.{Table}
use devsignal.Pipeline.Queue.{Config, Item, claim}
use devsignal.Pipeline.Worker.{Handler, track, untrack, release_outstanding}
use devsignal.Pipeline.Worker.Batch.{
  Phase, handling, settling, settled, Batch, begin, IsFinished, Step, takes, starts, handles,
  settles, leaves, others, Steps, here, next, Runs, started, meanwhile, polled, processed,
}

abbrev waits : ℕ → Option Item → Bool
waits k none = false
waits k (some it) = k == it.id

abbrev runs : ℕ → List (Item × Phase) → Bool
runs k [] = false
runs k ((it, p) ∷ xs) = k == it.id || runs k xs

-- The id belongs to an item that waits for a slot or runs.
abbrev held : Batch → ℕ → Bool
held b k = waits k b.waiting || runs k b.running

pub record IsTidy (limit : ℕ) (b : Batch) : Type 0 where
  pub bounded : length b.running ≤ limit
  pub owned : All (λ k. held b k ≡ true) b.in_flight

-- Replacing the phase of one item, and removing one item.
runs-phase :
    (k : ℕ) (xs ys : List (Item × Phase)) (it : Item) (p q : Phase)
    → runs k (xs ++ (it, p) ∷ ys) ≡ runs k (xs ++ (it, q) ∷ ys)
runs-phase k [] ys it p q = refl
runs-phase k ((j, s) ∷ xs) ys it p q = ap (λ b. k == j.id || b) (runs-phase k xs ys it p q)

runs-remove :
    (k : ℕ) (xs ys : List (Item × Phase)) (it : Item) (p : Phase)
    → (k == it.id) ≡ false
    → runs k (xs ++ (it, p) ∷ ys) ≡ runs k (xs ++ ys)
runs-remove k [] ys it p ne = rw ne
runs-remove k ((j, s) ∷ xs) ys it p ne = ap (λ b. k == j.id || b) (runs-remove k xs ys it p ne)

length-phase :
    (xs ys : List (Item × Phase)) (it : Item) (p q : Phase)
    → length (xs ++ (it, p) ∷ ys) ≡ length (xs ++ (it, q) ∷ ys)
length-phase xs ys it p q =
    omega (arith, length-append xs ((it, p) ∷ ys), length-append xs ((it, q) ∷ ys))

length-remove :
    (xs ys : List (Item × Phase)) (it : Item) (p : Phase)
    → length (xs ++ ys) ≤ length (xs ++ (it, p) ∷ ys)
length-remove xs ys it p = omega (arith, length-append xs ((it, p) ∷ ys), length-append xs ys)

All-track : (P : ℕ → Type 0) (id : ℕ) (ids : List ℕ) → P id → All P ids → All P (track id ids)
unfolding track
All-track P id ids p h = elim (Bool-cases (elem id ids)) [ inl e ↦ rw e h | inr e ↦ rw e (p, h) ]

rephased :
    (limit : ℕ) (b : Batch) (xs ys : List (Item × Phase)) (it : Item) (p q : Phase) (t : Table)
    → b.running ≡ xs ++ (it, p) ∷ ys
    → IsTidy limit b
    → IsTidy limit (record b { running = xs ++ (it, q) ∷ ys; table = t })
rephased limit b xs ys it p q t e h = record {
  bounded = omega (arith, length-phase xs ys it p q, ap length e, h.bounded);
  owned =
      All-map (λ k. held b k ≡ true) _ b.in_flight
        (λ k hk. rw (← runs-phase k xs ys it p q, ← e) hk) h.owned;
}

module _ {cfg : Config} {overflow : ℤ} {handle : Handler} (limit : ℕ) where
  Step-IsTidy :
      (b b' : Batch) → Step cfg overflow handle limit b b' → IsTidy limit b → IsTidy limit b'
  Step-IsTidy b b' (takes it rest e f g) h = rw g (record {
    bounded = h.bounded;
    owned =
        All-track _ it.id b.in_flight (rw (==_refl it.id) refl)
          (All-map (λ k. held b k ≡ true) _ b.in_flight (λ k hk. ground arith) h.owned);
  })
  Step-IsTidy b b' (starts it e lt g) h = rw g (record {
    bounded = lt;
    owned = All-map (λ k. held b k ≡ true) _ b.in_flight (λ k hk. ground arith) h.owned;
  })
  Step-IsTidy b b' (handles xs ys it e g) h = rw g (rephased limit b xs ys it handling _ _ e h)
  Step-IsTidy b b' (settles xs ys it o db e g) h =
      rw g (rephased limit b xs ys it (settling o) settled _ e h)
  Step-IsTidy b b' (leaves xs ys it e g) h = rw g (record {
    bounded = omega (arith, length-remove xs ys it settled, ap length e, h.bounded);
    owned =
        unfold untrack in
        All-filter (λ k. held (record b { running = xs ++ ys }) k ≡ true) (λ k. not (k == it.id))
          b.in_flight
          (All-map (λ k. held b k ≡ true) _ b.in_flight
            (λ k hk other. rw (← runs-remove k xs ys it settled (ground arith), ← e) hk) h.owned);
  })
  Step-IsTidy b b' (others t g) h = rw g (record { bounded = h.bounded; owned = h.owned })

  Steps-IsTidy :
      (b : Batch) {b' : Batch}
      → Steps cfg overflow handle limit b b'
      → IsTidy limit b
      → IsTidy limit b'
  Steps-IsTidy b here h = h
  Steps-IsTidy b {b'} (next {c} before e) h = Step-IsTidy c b' e (Steps-IsTidy b before h)

begin-IsTidy :
    (limit : ℕ) (its : List Item) (ids : List ℕ) (t : Table)
    → ids ≡ []
    → IsTidy limit (begin its ids t)
begin-IsTidy limit its ids t e = rw e (record { bounded = omega arith; owned = tt })

-- However the items of a batch and other transactions interleave, no more items run at once than
-- the stage's concurrency, and every id in flight is that of an item that waits or runs.
pub batch_bounded :
    (cfg : Config) (overflow : ℤ) (handle : Handler) (limit : ℕ) (its : List Item) (t : Table)
    (b : Batch)
    → Steps cfg overflow handle limit (begin its [] t) b
    → IsTidy limit b
batch_bounded cfg overflow handle limit its t b steps =
    Steps-IsTidy limit (begin its [] t) steps (begin-IsTidy limit its [] t refl)

nobody_held : (b : Batch) (ids : List ℕ) → IsFinished b → All (λ k. held b k ≡ true) ids → ids ≡ []
nobody_held b [] f h = refl
nobody_held b (k ∷ ids) f h = absurd (false≢true (rw (f.no_waiting, f.no_running) at h.0))

Runs-empty :
    (cfg : Config) (overflow : ℤ) (handle : Handler) (limit : ℕ) (state : State) {ids : List ℕ}
    {t : Table}
    → Runs cfg overflow handle limit state ids t
    → ids ≡ []
Runs-empty cfg overflow handle limit state (started t) = refl
Runs-empty cfg overflow handle limit state (meanwhile t' r) =
    Runs-empty cfg overflow handle limit state r
Runs-empty cfg overflow handle limit state (polled locked db r e) =
    Runs-empty cfg overflow handle limit state r
Runs-empty cfg overflow handle limit state (processed {ids} {t} locked db its b r e steps f) =
    let before = Runs-empty cfg overflow handle limit state r in
    let t' = (claim cfg locked db state t).0 in
    nobody_held b b.in_flight f
      (Steps-IsTidy limit (begin its ids t') steps (begin-IsTidy limit its ids t' before)).owned

-- The release on shutdown finds nothing to release: wherever `Run` can return, no id is in flight,
-- because each batch waits for all of its items and each item untracks itself. The deferred
-- releaseOutstanding therefore leaves the table as it is.
pub shutdown_releases_nothing :
    (cfg : Config) (overflow : ℤ) (handle : Handler) (limit : ℕ) (state : State) (up : ℕ → Bool)
    (ids : List ℕ) (t : Table)
    → Runs cfg overflow handle limit state ids t
    → (ids ≡ []) × (release_outstanding up ids t ≡ t)
unfolding release_outstanding
shutdown_releases_nothing cfg overflow handle limit state up ids t r =
    let empty = Runs-empty cfg overflow handle limit state r in (empty, rw empty)
