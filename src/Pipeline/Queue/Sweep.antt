-- ===== src/Pipeline/Queue/Sweep.antt =====
-- `Sweep`: which rows it takes, and what it does to them.
use devsignal.Prelude.{
  ℕ, suc, ◌≤◌, ◌≡◌, refl, Bool, true, false≢true, ◌||◌, none, some, List, [], ◌∷◌, map, length,
  length-take-le, filter, All, All-take, take_all, All-filter_self, arith, ◌==◌, ap, ◌∙◌, inl, inr,
  Bool-cases,
}
use devsignal.Pipeline.Row.{Row, elem, claimable, stranded, requeue_row}
use devsignal.Pipeline.Row.Keys.{id-requeue_row}
use devsignal.Pipeline.Table.{
  Table, find_row, sweep_stranded, by_swept, insert_row, order_by, affected,
}
use devsignal.Pipeline.Table.Lookup.{find_row-map}
use devsignal.Pipeline.Table.Pick.{All-order_by}
use devsignal.Pipeline.Queue.{Config, pg_interval, requeue, sweep}

-- The ids that the select of a sweep reads.
abbrev pub swept_ids : Config → ℕ → Table → List ℕ
swept_ids cfg now t =
    map (λ r. r.id) (sweep_stranded now (pg_interval cfg.sweep_after) cfg.batch_size t)

-- A requeued row.
abbrev pub requeued_at : ℕ → Row → Row
requeued_at now r = record r { next_attempt_at = now; lease_until = none; swept_at = some now }

find_row-requeue :
    (ids : List ℕ) (now : ℕ) (t : Table) (r : Row)
    → find_row r.id t ≡ some r
    → elem r.id ids ≡ true
    → find_row r.id (requeue ids (record { now = now; up = true }) t).0 ≡ some (requeued_at now r)
unfolding requeue requeue_row
find_row-requeue [] now t r h e = absurd (false≢true e)
find_row-requeue (k ∷ ids) now t r h e =
    rw (find_row-map (requeue_row (k ∷ ids) now) r.id t (λ s. id-requeue_row s (k ∷ ids) now), h)
      (ap some (ground arith))

-- What a sweep's update does to a row that its select read, whatever was committed in between:
-- its lease is gone, also one that another worker took meanwhile, and a row that is not merged away
-- can be claimed in its state from then on. Here r is the row as the update finds it.
pub sweep_takes_lease :
    (cfg : Config) (now now' later : ℕ) (others : Table → Table) (t : Table) (r : Row)
    → find_row r.id (others t) ≡ some r
    → elem r.id (swept_ids cfg now t) ≡ true
    → r.merged_into ≡ none
    → now' ≤ later
    → let after =
        (sweep cfg
          (record { now = now; up = true })
          others
          (record { now = now'; up = true })
          t).0 in
      (r' : Row) × (find_row r.id after ≡ some r')
      × (r'.lease_until ≡ none)
      × (claimable later r.state r' ≡ true)
unfolding sweep claimable
sweep_takes_lease cfg now now' later others t r h e open_row le = (
  requeued_at now' r,
  find_row-requeue (swept_ids cfg now t) now' (others t) r h e,
  refl,
  ground arith,
)

module _ (before : Row → Row → Bool) where
  elem-insert_row :
      (k : ℕ) (r : Row) (t : Table)
      → elem k (map (λ s. s.id) (insert_row before r t)) ≡ (k == r.id || elem k (map (λ s. s.id) t))
  unfolding insert_row
  elem-insert_row k r [] = refl
  elem-insert_row k r (s ∷ t) = ground (arith, elem-insert_row k r t)

  elem-order_by :
      (k : ℕ) (t : Table)
      → elem k (map (λ s. s.id) (order_by before t)) ≡ elem k (map (λ s. s.id) t)
  unfolding order_by
  elem-order_by k [] = refl
  elem-order_by k (r ∷ t) =
      elem-insert_row k r (order_by before t) ∙ ap (λ b. k == r.id || b) (elem-order_by k t)

  length-insert_row : (r : Row) (t : Table) → length (insert_row before r t) ≡ suc (length t)
  unfolding insert_row
  length-insert_row r [] = refl
  length-insert_row r (s ∷ t) = ground (arith, length-insert_row r t)

  length-order_by : (t : Table) → length (order_by before t) ≡ length t
  unfolding order_by
  length-order_by [] = refl
  length-order_by (r ∷ t) =
      omega (arith, length-insert_row r (order_by before t), length-order_by t)

elem-filter :
    (k : ℕ) (p : Row → Bool) (t : Table) (r : Row)
    → find_row k t ≡ some r
    → p r ≡ true
    → elem k (map (λ s. s.id) (filter p t)) ≡ true
unfolding find_row
elem-filter k p [] r h e = cc
elem-filter k p (s ∷ t) r h e = elim (Bool-cases (s.id == k)) [
  | inl same ↦ ground (arith)
  | inr ne ↦
      let found : find_row k t ≡ some r = rw ne at h in ground (arith, elem-filter k p t r found e)
]

-- The select of a sweep reads at most the batch size, and only rows that are stranded: not
-- terminal, not merged away, under no live lease, and in their state for longer than the threshold.
-- Where no more rows than that are stranded, it passes over none of them.
pub sweep_complete :
    (cfg : Config) (now : ℕ) (t : Table)
    → let threshold = pg_interval cfg.sweep_after in
      let rows = sweep_stranded now threshold cfg.batch_size t in
      (length rows ≤ cfg.batch_size)
      × All (λ s. stranded now threshold s ≡ true) rows
      × (affected (stranded now threshold) t ≤ cfg.batch_size
          → (id : ℕ) (r : Row) → find_row id t ≡ some r
          → stranded now threshold r ≡ true
          → elem id (map (λ s. s.id) rows) ≡ true)
unfolding sweep_stranded
sweep_complete cfg now t = (
  length-take-le cfg.batch_size (order_by by_swept old),
  All-take IsOld cfg.batch_size (order_by by_swept old)
      (All-order_by IsOld by_swept old (All-filter_self (stranded now threshold) t)),
  λ few id r h e.
      rw
        (take_all cfg.batch_size (order_by by_swept old)
          (omega (arith, length-order_by by_swept old)))
        (elem-order_by by_swept id old ∙ elem-filter id (stranded now threshold) t r h e),
)
  where
    threshold : ℕ
    threshold = pg_interval cfg.sweep_after

    old : Table
    old = filter (stranded now threshold) t

    IsOld : Row → Type 0
    IsOld s = stranded now threshold s ≡ true
