-- ===== src/Ingest/Run/Counters.antt =====
-- The counters of a poll.
use devsignal.Prelude.{
  ℕ, ◌+◌, ◌≤◌, ◌≡◌, inl, inr, refl, Option, none, some, List, [], ◌∷◌, length, arith, Bool-cases,
  ◌||◌,
}
use devsignal.Prelude.Text.{Text, is_empty}
use devsignal.Pipeline.Queue.{Db}
use devsignal.Ingest.Rows.{Posting}
use devsignal.Ingest.Store.{Store}
use devsignal.Ingest.Upsert.{Letters, Outcome, unchanged, created, updated}
use devsignal.Ingest.Run.Induct.{run_source-induct}
use devsignal.Ingest.Run.{
  Cursor, Adapter, Result, Dbs, Progress, handled, after_upsert, take_posting, take_postings,
  count_fetched, settle, run_source,
}

abbrev pub Filled : Result → Type 0
Filled r =
    (r.with_company ≤ handled r)
    × (r.with_location ≤ handled r)
    × (r.with_apply_url ≤ handled r)
    × (r.with_language ≤ handled r)

-- n more postings were handled.
abbrev Handles : ℕ → Result → Result → Type 0
Handles n r s = (s.fetched ≡ r.fetched) × (handled s ≡ handled r + n) × (Filled r → Filled s)

after_upsert-Handles :
    (p : Posting) (g : Progress) (x : Store × Option Outcome)
    → Handles 1 g.result (after_upsert p g x).result
unfolding after_upsert handled
after_upsert-Handles p g (st, none) = ground arith
after_upsert-Handles p g (st, some unchanged) = ground arith
after_upsert-Handles p g (st, some created) = ground arith
after_upsert-Handles p g (st, some updated) = ground arith

module _ (loc : Letters) (source : ℕ) (adapter etag : Text) (postings : ℕ → Db) where
  take_posting-Handles :
      (p : Posting) (g : Progress)
      → Handles 1 g.result (take_posting loc source adapter etag postings p g).result
  unfolding take_posting handled
  take_posting-Handles p g = elim (Bool-cases (is_empty p.ats_job_id || is_empty p.title)) [
    | inl e ↦ rw e (ground arith)
    | inr e ↦ rw e (after_upsert-Handles p g _)
  ]

  take_postings-Handles :
      (ps : List Posting) (g : Progress)
      → Handles (length ps) g.result (take_postings loc source adapter etag postings ps g).result
  unfolding take_postings
  take_postings-Handles [] g = (refl, omega arith, λ f. f)
  take_postings-Handles (p ∷ ps) g =
      let one = take_posting-Handles p g in
      let rest = take_postings-Handles ps (take_posting loc source adapter etag postings p g) in
      (omega (arith, one.0, rest.0), omega (arith, one.1, rest.1), λ f. rest.2 (one.2 f))

-- Every fetched posting is handled.
abbrev Settled : Result → Type 0
Settled r = (r.fetched ≡ handled r) × Filled r

settle-Settled :
    (source : ℕ) (db : Dbs) (next : Cursor) (g : Progress)
    → Settled g.result
    → Settled (settle source db next g).result
unfolding settle handled
settle-Settled source db next g h = ground arith

Settled-totals :
    (r : Result)
    → Settled r
    → (r.fetched ≡ r.created + r.updated + r.unchanged + r.skipped)
      × (r.with_company ≤ r.fetched)
      × (r.with_location ≤ r.fetched)
      × (r.with_apply_url ≤ r.fetched)
      × (r.with_language ≤ r.fetched)
unfolding handled
Settled-totals r h = omega arith

-- Every poll accounts for every posting that it fetched: whatever it ends in, the number of postings
-- fetched is the sum of those created, updated, unchanged and skipped, and none of the four counts of
-- filled fields exceeds it.
pub counters_add_up :
    {D : Type 0} (loc : Letters) (source : ℕ) (a : Adapter D) (cur : Cursor) (db : Dbs) (st : Store)
    → let r = (run_source loc source a cur db st).result in
      (r.fetched ≡ r.created + r.updated + r.unchanged + r.skipped)
      × (r.with_company ≤ r.fetched)
      × (r.with_location ≤ r.fetched)
      × (r.with_apply_url ≤ r.fetched)
      × (r.with_language ≤ r.fetched)
unfolding handled take_postings count_fetched
counters_add_up loc source a cur db st = Settled-totals (run_source loc source a cur db st).result (
    run_source-induct (λ g. Settled g.result) (λ x. Settled x.result) loc source a cur db st
      (λ etag ps g h.
        let g' = count_fetched (length ps) g in
        let all = take_postings-Handles loc source a.id etag db.postings ps g' in
        (omega (arith, all.0, all.1, h), all.2 h.1))
      (omega arith) (omega arith) (omega arith) (λ next g h. settle-Settled source db next g h)
      (λ g h. h))
