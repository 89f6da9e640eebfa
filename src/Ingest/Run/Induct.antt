-- ===== src/Ingest/Run/Induct.antt =====
-- Induction over a poll: what every posting keeps holds of all that the loops make.
use devsignal.Prelude.{
  ℕ, true, false, Bool, Option, none, some, List, [], ◌∷◌, length, inl, inr, Option-cases,
}
use devsignal.Prelude.Text.{Text}
use devsignal.Pipeline.Queue.{Db}
use devsignal.Ingest.Rows.{Posting}
use devsignal.Ingest.Store.{Store}
use devsignal.Ingest.Upsert.{Letters}
use devsignal.Ingest.Run.{
  Cursor, Fetched, fetched, not_modified, fetch_failed, Adapter, Dbs, Progress, no_result,
  take_postings, count_fetched, take_docs, Ran, fetch_error, parse_error, settle, after_docs,
  after_fetch, run_source,
}

module _ (loc : Letters) (source : ℕ) (adapter etag : Text) (postings : ℕ → Db) {D : Type 0}
    (parse : D → Option (List Posting)) where
  pub take_docs-induct {κ} :
      (P : Progress → Type κ)
      → ((ps : List Posting) (g : Progress)
          → P g
          → P (take_postings loc source adapter etag postings ps (count_fetched (length ps) g)))
      → (ds : List D) (g : Progress) → P g
      → P (take_docs loc source adapter etag postings parse ds g).0
  unfolding take_docs
  take_docs-induct P step [] g h = h
  take_docs-induct P step (d ∷ ds) g h = elim (Option-cases (parse d)) [
    | inl e ↦ rw (e, take_docs) h
    | inr (ps, e) ↦ rw (e, take_docs) (take_docs-induct P step ds _ (step ps g h))
  ]

abbrev pub start : Store → Progress
start st = record { store = st; result = no_result; seen = [] }

abbrev pub failed_parse : Cursor → Progress → Ran
failed_parse cur g = record {
  store = g.store;
  result = g.result;
  cursor = cur;
  error = some parse_error;
}

after_docs-induct {κ ι} :
    (P : Progress → Type κ) (Q : Ran → Type ι) (source : ℕ) (db : Dbs) (cur next : Cursor)
    → ((g : Progress) → P g → Q (settle source db next g))
    → ((g : Progress) → P g → Q (failed_parse cur g))
    → (x : Progress × Bool) → P x.0
    → Q (after_docs source db cur next x)
unfolding after_docs
after_docs-induct P Q source db cur next all some_failed (g, true) h = all g h
after_docs-induct P Q source db cur next all some_failed (g, false) h = some_failed g h

-- The ways in which a poll ends, with what the loops keep.
pub run_source-induct {κ ι} :
    {D : Type 0} (P : Progress → Type κ) (Q : Ran → Type ι) (loc : Letters) (source : ℕ)
    (a : Adapter D) (cur : Cursor) (db : Dbs) (st : Store)
    → ((etag : Text) (ps : List Posting) (g : Progress)
        → P g
        → P (take_postings loc source a.id etag db.postings ps (count_fetched (length ps) g)))
    → P (start st)
    → Q (record {
      store = st;
      result = record no_result { not_modified = true };
      cursor = cur;
      error = none;
    })
    → Q (record { store = st; result = no_result; cursor = cur; error = some fetch_error })
    → ((next : Cursor) (g : Progress) → P g → Q (settle source db next g))
    → ((g : Progress) → P g → Q (failed_parse cur g))
    → Q (run_source loc source a cur db st)
unfolding run_source after_fetch
run_source-induct {D = D} P Q loc source a cur db st step first unmodified failed all some_failed =
    go (a.fetch cur)
  where
    go : (f : Fetched D) → Q (after_fetch loc source a cur db st f)
    go not_modified = unmodified
    go fetch_failed = failed
    go (fetched ds next) =
        after_docs-induct P Q source db cur next (all next) some_failed
          (take_docs loc source a.id next.etag db.postings a.parse ds (start st))
          (take_docs-induct loc source a.id next.etag db.postings a.parse P (step next.etag) ds
            (start st) first)
