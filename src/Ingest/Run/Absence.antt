-- ===== src/Ingest/Run/Absence.antt =====
-- A posting that a poll fetched but could not store.
use devsignal.Prelude.{
  ℕ, ◌≡◌, ◌≢◌, refl, sym, ap, ◌∙◌, All, true, false, Bool, Option, none, List, [], ◌∷◌, length, inl,
  inr, Bool-cases, Option-cases, ◌||◌,
}
use devsignal.Prelude.Text.{Text, is_empty}
use devsignal.Pipeline.Queue.{Db}
use devsignal.Ingest.Rows.{Posting}
use devsignal.Ingest.Store.{Store, bump_misses}
use devsignal.Ingest.Upsert.{Letters, upsert}
use devsignal.Ingest.Run.{
  Cursor, fetched, Adapter, Dbs, Progress, handled, after_upsert, count_fetched, take_posting,
  take_postings, take_docs, settle, after_docs, after_fetch, run_source,
}
use devsignal.Ingest.Run.Induct.{start, take_docs-induct}

-- Nothing is stored and nothing counts as seen.
abbrev Untouched : Store → Progress → Type 0
Untouched st g = (g.store ≡ st) × (g.seen ≡ [])

module _ (loc : Letters) (source : ℕ) (adapter etag : Text) (postings : ℕ → Db)
    (down : (k : ℕ) → (postings k).up ≡ false) (st : Store) where
  take_posting-Untouched :
      (p : Posting) (g : Progress)
      → Untouched st g
      → Untouched st (take_posting loc source adapter etag postings p g)
  unfolding take_posting upsert after_upsert
  take_posting-Untouched p g h = elim (Bool-cases (is_empty p.ats_job_id || is_empty p.title)) [
    | inl e ↦ rw e h
    | inr e ↦ rw (e, down (handled g.result)) h
  ]

  take_postings-Untouched :
      (ps : List Posting) (g : Progress)
      → Untouched st g
      → Untouched st (take_postings loc source adapter etag postings ps g)
  unfolding take_postings
  take_postings-Untouched [] g h = h
  take_postings-Untouched (p ∷ ps) g h = take_postings-Untouched ps _ (take_posting-Untouched p g h)

  take_docs-Untouched :
      {D : Type 0} (parse : D → Option (List Posting)) (ds : List D) (g : Progress)
      → Untouched st g
      → Untouched st (take_docs loc source adapter etag postings parse ds g).0
  unfolding count_fetched
  take_docs-Untouched parse ds g h =
      take_docs-induct loc source adapter etag postings parse (λ g. Untouched st g)
        (λ ps g h. take_postings-Untouched ps (count_fetched (length ps) g) h) ds g h

  take_docs_parsed :
      {D : Type 0} (parse : D → Option (List Posting)) (ds : List D) (g : Progress)
      → All (λ d. parse d ≢ none) ds
      → (take_docs loc source adapter etag postings parse ds g).1 ≡ true
  unfolding take_docs
  take_docs_parsed parse [] g h = refl
  take_docs_parsed parse (d ∷ ds) g h = elim (Option-cases (parse d)) [
    | inl e ↦ absurd (h.0 e)
    | inr (ps, e) ↦ rw (e, take_docs) (take_docs_parsed parse ds _ h.1)
  ]

settle_alike :
    (source : ℕ) (db : Dbs) (next : Cursor) (g h : Progress)
    → g.store ≡ h.store
    → g.seen ≡ h.seen
    → (settle source db next g).store ≡ (settle source db next h).store
unfolding settle bump_misses
settle_alike source db next g h e f = elim (Bool-cases db.misses.up) [
  | inl u ↦ elim (Bool-cases db.closing.up) [
    | inl c ↦ rw (u, c, e, f) refl
    | inr c ↦ rw (u, c, e, f) refl
  ]
  | inr u ↦ rw u e
]

pub after_docs_store :
    (source : ℕ) (db : Dbs) (cur next : Cursor) (x : Progress × Bool)
    → x.1 ≡ true
    → after_docs source db cur next x ≡ settle source db next x.0
unfolding after_docs
after_docs_store source db cur next (g, b) e = rw e refl

-- A posting that the poll saw but could not store counts as one that the source no longer has. If
-- every document of a poll parses and the database stores none of its postings, then the poll leaves
-- the tables as a poll of the same source does that returns no posting at all: the same misses and
-- the same closures.
pub unstored_is_absent :
    {D : Type 0} (loc : Letters) (source : ℕ) (a : Adapter D) (cur next : Cursor) (docs : List D)
    (db : Dbs) (st : Store)
    → a.fetch cur ≡ fetched docs next
    → All (λ d. a.parse d ≢ none) docs
    → ((k : ℕ) → (db.postings k).up ≡ false)
    → (run_source loc source a cur db st).store
      ≡ (run_source loc source (record a { fetch = λ c. fetched [] next }) cur db st).store
unfolding run_source after_fetch
unstored_is_absent loc source a cur next docs db st e parsed down =
    let x = take_docs loc source a.id next.etag db.postings a.parse docs (start st) in
    let y = take_docs loc source a.id next.etag db.postings a.parse [] (start st) in
    let left =
      take_docs-Untouched loc source a.id next.etag db.postings down st a.parse docs (start st)
        (refl, refl) in
    let right =
      take_docs-Untouched loc source a.id next.etag db.postings down st a.parse [] (start st)
        (refl, refl) in
    rw (e) (
      ap (λ r. r.store)
        (after_docs_store source db cur next x (
          take_docs_parsed loc source a.id next.etag db.postings down st a.parse docs (start st)
            parsed))
      ∙ settle_alike source db next x.0 y.0 (left.0 ∙ sym right.0) (left.1 ∙ sym right.1)
      ∙ sym (
          ap (λ r. r.store)
            (after_docs_store source db cur next y (
              take_docs_parsed loc source a.id next.etag db.postings down st a.parse [] (start st)
                tt))))
