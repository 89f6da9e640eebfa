-- ===== src/Ingest/Run/Seen.antt =====
-- What a successful poll does for a posting that it returns.
use devsignal.Prelude.{
  ℕ, ◌≡◌, ◌≢◌, refl, sym, ◌∙◌, true, false, false≢true, not, Bool, Option, none, some, List, [],
  ◌∷◌, ◌++◌, inl, inr, map, Bool-cases, Option-cases, ◌||◌, ◌&&◌, arith, length, All,
}
use mathlib.Core.Path.{subst}
use devsignal.Prelude.Text.{Text, text_eq, text_eq_iff, text_eq_refl, has_word, is_empty}
use devsignal.Prelude.Search.{update, any, any-at, find-selects}
use devsignal.Pipeline.Queue.{Db}
use devsignal.Ingest.Rows.{Posting, Opportunity, seen_by, bump, close, closes}
use devsignal.Ingest.Store.{
  Store, has_id, is_source_row, find_source_row, is_absent, bump_misses, close_missed,
}
use devsignal.Ingest.Upsert.{Letters, Outcome, upsert}
use devsignal.Ingest.Upsert.Evolution.{upsert-Evolves}
use devsignal.Ingest.Upsert.Tracking.{Tracks, upsert-Tracks}
use devsignal.Ingest.Upsert.Live.{
  IsLive, Calm-IsHistory, LiveAt, Evolves-LiveAt, Evolves-any, IsDone, upsert-Live,
}
use devsignal.Ingest.Run.{
  Cursor, fetched, Adapter, Dbs, Progress, handled, after_upsert, count_fetched, take_posting,
  take_postings, take_docs, settle, after_fetch, run_source,
}
use devsignal.Ingest.Run.Induct.{start}
use devsignal.Ingest.Run.Absence.{after_docs_store}

-- A posting under this id that the loop does not skip.
abbrev pub offers : Text → Posting → Bool
offers job p = text_eq p.source_job_id job && not (is_empty p.ats_job_id || is_empty p.title)

abbrev pub offered : Text → Option (List Posting) → Bool
offered job none = false
offered job (some ps) = any (offers job) ps

has_word-append :
    (w : Text) (vs ws : List Text) → has_word w vs ≡ true → has_word w (vs ++ ws) ≡ true
unfolding has_word
has_word-append w [] ws h = cc
has_word-append w (v ∷ vs) ws h = ground (arith, has_word-append w vs ws)

has_word_last : (w v : Text) (vs : List Text) → w ≡ v → has_word w (vs ++ v ∷ []) ≡ true
unfolding has_word
has_word_last w v [] e = rw (e, text_eq_refl v) refl
has_word_last w v (u ∷ vs) e = ground (arith, has_word_last w v vs e)

module _ (loc : Letters) (source : ℕ) (adapter etag : Text) (postings : ℕ → Db)
    (up : (k : ℕ) → (postings k).up ≡ true) (job : Text) (id : ℕ) where
  -- The source tracks the posting; once it was offered, it is seen and live.
  abbrev Held : Bool → Progress → Type 0
  Held b g =
      Tracks source job id g.store
      × (any (has_id id) g.store.opportunities ≡ true)
      × (b ≡ true → (has_word job g.seen ≡ true) × LiveAt id g.store.opportunities)

  after_any :
      (p : Posting) (g : Progress) (b : Bool) (x : Store × Option Outcome)
      → Tracks source job id x.0
      → any (has_id id) x.0.opportunities ≡ true
      → (LiveAt id g.store.opportunities → LiveAt id x.0.opportunities)
      → Held b g
      → Held b (after_upsert p g x)
  unfolding after_upsert
  after_any p g b (st, none) t a l h = (t, a, λ e. ((h.2 e).0, l (h.2 e).1))
  after_any p g b (st, some out) t a l h =
      (t, a, λ e. (has_word-append job g.seen (p.source_job_id ∷ []) (h.2 e).0, l (h.2 e).1))

  after_done :
      (p : Posting) (g : Progress) (b : Bool) (x : Store × Option Outcome)
      → job ≡ p.source_job_id
      → Tracks source job id x.0
      → any (has_id id) x.0.opportunities ≡ true
      → IsDone id x
      → Held b (after_upsert p g x)
  unfolding after_upsert
  after_done p g b (st, none) same t a d = absurd d
  after_done p g b (st, some out) same t a d =
      (t, a, λ e. (has_word_last job p.source_job_id g.seen same, d))

  Held-weaken : (b c : Bool) (g : Progress) → (c ≡ true → b ≡ true) → Held b g → Held c g
  Held-weaken b c g f h = (h.0, h.1, λ e. h.2 (f e))

  known-IsDone :
      (p : Posting) (k : ℕ) (st : Store)
      → job ≡ p.source_job_id
      → Tracks source job id st
      → any (has_id id) st.opportunities ≡ true
      → IsDone id (upsert loc source adapter p etag (postings k) st)
  known-IsDone p k st same (s, found, points) a =
      let x = upsert loc source adapter p etag (postings k) st in
      let here : find_source_row source p.source_job_id st ≡ some s = rw (← same) found in
      let exists : any (has_id s.opportunity_id) st.opportunities ≡ true = rw points a in
      subst (λ j. IsDone j x) points
        (upsert-Live loc source adapter p etag (postings k) st s (up k) here exists)

  take_posting-Held :
      (p : Posting) (g : Progress) (b : Bool)
      → Held b g
      → Held (b || offers job p) (take_posting loc source adapter etag postings p g)
  unfolding take_posting
  take_posting-Held p g b h = elim (Bool-cases (is_empty p.ats_job_id || is_empty p.title)) [
    | inl e ↦ rw e (h.0, h.1, λ k. h.2 (ground arith))
    | inr e ↦
        let db = postings (handled g.result) in
        let x = upsert loc source adapter p etag db g.store in
        let grows = upsert-Evolves Calm-IsHistory loc source adapter p etag db g.store in
        let t = upsert-Tracks source job id loc source adapter p etag db g.store h.0 in
        let a = Evolves-any id grows h.1 in
        elim (Bool-cases (text_eq p.source_job_id job)) [
          | inl f ↦
              let same = sym ((text_eq_iff p.source_job_id job).0 f) in
              rw e (
                after_done p g (b || text_eq p.source_job_id job && true) x same t a
                  (known-IsDone p (handled g.result) g.store same h.0 h.1))
          | inr f ↦
              rw (e, f)
                (Held-weaken b (b || false) (after_upsert p g x) (λ k. ground arith)
                  (after_any p g b x t a (Evolves-LiveAt id grows) h))
        ]
  ]

  take_postings-Held :
      (ps : List Posting) (g : Progress) (b : Bool)
      → Held b g
      → Held (b || any (offers job) ps) (take_postings loc source adapter etag postings ps g)
  unfolding take_postings
  take_postings-Held [] g b h = Held-weaken b (b || false) g (λ k. ground arith) h
  take_postings-Held (p ∷ ps) g b h =
      let g' = take_posting loc source adapter etag postings p g in
      Held-weaken ((b || offers job p) || any (offers job) ps)
        (b || (offers job p || any (offers job) ps))
        (take_postings loc source adapter etag postings ps g') (λ k. ground arith)
        (take_postings-Held ps g' (b || offers job p) (take_posting-Held p g b h))

  take_docs-Held :
      {D : Type 0} (parse : D → Option (List Posting)) (ds : List D) (g : Progress) (b : Bool)
      → All (λ d. parse d ≢ none) ds
      → Held b g
      → (take_docs loc source adapter etag postings parse ds g).1 ≡ true
        × Held
            (b || any (λ d. offered job (parse d)) ds)
            (take_docs loc source adapter etag postings parse ds g).0
  unfolding take_docs count_fetched
  take_docs-Held parse [] g b n h = (refl, Held-weaken b (b || false) g (λ k. ground arith) h)
  take_docs-Held parse (d ∷ ds) g b n h = elim (Option-cases (parse d)) [
    | inl e ↦ absurd (n.0 e)
    | inr (ps, e) ↦
        rw (e, take_docs)
          (let g' =
              take_postings loc source adapter etag postings ps (count_fetched (length ps) g) in
            let now = take_postings-Held ps (count_fetched (length ps) g) b h in
            let (parsed, later) = take_docs-Held parse ds g' (b || any (offers job) ps) n.1 now in
            (
              parsed,
              Held-weaken ((b || any (offers job) ps) || any (λ d. offered job (parse d)) ds)
                  (b || (any (offers job) ps || any (λ d. offered job (parse d)) ds))
                  (take_docs loc source adapter etag postings parse ds g').0 (λ k. ground arith)
                  later,
            ))
  ]

-- An update of no live row of an opportunity leaves it live.
update-LiveAt :
    (id : ℕ) (q : Opportunity → Bool) (f : Opportunity → Opportunity) (os : List Opportunity)
    → ((o : Opportunity) → (f o).row.id ≡ o.row.id)
    → ((o : Opportunity) → o.row.id ≡ id → IsLive o → q o ≡ false)
    → LiveAt id os
    → LiveAt id (map (update q f) os)
update-LiveAt id q f [] keeps off l = tt
update-LiveAt id q f (o ∷ os) keeps off l = (one, update-LiveAt id q f os keeps off l.1)
  where
    one : (update q f o).row.id ≡ id → IsLive (update q f o)
    one = elim (Bool-cases (q o)) [
      | inl e ↦ rw e (λ same.
          let here = sym (keeps o) ∙ same in absurd (false≢true (sym (off o here (l.0 here)) ∙ e)))
      | inr e ↦ rw e l.0
    ]

seen-not-absent :
    (source : ℕ) (job : Text) (id : ℕ) (seen : List Text) (st : Store) (o : Opportunity)
    → Tracks source job id st
    → has_word job seen ≡ true
    → o.row.id ≡ id
    → is_absent source seen st.source_rows o ≡ false
unfolding find_source_row is_absent seen_by
seen-not-absent source job id seen st o (s, found, points) h e =
    let row = find-selects (is_source_row source job) st.source_rows s found in
    let this : s.source_job_id ≡ job = (text_eq_iff s.source_job_id job).0 (ground arith) in
    let word : has_word s.source_job_id seen ≡ true = rw this h in
    let hit : seen_by source seen o.row.id s ≡ true = ground arith in
    rw (any-at (is_source_row source job) (seen_by source seen o.row.id) st.source_rows s hit found)
      (ground arith)

closes_live : (o : Opportunity) → IsLive o → closes 2 o ≡ false
unfolding closes
closes_live o h = ground arith

settle-LiveAt :
    (source : ℕ) (job : Text) (id : ℕ) (db : Dbs) (next : Cursor) (g : Progress)
    → Tracks source job id g.store
    → has_word job g.seen ≡ true
    → LiveAt id g.store.opportunities
    → LiveAt id (settle source db next g).store.opportunities
unfolding settle bump_misses close_missed bump close
settle-LiveAt source job id db next g t h l =
    let q = is_absent source g.seen g.store.source_rows in
    let bumped =
      update-LiveAt id q (bump db.misses.now) g.store.opportunities (λ o. refl)
        (λ o e _. seen-not-absent source job id g.seen g.store o t h e) l in
    elim (Bool-cases db.misses.up) [
      | inl e ↦ elim (Bool-cases db.closing.up) [
        | inl f ↦
            rw (e, f)
              (update-LiveAt id (closes 2) (close db.closing.now) _ (λ o. refl)
                (λ o _ live. closes_live o live) bumped)
        | inr f ↦ rw (e, f) bumped
      ]
      | inr e ↦ rw e l
    ]

-- A posting that a source knows and still returns stays open. If a poll fetches documents that all
-- parse and the database stores its postings, then for every posting among them that the loop does
-- not skip and that the source already tracked as an existing opportunity, that opportunity is open
-- without a miss after the poll, however it stood before and whether or not the database then runs
-- the two statements on absence.
pub returned_stays_open :
    {D : Type 0} (loc : Letters) (source : ℕ) (a : Adapter D) (cur next : Cursor) (docs : List D)
    (db : Dbs) (st : Store) (job : Text) (id : ℕ)
    → a.fetch cur ≡ fetched docs next
    → All (λ d. a.parse d ≢ none) docs
    → ((k : ℕ) → (db.postings k).up ≡ true)
    → any (λ d. offered job (a.parse d)) docs ≡ true
    → Tracks source job id st
    → any (has_id id) st.opportunities ≡ true
    → LiveAt id (run_source loc source a cur db st).store.opportunities
unfolding run_source after_fetch
returned_stays_open loc source a cur next docs db st job id e parsed up offer known exists =
    let x = take_docs loc source a.id next.etag db.postings a.parse docs (start st) in
    let (all, held) =
      take_docs-Held loc source a.id next.etag db.postings up job id a.parse docs (start st) false
        parsed (known, exists, λ no. absurd (false≢true no)) in
    let (seen, live) = held.2 offer in
    rw (e, after_docs_store source db cur next x all)
      (settle-LiveAt source job id db next x.0 held.0 seen live)
