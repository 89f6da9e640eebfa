-- ===== src/Ingest/Run/Liveness.antt =====
-- What a poll infers about postings that it did not see.
use devsignal.Prelude.{
  ℕ, ◌+◌, ◌≤◌, ◌≡◌, ◌≢◌, ◌⊎◌, inl, inr, refl, Bool, Option, none, some, List, [], ◌∷◌, length,
  arith, Bool-cases, ◌||◌,
}
use devsignal.Prelude.Text.{Text, is_empty}
use devsignal.Prelude.Search.{update}
use devsignal.Prelude.Evolves.{
  Evolves, kept, Pointwise, Pointwise-map, Pointwise-map-map, Pointwise-refl, Evolves-trans,
  Evolves-then,
}
use devsignal.Pipeline.Queue.{Db}
use devsignal.Ingest.Rows.{Posting, Opportunity, bump, close, closes}
use devsignal.Ingest.Store.{Store, is_absent, bump_misses, close_missed}
use devsignal.Ingest.Upsert.{Letters, Outcome}
use devsignal.Ingest.Upsert.Live.{IsOpen, IsLive, Calm, Calm-IsHistory}
use devsignal.Ingest.Upsert.Evolution.{IsHistory, upsert-Evolves}
use devsignal.Ingest.Run.{
  Cursor, not_modified, fetch_failed, Adapter, Dbs, Progress, handled, after_upsert, count_fetched,
  take_posting, take_postings, settle, parse_error, after_fetch, run_source,
}
use devsignal.Ingest.Run.Induct.{run_source-induct}

-- At most one miss more, and closed only after a miss of an earlier poll.
abbrev pub MissedOnce : Opportunity → Opportunity → Type 0
MissedOnce o p =
    (p.row.id ≡ o.row.id)
    × (p.consecutive_misses ≤ o.consecutive_misses + 1)
    × (IsLive o → IsOpen p)

module _ {κ} {R : Opportunity → Opportunity → Type κ} {Q : Opportunity → Type κ}
    (history : IsHistory R Q) (loc : Letters) (source : ℕ) (adapter etag : Text) (postings : ℕ → Db)
    (st : Store) where
  abbrev Grown : Progress → Type κ
  Grown g = Evolves R Q st.opportunities g.store.opportunities

  after_upsert-store :
      (p : Posting) (g : Progress) (x : Store × Option Outcome)
      → Evolves R Q st.opportunities x.0.opportunities
      → Grown (after_upsert p g x)
  unfolding after_upsert
  after_upsert-store p g (t, none) h = h
  after_upsert-store p g (t, some out) h = h

  take_posting-Grown :
      (p : Posting) (g : Progress)
      → Grown g
      → Grown (take_posting loc source adapter etag postings p g)
  unfolding take_posting
  take_posting-Grown p g h = elim (Bool-cases (is_empty p.ats_job_id || is_empty p.title)) [
    | inl e ↦ rw e h
    | inr e ↦ rw e (
        after_upsert-store p g _ (
          Evolves-trans history.transitive history.keeps h (
            upsert-Evolves history loc source adapter p etag (postings (handled g.result))
              g.store)))
  ]

  pub take_postings-Grown :
      (ps : List Posting) (g : Progress)
      → Grown g
      → Grown (take_postings loc source adapter etag postings ps g)
  unfolding take_postings
  take_postings-Grown [] g h = h
  take_postings-Grown (p ∷ ps) g h = take_postings-Grown ps _ (take_posting-Grown p g h)

missed_one :
    (q : Opportunity → Bool) (now later : ℕ) (o : Opportunity)
    → MissedOnce o (update (closes 2) (close later) (update q (bump now) o))
unfolding closes close bump
missed_one q now later o = ground arith

missed_only :
    (q : Opportunity → Bool) (now : ℕ) (o : Opportunity) → MissedOnce o (update q (bump now) o)
unfolding bump
missed_only q now o = ground arith

settle-MissedOnce :
    (source : ℕ) (db : Dbs) (next : Cursor) (g : Progress)
    → Pointwise MissedOnce g.store.opportunities (settle source db next g).store.opportunities
unfolding settle bump_misses close_missed
settle-MissedOnce source db next g =
    let q = is_absent source g.seen g.store.source_rows in
    elim (Bool-cases db.misses.up) [
      | inl e ↦ elim (Bool-cases db.closing.up) [
        | inl f ↦
            rw (e, f)
              (Pointwise-map-map (update q (bump db.misses.now))
                (update (closes 2) (close db.closing.now)) g.store.opportunities
                (missed_one q db.misses.now db.closing.now))
        | inr f ↦
            rw (e, f)
              (Pointwise-map (update q (bump db.misses.now)) g.store.opportunities
                (missed_only q db.misses.now))
      ]
      | inr e ↦ rw e (Pointwise-refl g.store.opportunities (λ o. (refl, omega arith, λ h. h.0)))
    ]

-- A poll closes nothing by itself. Whatever the adapter and the database do, every opportunity stays
-- in its place with its id, with at most one miss more than before, and one that was open without a
-- miss is still open; every opportunity that the poll adds is open.
pub one_poll_closes_nothing :
    {D : Type 0} (loc : Letters) (source : ℕ) (a : Adapter D) (cur : Cursor) (db : Dbs) (st : Store)
    → Evolves MissedOnce IsOpen st.opportunities
        (run_source loc source a cur db st).store.opportunities
unfolding count_fetched
one_poll_closes_nothing loc source a cur db st =
    run_source-induct (λ g. Evolves Calm IsLive st.opportunities g.store.opportunities)
      (λ x. Evolves MissedOnce IsOpen st.opportunities x.store.opportunities) loc source a cur db st
      (λ etag ps g h.
        take_postings-Grown Calm-IsHistory loc source a.id etag db.postings st ps
          (count_fetched (length ps) g) h)
      (kept (Pointwise-refl st.opportunities Calm-IsHistory.reflexive)) same same
      (λ next g h.
        Evolves-then calm_then_missed (λ y z l m. m.2 l) h (settle-MissedOnce source db next g))
      (λ g h.
        Evolves-then calm_missed (λ y z l e. rw (← e) l.0) h
          (Pointwise-refl g.store.opportunities (λ o. refl)))
  where
    same : Evolves MissedOnce IsOpen st.opportunities st.opportunities
    same = kept (Pointwise-refl st.opportunities (λ o. (refl, omega arith, λ h. h.0)))

    calm_then_missed : (o p q : Opportunity) → Calm o p → MissedOnce p q → MissedOnce o q
    calm_then_missed o p q c m = ground arith

    calm_missed : (o p q : Opportunity) → Calm o p → p ≡ q → MissedOnce o q
    calm_missed o p q c e = rw (← e) (c.0, omega (arith, c.1), λ h. c.2 h.0)

settled :
    (source : ℕ) (db : Dbs) (next : Cursor) (g : Progress)
    → (settle source db next g).error ≢ some parse_error
unfolding settle
settled source db next g = ground arith

-- A poll that fails infers nothing. If the source answers that nothing changed, or does not answer,
-- the tables are as they were; if a document does not parse, every opportunity stays in its place
-- with no more misses than before, those that were open are open, and those added are open without
-- a miss.
pub quiet_polls :
    {D : Type 0} (loc : Letters) (source : ℕ) (a : Adapter D) (cur : Cursor) (db : Dbs) (st : Store)
    → let x = run_source loc source a cur db st in
      ((a.fetch cur ≡ not_modified) ⊎ (a.fetch cur ≡ fetch_failed) → x.store ≡ st)
      × (x.error ≡ some parse_error → Evolves Calm IsLive st.opportunities x.store.opportunities)
unfolding run_source after_fetch count_fetched
quiet_polls loc source a cur db st = (
  (λ h. elim h [ inl e ↦ rw e refl | inr e ↦ rw e refl ]),
  run_source-induct (λ g. Evolves Calm IsLive st.opportunities g.store.opportunities)
      (λ x. x.error ≡ some parse_error → Evolves Calm IsLive st.opportunities x.store.opportunities)
      loc source a cur db st
      (λ etag ps g h.
        take_postings-Grown Calm-IsHistory loc source a.id etag db.postings st ps
          (count_fetched (length ps) g) h)
      same (λ e. same) (λ e. same) (λ next g h e. absurd (settled source db next g e)) (λ g h e. h),
)
  where
    same : Evolves Calm IsLive st.opportunities st.opportunities
    same = kept (Pointwise-refl st.opportunities Calm-IsHistory.reflexive)
