-- ===== src/Ingest/Upsert/Tracking.antt =====
-- The source row of a posting keeps its opportunity.
use devsignal.Prelude.{
  ℕ, ◌≡◌, refl, sym, ap, ◌∙◌, false, false≢true, Option, none, some, inl, inr, Bool-cases,
  Option-cases, ◌&&◌, ◌==◌, bytes, arith, length, filter,
}
use devsignal.Prelude.Text.{Text, text_eq, text_eq_iff}
use devsignal.Prelude.Search.{find, update, any, find-map, any-found, on_found}
use devsignal.Pipeline.Queue.{Db}
use devsignal.Ingest.Rows.{Posting, SourceRow, nz, touch}
use devsignal.Ingest.Store.{
  Store, has_id, is_source_row, is_taken, LinkParams, new_source_row, insert_source_row,
  find_source_row, find_canonical_by_ats, touch_source_row, insert_opportunity,
  mark_opportunity_seen, update_opportunity,
}
use devsignal.Ingest.Store.Frame.{insert_source_row-some, upsert_company_keeps}
use devsignal.Ingest.Upsert.{
  Letters, Outcome, resolve_company, company_domain, name_or, then_try, touched, seen_before,
  apply_update, require_rows, link_or_create, first_sighting, on_source_row, committed, upsert,
  link_params, insert_params, updated, unchanged, created,
}

module _ (source : ℕ) (job : Text) (id : ℕ) where
  -- The source knows the posting, as this opportunity.
  abbrev pub Tracks : Store → Type 0
  Tracks st = (s : SourceRow) × (find_source_row source job st ≡ some s) × (s.opportunity_id ≡ id)

  abbrev TracksAfter : Option (Store × Outcome) → Type 0
  TracksAfter none = Unit
  TracksAfter (some (st, out)) = Tracks st

  Tracks-same : (st st' : Store) → st'.source_rows ≡ st.source_rows → Tracks st → Tracks st'
  unfolding find_source_row
  Tracks-same st st' e (s, found, same) = (s, rw e found, same)

  touch_keeps :
      (k : ℕ) (h : Text) (etag : Option Text) (now : ℕ) (s : SourceRow)
      → is_source_row source job (update (λ r. r.id == k) (touch h etag now) s)
        ≡ is_source_row source job s
  unfolding touch
  touch_keeps k h etag now s = elim (Bool-cases (s.id == k)) [
    | inl e ↦ rw e refl
    | inr e ↦ rw e refl
  ]

  touch_points :
      (k : ℕ) (h : Text) (etag : Option Text) (now : ℕ) (s : SourceRow)
      → (update (λ r. r.id == k) (touch h etag now) s).opportunity_id ≡ s.opportunity_id
  unfolding touch
  touch_points k h etag now s = elim (Bool-cases (s.id == k)) [
    | inl e ↦ rw e refl
    | inr e ↦ rw e refl
  ]

  Tracks-touch :
      (k : ℕ) (h : Text) (etag : Option Text) (now : ℕ) (st : Store)
      → Tracks st
      → Tracks (touch_source_row k h etag now st)
  unfolding find_source_row touch_source_row
  Tracks-touch k h etag now st (s, found, same) =
      let f = update (λ r. r.id == k) (touch h etag now) in
      (
        f s,
        find-map (is_source_row source job) f st.source_rows (touch_keeps k h etag now)
            ∙ ap (on_found f) found,
        touch_points k h etag now s ∙ same,
      )

  other_job :
      (p : LinkParams) (k now : ℕ) (st : Store) (s : SourceRow)
      → any (is_taken p) st.source_rows ≡ false
      → find (is_source_row source job) st.source_rows ≡ some s
      → is_source_row source job (new_source_row p k now) ≡ false
  unfolding new_source_row
  other_job p k now st s free found =
      elim (Bool-cases (p.source_id == source && text_eq p.source_job_id job)) [
        | inl e ↦
            let here : p.source_id ≡ source = ground arith in
            let this : p.source_job_id ≡ job = (text_eq_iff p.source_job_id job).0 (ground arith) in
            absurd (
              false≢true (
                sym free
                ∙ any-found (is_source_row source job) (is_taken p) st.source_rows s
                    (λ y h. rw (here, this, h) refl) found))
        | inr e ↦ e
      ]

  Tracks-insert :
      (p : LinkParams) (now : ℕ) (st st' : Store)
      → insert_source_row p now st ≡ some st'
      → Tracks st
      → Tracks st'
  unfolding find_source_row find
  Tracks-insert p now st st' done (s, found, same) =
      let (free, _, rows) = insert_source_row-some p now st st' done in
      (s, rw (rows, other_job p st.next_id now st s free found) found, same)

  Tracks-linked :
      (p : LinkParams) (now : ℕ) (st : Store) (out : Outcome) (k : Store → Option (Store × Outcome))
      → ((t : Store) → k t ≡ some (t, out))
      → Tracks st
      → TracksAfter (then_try (insert_source_row p now st) k)
  Tracks-linked p now st out k plain h = elim (Option-cases (insert_source_row p now st)) [
    | inl refused ↦ rw refused tt
    | inr (t, done) ↦ rw done (rw (plain t) (Tracks-insert p now st t done h))
  ]

  Tracks-created :
      (loc : Letters) (p : Posting) (etag : Text) (here now company : ℕ) (st : Store)
      (c : Option SourceRow)
      → Tracks st
      → TracksAfter (link_or_create loc here p etag now company st c)
  unfolding link_or_create insert_opportunity
  Tracks-created loc p etag here now company st (some s) h =
      Tracks-linked (link_params here p etag s.opportunity_id (some (bytes "exact_ats"))) now st
        unchanged _ (λ t. refl) h
  Tracks-created loc p etag here now company st none h =
      let st' = (insert_opportunity (insert_params loc p company) now st).0 in
      Tracks-linked (link_params here p etag st.next_id none) now st' created _ (λ t. refl)
        (Tracks-same st st' refl h)

  Tracks-updated :
      (loc : Letters) (p : Posting) (etag : Text) (now : ℕ) (s : SourceRow) (st : Store)
      → Tracks st
      → TracksAfter
          (then_try (apply_update loc s.opportunity_id p now st) (touched s p etag now updated))
  unfolding apply_update require_rows update_opportunity
  Tracks-updated loc p etag now s st h =
      elim (Bool-cases (length (filter (has_id s.opportunity_id) st.opportunities) == 0)) [
        | inl e ↦ rw e tt
        | inr e ↦ rw e (Tracks-touch s.id p.content_hash (nz etag) now _ (Tracks-same st _ refl h))
      ]

  Tracks-seen :
      (loc : Letters) (p : Posting) (etag : Text) (now : ℕ) (s : SourceRow) (st : Store)
      → Tracks st
      → TracksAfter (seen_before loc p etag now s st)
  unfolding seen_before mark_opportunity_seen
  Tracks-seen loc p etag now s st h = elim (Bool-cases (text_eq s.content_hash p.content_hash)) [
    | inl e ↦ rw e (Tracks-touch s.id p.content_hash (nz etag) now _ (Tracks-same st _ refl h))
    | inr e ↦ rw e (Tracks-updated loc p etag now s st h)
  ]

  Tracks-on_row :
      (loc : Letters) (here : ℕ) (adapter : Text) (p : Posting) (etag : Text) (now : ℕ) (st : Store)
      (c : Option SourceRow)
      → Tracks st
      → TracksAfter (on_source_row loc here adapter p etag now st c)
  unfolding on_source_row first_sighting resolve_company
  Tracks-on_row loc here adapter p etag now st (some s) h = Tracks-seen loc p etag now s st h
  Tracks-on_row loc here adapter p etag now st none h =
      let domain = company_domain loc adapter p in
      let (st', company) = resolve_company loc adapter p st in
      Tracks-created loc p etag here now company st'
        (find_canonical_by_ats (nz p.ats_type) (nz p.ats_job_id) st')
        (Tracks-same st st'
          (upsert_company_keeps loc.fold domain (name_or p.company_name domain) st).1 h)

  Tracks-committed :
      (st : Store) (x : Option (Store × Outcome))
      → Tracks st
      → TracksAfter x
      → Tracks (committed st x).0
  unfolding committed
  Tracks-committed st none h k = h
  Tracks-committed st (some (t, out)) h k = k

  pub upsert-Tracks :
      (loc : Letters) (here : ℕ) (adapter : Text) (p : Posting) (etag : Text) (db : Db) (st : Store)
      → Tracks st
      → Tracks (upsert loc here adapter p etag db st).0
  unfolding upsert
  upsert-Tracks loc here adapter p etag db st h = elim (Bool-cases db.up) [
    | inl e ↦
        let c = find_source_row here p.source_job_id st in
        rw e (
          Tracks-committed st (on_source_row loc here adapter p etag db.now st c) h
            (Tracks-on_row loc here adapter p etag db.now st c h))
    | inr e ↦ rw e h
  ]
