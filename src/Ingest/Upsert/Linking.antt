-- ===== src/Ingest/Upsert/Linking.antt =====
-- A posting that is new to its source.
use devsignal.Prelude.{
  ℕ, ◌+◌, ◌≡◌, refl, true, false, Option, none, some, ◌∷◌, inl, inr, Bool-cases, bytes, arith,
}
use devsignal.Prelude.Text.{Text}
use devsignal.Prelude.Search.{find, any, any-found, any-none}
use devsignal.Pipeline.Queue.{Db}
use devsignal.Ingest.Rows.{Posting, SourceRow, nz}
use devsignal.Ingest.Store.{
  Store, LinkParams, is_source_row, same_ats, is_taken, find_source_row, find_canonical_by_ats,
  insert_source_row, insert_opportunity, new_opportunity, new_source_row,
}
use devsignal.Ingest.Store.Frame.{upsert_company_keeps}
use devsignal.Ingest.Upsert.{
  Letters, created, resolve_company, company_domain, name_or, link_params, insert_params,
  link_or_create, first_sighting, on_source_row, committed, upsert,
}

insert_refused :
    (p : LinkParams) (now : ℕ) (st : Store) (s : SourceRow)
    → find (same_ats p.ats_type p.ats_job_id) st.source_rows ≡ some s
    → insert_source_row p now st ≡ none
unfolding insert_source_row
insert_refused p now st s h =
    rw
      (any-found (same_ats p.ats_type p.ats_job_id) (is_taken p) st.source_rows s
        (λ y e. ground arith) h)
      refl

module _ (loc : Letters) (source : ℕ) (adapter : Text) (p : Posting) (etag : Text) (st : Store)
    (new : find_source_row source p.source_job_id st ≡ none) where
  resolved_rows : (resolve_company loc adapter p st).0.source_rows ≡ st.source_rows
  unfolding resolve_company
  resolved_rows =
      let domain = company_domain loc adapter p in
      (upsert_company_keeps loc.fold domain (name_or p.company_name domain) st).1

  pub exact_ats_refused :
      (db : Db) (s : SourceRow)
      → find_canonical_by_ats (nz p.ats_type) (nz p.ats_job_id) st ≡ some s
      → upsert loc source adapter p etag db st ≡ (st, none)
  unfolding upsert on_source_row committed first_sighting link_or_create find_canonical_by_ats
  exact_ats_refused db s h = elim (Bool-cases db.up) [
    | inl e ↦
        let st' = (resolve_company loc adapter p st).0 in
        let here : find (same_ats (nz p.ats_type) (nz p.ats_job_id)) st'.source_rows ≡ some s =
          rw resolved_rows h in
        rw
          (
            e,
            new,
            here,
            insert_refused (link_params source p etag s.opportunity_id (some (bytes "exact_ats")))
                db.now st' s here,
          )
          refl
    | inr e ↦ rw e refl
  ]

  insert_free :
      (now : ℕ) (id : ℕ) (reason : Option Text) (st' : Store)
      → st'.source_rows ≡ st.source_rows
      → find_canonical_by_ats (nz p.ats_type) (nz p.ats_job_id) st ≡ none
      → any (is_taken (link_params source p etag id reason)) st'.source_rows ≡ false
  unfolding find_source_row find_canonical_by_ats
  insert_free now id reason st' e none_linked = rw e (
      any-none (is_source_row source p.source_job_id) (same_ats (nz p.ats_type) (nz p.ats_job_id))
        st.source_rows new none_linked)

  -- The tables after a posting is first seen by anyone.
  abbrev pub as_created : ℕ → Store
  as_created now =
      let (st', company) = resolve_company loc adapter p st in
      record st' {
        opportunities =
            new_opportunity (insert_params loc p company) st'.next_id now ∷ st'.opportunities;
        source_rows =
            new_source_row (link_params source p etag st'.next_id none) (st'.next_id + 1) now
            ∷ st'.source_rows;
        next_id = st'.next_id + 1 + 1;
      }

  pub first_seen_created :
      (now : ℕ)
      → find_canonical_by_ats (nz p.ats_type) (nz p.ats_job_id) st ≡ none
      → upsert loc source adapter p etag (record { now = now; up = true }) st
        ≡ (as_created now, some created)
  unfolding upsert on_source_row committed first_sighting link_or_create find_canonical_by_ats
      insert_opportunity insert_source_row
  first_seen_created now h =
      let st' = (resolve_company loc adapter p st).0 in
      let here : find (same_ats (nz p.ats_type) (nz p.ats_job_id)) st'.source_rows ≡ none =
        rw resolved_rows h in
      rw (new, here, insert_free now st'.next_id none st' resolved_rows h) refl

  -- A posting that is new to its source becomes a row of its own or nothing. If another row has its
  -- ATS type and ATS id, the upsert fails and the tables are as they were, whatever the database
  -- does: it is never linked to the canonical row. If no row has them, and the database carries the
  -- transaction through, a new opportunity and a source row that points to it stand in front of the
  -- old ones, and the outcome is "created".
  pub new_to_source :
      ((db : Db) (s : SourceRow)
        → find_canonical_by_ats (nz p.ats_type) (nz p.ats_job_id) st ≡ some s
        → upsert loc source adapter p etag db st ≡ (st, none))
      × ((now : ℕ)
          → find_canonical_by_ats (nz p.ats_type) (nz p.ats_job_id) st ≡ none
          → upsert loc source adapter p etag (record { now = now; up = true }) st
            ≡ (as_created now, some created))
  new_to_source = (exact_ats_refused, first_seen_created)
