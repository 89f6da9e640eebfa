-- ===== src/Ingest/Upsert/Evolution.antt =====
-- What an upsert does to the table of opportunities.
use devsignal.Prelude.{
  ℕ, ◌≡◌, inl, inr, refl, Bool, Option, none, some, List, map, length, filter, Bool-cases,
  Option-cases, ◌==◌, bytes,
}
use devsignal.Prelude.Text.{Text, text_eq}
use devsignal.Prelude.Search.{update}
use devsignal.Prelude.Evolves.{Evolves, kept, added, Pointwise-map, Pointwise-refl}
use devsignal.Pipeline.Queue.{Db}
use devsignal.Ingest.Rows.{
  Posting, Opportunity, SourceRow, mark_seen, UpdateParams, update_from, nz,
}
use devsignal.Ingest.Store.{
  Store, has_id, InsertParams, new_opportunity, LinkParams, insert_source_row, find_source_row,
  find_canonical_by_ats, update_opportunity, mark_opportunity_seen, touch_source_row,
  insert_opportunity,
}
use devsignal.Ingest.Store.Frame.{insert_source_row-some, upsert_company_keeps}
use devsignal.Ingest.Upsert.{
  Letters, Outcome, resolve_company, company_domain, name_or, require_rows, update_params,
  apply_update, then_try, seen_before, link_or_create, first_sighting, on_source_row, committed,
  unchanged, created, updated, touched, upsert, link_params, insert_params,
}

-- A relation between an opportunity and what becomes of it, and what holds of a new one.
pub record IsHistory {κ} (R : Opportunity → Opportunity → Type κ) (Q : Opportunity → Type κ)
    : Type κ where
  pub reflexive : (o : Opportunity) → R o o
  pub transitive : (o p q : Opportunity) → R o p → R p q → R o q
  pub keeps : (o p : Opportunity) → Q o → R o p → Q p
  pub seeing : (claimed : Option ℕ) (now : ℕ) (o : Opportunity) → R o (mark_seen claimed now o)
  pub updating : (p : UpdateParams) (now : ℕ) (o : Opportunity) → R o (update_from p now o)
  pub creating : (p : InsertParams) (id now : ℕ) → Q (new_opportunity p id now)

-- `none` makes no change.
abbrev Reaches {κ} :
    (Opportunity → Opportunity → Type κ)
    → (Opportunity → Type κ)
    → Store
    → Option (Store × Outcome)
    → Type κ
Reaches R Q st none = Unit
Reaches R Q st (some (st', out)) = Evolves R Q st.opportunities st'.opportunities

map-Evolves {κ} :
    {R : Opportunity → Opportunity → Type κ} {Q : Opportunity → Type κ} (q : Opportunity → Bool)
    (f : Opportunity → Opportunity) (xs : List Opportunity)
    → ((o : Opportunity) → R o o)
    → ((o : Opportunity) → R o (f o))
    → Evolves R Q xs (map (update q f) xs)
map-Evolves {R} q f xs r h = kept (Pointwise-map (update q f) xs λ o. one o)
  where
    one : (o : Opportunity) → R o (update q f o)
    one o = elim (Bool-cases (q o)) [ inl e ↦ rw e (h o) | inr e ↦ rw e (r o) ]

module _ {κ} {R : Opportunity → Opportunity → Type κ} {Q : Opportunity → Type κ}
    (history : IsHistory R Q) where
  open history use {reflexive, transitive, keeps, seeing, updating, creating}

  none_new :
      (st st' : Store)
      → st'.opportunities ≡ st.opportunities
      → Evolves R Q st.opportunities st'.opportunities
  none_new st st' e = rw e (kept (Pointwise-refl st.opportunities reflexive))

  updated-Reaches :
      (loc : Letters) (p : Posting) (etag : Text) (now : ℕ) (s : SourceRow) (st : Store)
      → Reaches R Q st
          (then_try (apply_update loc s.opportunity_id p now st) (touched s p etag now updated))
  unfolding apply_update require_rows update_opportunity touch_source_row
  updated-Reaches loc p etag now s st =
      elim (Bool-cases (length (filter (has_id s.opportunity_id) st.opportunities) == 0)) [
        | inl e ↦ rw e tt
        | inr e ↦
            rw e (map-Evolves _ _ st.opportunities reflexive (updating (update_params loc p) now))
      ]

  seen_before-Reaches :
      (loc : Letters) (p : Posting) (etag : Text) (now : ℕ) (s : SourceRow) (st : Store)
      → Reaches R Q st (seen_before loc p etag now s st)
  unfolding seen_before mark_opportunity_seen touch_source_row
  seen_before-Reaches loc p etag now s st =
      elim (Bool-cases (text_eq s.content_hash p.content_hash)) [
        | inl e ↦ rw e (map-Evolves _ _ st.opportunities reflexive (seeing _ now))
        | inr e ↦ rw e (updated-Reaches loc p etag now s st)
      ]

  link-Reaches :
      (p : LinkParams) (now : ℕ) (st st' : Store) (out : Outcome)
      (k : Store → Option (Store × Outcome))
      → ((s : Store) → k s ≡ some (s, out))
      → Evolves R Q st.opportunities st'.opportunities
      → Reaches R Q st (then_try (insert_source_row p now st') k)
  link-Reaches p now st st' out k plain e = elim (Option-cases (insert_source_row p now st')) [
    | inl refused ↦ rw refused tt
    | inr (s, done) ↦ rw done (rw (plain s) (rw ((insert_source_row-some p now st' s done).1) e))
  ]

  Reaches-from :
      (st st' : Store) (x : Option (Store × Outcome))
      → st'.opportunities ≡ st.opportunities
      → Reaches R Q st' x
      → Reaches R Q st x
  Reaches-from st st' none e h = tt
  Reaches-from st st' (some (t, out)) e h = rw (← e) h

  link_or_create-Reaches :
      (loc : Letters) (source : ℕ) (p : Posting) (etag : Text) (now company : ℕ) (st : Store)
      (c : Option SourceRow)
      → Reaches R Q st (link_or_create loc source p etag now company st c)
  unfolding link_or_create insert_opportunity
  link_or_create-Reaches loc source p etag now company st (some s) =
      link-Reaches (link_params source p etag s.opportunity_id (some (bytes "exact_ats"))) now st st
        unchanged _ (λ t. refl) (none_new st st refl)
  link_or_create-Reaches loc source p etag now company st none =
      let q = insert_params loc p company in
      link-Reaches (link_params source p etag st.next_id none) now st
        (insert_opportunity q now st).0 created _ (λ t. refl)
        (added (creating q st.next_id now) (none_new st st refl))

  on_source_row-Reaches :
      (loc : Letters) (source : ℕ) (adapter : Text) (p : Posting) (etag : Text) (now : ℕ)
      (st : Store) (c : Option SourceRow)
      → Reaches R Q st (on_source_row loc source adapter p etag now st c)
  unfolding on_source_row first_sighting resolve_company
  on_source_row-Reaches loc source adapter p etag now st (some s) =
      seen_before-Reaches loc p etag now s st
  on_source_row-Reaches loc source adapter p etag now st none =
      let domain = company_domain loc adapter p in
      let (st', company) = resolve_company loc adapter p st in
      Reaches-from st st' _
        (upsert_company_keeps loc.fold domain (name_or p.company_name domain) st).0
        (link_or_create-Reaches loc source p etag now company st'
          (find_canonical_by_ats (nz p.ats_type) (nz p.ats_job_id) st'))

  -- An upsert keeps a history, whatever the database does.
  pub upsert-Evolves :
      (loc : Letters) (source : ℕ) (adapter : Text) (p : Posting) (etag : Text) (db : Db)
      (st : Store)
      → Evolves R Q st.opportunities (upsert loc source adapter p etag db st).0.opportunities
  unfolding upsert committed
  upsert-Evolves loc source adapter p etag db st = elim (Bool-cases db.up) [
    | inl e ↦ rw e (
        go
          (on_source_row loc source adapter p etag db.now st
            (find_source_row source p.source_job_id st))
          (on_source_row-Reaches loc source adapter p etag db.now st _))
    | inr e ↦ rw e (none_new st st refl)
  ]
    where
      go :
          (x : Option (Store × Outcome))
          → Reaches R Q st x
          → Evolves R Q st.opportunities (committed st x).0.opportunities
      go none h = none_new st st refl
      go (some (t, out)) h = h
