-- ===== src/Ingest/Upsert/Live.antt =====
-- Opportunities that are open without a miss, and what an upsert does to them.
use devsignal.Prelude.{
  ℕ, ◌≤◌, ◌≡◌, refl, sym, ◌∙◌, true, false, Option, none, some, List, [], ◌∷◌, inl, inr, map,
  Bool-cases, ◌==◌, arith, length, filter, All,
}
use devsignal.Prelude.Text.{Text, text_eq}
use devsignal.Prelude.Search.{update, any}
use devsignal.Prelude.Evolves.{nil, cons, Evolves, kept, added}
use devsignal.Pipeline.Queue.{Db}
use devsignal.Ingest.Rows.{Posting, Opportunity, SourceRow, mark_seen, update_from}
use devsignal.Ingest.Store.{
  Store, new_opportunity, has_id, find_source_row, mark_opportunity_seen, update_opportunity,
  touch_source_row,
}
use devsignal.Ingest.Upsert.{
  Letters, Outcome, apply_update, require_rows, update_params, seen_before, on_source_row,
  committed, upsert,
}
use devsignal.Ingest.Upsert.Evolution.{IsHistory}

abbrev pub IsOpen : Opportunity → Type 0
IsOpen o = o.closed_at ≡ none

abbrev pub IsLive : Opportunity → Type 0
IsLive o = IsOpen o × (o.consecutive_misses ≡ 0)

-- The row is no nearer to being closed than it was.
abbrev pub Calm : Opportunity → Opportunity → Type 0
Calm o p =
    (p.row.id ≡ o.row.id) × (p.consecutive_misses ≤ o.consecutive_misses) × (IsOpen o → IsOpen p)

pub Calm-IsHistory : IsHistory Calm IsLive
unfolding mark_seen update_from new_opportunity
Calm-IsHistory = record {
  reflexive = λ o. (refl, omega arith, λ h. h);
  transitive = λ o p q h k. (omega (arith, h.0, k.0), omega (arith, h.1, k.1), λ e. k.2 (h.2 e));
  keeps = λ o p h k. (k.2 h.0, omega (arith, h.1, k.1));
  seeing = λ c now o. (refl, omega arith, λ h. refl);
  updating = λ p now o. (refl, omega arith, λ h. refl);
  creating = λ p id now. (refl, refl);
}

abbrev pub LiveAt : ℕ → List Opportunity → Type 0
LiveAt id os = All (λ o. o.row.id ≡ id → IsLive o) os

pub Evolves-LiveAt :
    (id : ℕ) {xs ys : List Opportunity} → Evolves Calm IsLive xs ys → LiveAt id xs → LiveAt id ys
Evolves-LiveAt id (added h e) l = ((λ _. h), Evolves-LiveAt id e l)
Evolves-LiveAt id (kept nil) l = tt
Evolves-LiveAt id (kept (cons r p)) l = (
  (λ e. let old = l.0 (sym r.0 ∙ e) in (r.2 old.0, omega (arith, r.1, old.1))),
  Evolves-LiveAt id (kept p) l.1,
)

pub Evolves-any :
    (id : ℕ) {xs ys : List Opportunity}
    → Evolves Calm IsLive xs ys
    → any (has_id id) xs ≡ true
    → any (has_id id) ys ≡ true
Evolves-any id (added h e) l = ground (arith, Evolves-any id e l)
Evolves-any id (kept nil) l = l
Evolves-any id (kept (cons r p)) l = ground (arith, r.0, Evolves-any id (kept p))

updated-LiveAt :
    (id : ℕ) (f : Opportunity → Opportunity) (os : List Opportunity)
    → ((o : Opportunity) → IsLive (f o))
    → LiveAt id (map (update (has_id id) f) os)
updated-LiveAt id f [] h = tt
updated-LiveAt id f (o ∷ os) h = (one, updated-LiveAt id f os h)
  where
    one : (update (has_id id) f o).row.id ≡ id → IsLive (update (has_id id) f o)
    one = elim (Bool-cases (o.row.id == id)) [
      | inl e ↦ rw e (λ _. h o)
      | inr e ↦ rw e (λ same. absurd (ground arith))
    ]

any-length :
    (id : ℕ) (os : List Opportunity)
    → any (has_id id) os ≡ true
    → (length (filter (has_id id) os) == 0) ≡ false
any-length id [] h = cc
any-length id (o ∷ os) h = ground (arith, any-length id os)

abbrev LiveAfter : ℕ → Option (Store × Outcome) → Type 0
LiveAfter id none = ⊥
LiveAfter id (some (st, out)) = LiveAt id st.opportunities

seen_before-Live :
    (loc : Letters) (p : Posting) (etag : Text) (now : ℕ) (s : SourceRow) (st : Store)
    → any (has_id s.opportunity_id) st.opportunities ≡ true
    → LiveAfter s.opportunity_id (seen_before loc p etag now s st)
unfolding seen_before mark_opportunity_seen apply_update require_rows update_opportunity
    touch_source_row mark_seen update_from
seen_before-Live loc p etag now s st h = elim (Bool-cases (text_eq s.content_hash p.content_hash)) [
  | inl e ↦ rw e (
      updated-LiveAt s.opportunity_id (mark_seen p.source_reported_posted_at now) st.opportunities
        (λ o. (refl, refl)))
  | inr e ↦
      rw (e, any-length s.opportunity_id st.opportunities h)
        (updated-LiveAt s.opportunity_id (update_from (update_params loc p) now) st.opportunities
          (λ o. (refl, refl)))
]

abbrev pub IsDone : ℕ → Store × Option Outcome → Type 0
IsDone id (st, none) = ⊥
IsDone id (st, some out) = LiveAt id st.opportunities

committed-Live :
    (id : ℕ) (st : Store) (x : Option (Store × Outcome))
    → LiveAfter id x
    → IsDone id (committed st x)
unfolding committed
committed-Live id st none h = h
committed-Live id st (some (t, out)) h = h

-- A posting that the source knows is stored, and its opportunity is live.
pub upsert-Live :
    (loc : Letters) (source : ℕ) (adapter : Text) (p : Posting) (etag : Text) (db : Db) (st : Store)
    (s : SourceRow)
    → db.up ≡ true
    → find_source_row source p.source_job_id st ≡ some s
    → any (has_id s.opportunity_id) st.opportunities ≡ true
    → IsDone s.opportunity_id (upsert loc source adapter p etag db st)
unfolding upsert on_source_row
upsert-Live loc source adapter p etag db st s up found h =
    rw (up, found)
      (committed-Live s.opportunity_id st _ (seen_before-Live loc p etag db.now s st h))
