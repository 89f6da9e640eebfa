-- ===== src/Ingest/Requeue.antt =====
-- internal/ingest with internal/pipeline: a worker that holds a row whose content a poll changes.
use devsignal.Prelude.{
  ℕ, ◌≡◌, ◌≢◌, inl, inr, refl, ap, ◌∙◌, true, some, List, [], ◌∷◌, map, arith, ◌==◌, Bool-cases,
  ==_refl,
}
use devsignal.Prelude.Search.{update}
use devsignal.Pipeline.State.{State, next, next_ok}
use devsignal.Pipeline.Row.{Row}
use devsignal.Pipeline.Table.{Table, find_row}
use devsignal.Pipeline.Table.Lookup.{UniqueIds, UniqueIds-map, find_row-map}
use devsignal.Pipeline.Queue.{Item, version_conflict, advance}
use devsignal.Pipeline.Queue.Advance.{IsFresh, advance_stale}
use devsignal.Ingest.Rows.{Opportunity, UpdateParams, reparsed, update_from}
use devsignal.Ingest.Store.{Store, has_id, update_opportunity}

-- The columns of the queue.
abbrev pub queue : Store → Table
queue st = map (λ o. o.row) st.opportunities

rows-update :
    (p : UpdateParams) (id now : ℕ) (os : List Opportunity)
    → map (λ o. o.row) (map (update (has_id id) (update_from p now)) os)
      ≡ map (update (λ r. r.id == id) (reparsed now)) (map (λ o. o.row) os)
unfolding update_from
rows-update p id now [] = refl
rows-update p id now (o ∷ os) = elim (Bool-cases (o.row.id == id)) [
  | inl e ↦ rw e (ap (λ t. reparsed now o.row ∷ t) (rows-update p id now os))
  | inr e ↦ rw e (ap (λ t. o.row ∷ t) (rows-update p id now os))
]

reparsed_id : (id now : ℕ) (r : Row) → (update (λ s. s.id == id) (reparsed now) r).id ≡ r.id
unfolding reparsed
reparsed_id id now r = ground arith

reparsed_stale :
    (it : Item) (now : ℕ) (r : Row) → IsFresh it r → (reparsed now r).version ≢ it.version
unfolding reparsed
reparsed_stale it now r f = ground arith

-- A poll that changes a posting's content overrides the worker that holds it. In a table with unique
-- ids, if the item that a worker claimed is what its row holds and its state has a successor, then
-- after UpdateOpportunityFromPosting on that row the worker's Advance reports a version conflict and
-- leaves the table as it was.
pub update_overrides_worker :
    (st : Store) (p : UpdateParams) (it : Item) (r : Row) (n : State) (now later : ℕ)
    → UniqueIds (queue st)
    → find_row it.id (queue st) ≡ some r
    → IsFresh it r
    → next it.state ≡ next_ok n
    → let t = queue (update_opportunity p it.id now st).0 in
      advance it (record { now = later; up = true }) t ≡ (t, some version_conflict)
unfolding update_opportunity
update_overrides_worker st p it r n now later unique found fresh succ =
    let f = update (λ s. s.id == it.id) (reparsed now) in
    let keeps = reparsed_id it.id now in
    rw (rows-update p it.id now st.opportunities) (
      advance_stale it later (map f (queue st)) (reparsed now r) n
        (UniqueIds-map f (queue st) keeps unique)
        (find_row-map f it.id (queue st) keeps ∙ rw (found, fresh.0, ==_refl it.id) refl) succ
        (inl (reparsed_stale it now r fresh)))
