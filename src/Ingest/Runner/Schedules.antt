-- ===== src/Ingest/Runner/Schedules.antt =====
-- What a poll does to the schedule of its source.
use devsignal.Prelude.{
  ℕ, ◌≡◌, refl, sym, ap, true, Option, none, some, List, [], ◌∷◌, inl, inr, map, Bool-cases, ◌==◌,
  arith, All,
}
use mathlib.Core.Option.{some-injective, none-ne-some}
use devsignal.Prelude.Text.{Text}
use devsignal.Prelude.Search.{update}
use devsignal.Ingest.Run.{Adapter, Ran, RunError, run_source}
use devsignal.Ingest.Health.{Source}
use devsignal.Ingest.Runner.{
  Schedule, World, Outside, During, Executed, executed, run_failed, decode_cursor, encode_cursor,
  save_source_cursor, build_adapter, after_failure, after_success, after_run, execute_with, execute,
}

-- Free again, with this cursor.
abbrev pub IsRescheduled : ℕ → Text → Schedule → Type 0
IsRescheduled now cursor s =
    (s.lease_until ≡ none) × (s.cursor ≡ cursor) × (s.last_run_at ≡ some now)

abbrev reschedule : ℕ → ℕ → Text → Schedule → Schedule
reschedule now next cursor s = record s {
  cursor = cursor;
  last_run_at = some now;
  lease_until = none;
  next_run_at = next;
}

rescheduled :
    (id now next : ℕ) (cursor : Text) (ss : List Schedule)
    → All
        (λ s. s.source_id ≡ id → IsRescheduled now cursor s)
        (map (update (λ s. s.source_id == id) (reschedule now next cursor)) ss)
rescheduled id now next cursor [] = tt
rescheduled id now next cursor (s ∷ ss) = (one, rescheduled id now next cursor ss)
  where
    one :
        (update (λ s. s.source_id == id) (reschedule now next cursor) s).source_id ≡ id
        → IsRescheduled now cursor (update (λ s. s.source_id == id) (reschedule now next cursor) s)
    one = elim (Bool-cases (s.source_id == id)) [
      | inl e ↦ rw e (λ _. (refl, refl, refl))
      | inr e ↦ rw e (λ same. absurd (ground arith))
    ]

module _ {D F : Type 0} (out : Outside D F) (during : During) (src : Source) (w : World) where
  after_success-schedules :
      (x : Ran)
      → during.saving ≡ true
      → All
          (λ s. s.source_id ≡ src.id → IsRescheduled during.now (encode_cursor out.json x.cursor) s)
          (after_success out during src x w).schedules
  unfolding after_success save_source_cursor
  after_success-schedules x h =
      rw h (rescheduled src.id during.now _ (encode_cursor out.json x.cursor) w.schedules)

  store-after_success : (x : Ran) → (after_success out during src x w).store ≡ x.store
  unfolding after_success save_source_cursor
  store-after_success x = elim (Bool-cases during.saving) [ inl e ↦ rw e refl | inr e ↦ rw e refl ]

  -- How a poll with this error, if any, ends.
  abbrev pub EndsWith : Ran → Option RunError → World × Executed → Type 0
  EndsWith x error y =
      ((e : RunError)
        → error ≡ some e
        → (y.1 ≡ run_failed x.result e) × (y.0.store ≡ x.store) × (y.0.schedules ≡ w.schedules))
      × (error ≡ none
          → during.saving ≡ true
          → (y.1 ≡ executed x.result)
            × (y.0.store ≡ x.store)
            × All
                (λ s.
                  s.source_id ≡ src.id
                  → IsRescheduled during.now (encode_cursor out.json x.cursor) s)
                y.0.schedules)

  after_run-EndsWith :
      (x : Ran) (error : Option RunError) → EndsWith x error (after_run out during src x error w)
  unfolding after_run after_failure
  after_run-EndsWith x none = (
    (λ e no. absurd (none-ne-some e no)),
    (λ _ up. (refl, store-after_success x, after_success-schedules x up)),
  )
  after_run-EndsWith x (some f) = (
    (λ e same. (ap (run_failed x.result) (some-injective f e same), refl, refl)),
    (λ no. absurd (none-ne-some f (sym no))),
  )

  -- The cursor of a source moves with a poll that succeeds, and only then. For a source whose adapter
  -- can be built, Execute returns the error of the poll, and then leaves every schedule, lease and
  -- cursor as it was; or the poll has no error, and then, if the database saves it, each schedule of
  -- the source is free, has run now, and has the cursor that the poll returned. In both cases the
  -- tables are those that the poll left.
  pub cursor_moves_on_success :
      (cursor_json : Text) (a : Adapter D)
      → build_adapter out src.name ≡ some a
      → let x =
          run_source out.letters src.id a
            (decode_cursor out.json cursor_json)
            during.tables
            w.store in
        EndsWith x x.error (execute out during src cursor_json w)
  unfolding execute execute_with
  cursor_moves_on_success cursor_json a built =
      let x =
        run_source out.letters src.id a (decode_cursor out.json cursor_json) during.tables
          w.store in
      rw built (after_run-EndsWith x x.error)
