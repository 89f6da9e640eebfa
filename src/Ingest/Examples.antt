-- ===== src/Ingest/Examples.antt =====
-- The theorems about internal/ingest at concrete postings, and tests of its functions.
use devsignal.Pipeline.Table.{find_row}
use devsignal.Prelude.{
  ℕ, ◌≡◌, refl, true, false, Option, none, some, List, [], ◌∷◌, map, arith, bytes,
}
use devsignal.Prelude.Int.{pos}
use devsignal.Prelude.Text.{Text, join, fields, cut, text_eq}
use devsignal.Prelude.Evolves.{Evolves}
use devsignal.Pipeline.State.{parsed, normalized, next}
use devsignal.Pipeline.Row.{Row}
use devsignal.Pipeline.Queue.{Db, Item, version_conflict, advance}
use devsignal.GhostRisk.{Signals, high, assess}
use devsignal.Ingest.Rows.{Posting, Opportunity, SourceRow, nz, mark_seen}
use devsignal.Ingest.Store.{
  Store, find_source_row, find_canonical_by_ats, update_opportunity, touch_source_row,
}
use devsignal.Ingest.Upsert.{Letters, upsert, update_params, normalize_title, board_identity}
use devsignal.Ingest.Upsert.Live.{IsOpen, LiveAt}
use devsignal.Ingest.Upsert.Linking.{new_to_source}
use devsignal.Ingest.Run.{Cursor, Fetched, fetched, Adapter, Dbs, run_source, take_postings}
use devsignal.Ingest.Run.Liveness.{MissedOnce, one_poll_closes_nothing}
use devsignal.Ingest.Run.Absence.{unstored_is_absent}
use devsignal.Ingest.Run.Seen.{returned_stays_open}
use devsignal.Ingest.Ghost.{polled, refresh_is_recounted}
use devsignal.Ingest.Requeue.{queue, update_overrides_worker}

abbrev letters : Letters
letters = record { unicode = λ c. c; fold = λ t. t }

abbrev posting : Text → Text → Posting
posting job title = record {
  source_job_id = job;
  ats_type = bytes "greenhouse";
  ats_job_id = job;
  title = title;
  company_name = bytes "Acme";
  company_domain = bytes " Acme.com ";
  description_html = bytes "Build things.";
  apply_url = [];
  language = bytes "en";
  location_raw = bytes "Berlin";
  work_mode = [];
  source_reported_posted_at = some 900;
  source_updated_at = none;
  content_hash = title;
}

abbrev opportunity : ℕ → Option ℕ → ℕ → Opportunity
opportunity id closed misses =
    let row : Row = record {
      id = id;
      state = parsed;
      version = 4;
      attempts = 0;
      last_error = none;
      next_attempt_at = 50;
      lease_until = none;
      merged_into = none;
      state_entered_at = 10;
      swept_at = none;
    } in
    record {
      row = row;
      company_id = 1;
      title_raw = bytes "Go Engineer";
      title_normalized = bytes "go engineer";
      description_text = none;
      work_mode = none;
      location_region = none;
      language = none;
      apply_method = none;
      ats_type = none;
      source_reported_posted_at = some 800;
      source_posted_at_at_last_change = some 800;
      repost_count = 0;
      content_hash = bytes "Go Engineer";
      last_seen_at = 10;
      liveness_checked_at = none;
      consecutive_misses = misses;
      closed_at = closed;
      close_reason = none;
    }

abbrev source_row : ℕ → ℕ → ℕ → Text → SourceRow
source_row id opportunity source job = record {
  id = id;
  opportunity_id = opportunity;
  source_id = source;
  source_job_id = job;
  ats_type = some (bytes "greenhouse");
  ats_job_id = some job;
  apply_url = none;
  raw_object_key = none;
  content_hash = bytes "Go Engineer";
  last_seen_at = 10;
  etag = none;
  merge_reason = none;
  merge_confidence = none;
  merged_by = none;
}

-- Source 1 tracks the posting j1 as opportunity 7, which is closed, and j2 as 8.
abbrev tables : Store
tables = record {
  opportunities = opportunity 7 (some 20) 2 ∷ opportunity 8 none 1 ∷ [];
  source_rows = source_row 3 7 1 (bytes "j1") ∷ source_row 4 8 1 (bytes "j2") ∷ [];
  companies = [];
  next_id = 20;
}

abbrev up_at : ℕ → Db
up_at now = record { now = now; up = true }

abbrev down : Db
down = record { now = 0; up = false }

abbrev all_up : Dbs
all_up = record { postings = λ k. up_at 100; misses = up_at 101; closing = up_at 102 }

abbrev none_stored : Dbs
none_stored = record { postings = λ k. down; misses = up_at 101; closing = up_at 102 }

abbrev cursor : Cursor
cursor = record { etag = bytes "v1"; last_modified = []; since = 0 }

abbrev board : Fetched (List Posting) → Adapter (List Posting)
board f = record { id = bytes "greenhouse:acme"; fetch = λ c. f; parse = some }

abbrev one_page : Adapter (List Posting)
one_page = board (fetched ((posting (bytes "j1") (bytes "Go Engineer") ∷ []) ∷ []) cursor)

-- The normalized title, and the pseudo-domain of a board.
title_test : normalize_title letters (bytes "  Senior   GO Engineer ") ≡ bytes "senior go engineer"
unfolding normalize_title join fields
title_test = refl

board_test : board_identity (bytes "greenhouse:acme") ≡ bytes "acme.greenhouse.ats.invalid"
unfolding board_identity cut
board_test = refl

-- Through source 2 the posting j1 of source 1 is never linked.
new_to_source_example :
    upsert letters 2
      (bytes "mirror:acme")
      (posting (bytes "j1") (bytes "Go Engineer"))
      []
      (up_at 100)
      tables
    ≡ (tables, none)
unfolding find_source_row find_canonical_by_ats nz text_eq
new_to_source_example =
    (new_to_source letters 2 (bytes "mirror:acme") (posting (bytes "j1") (bytes "Go Engineer")) []
        tables refl).0
      (up_at 100) (source_row 3 7 1 (bytes "j1")) refl

-- The posting j1 comes back: its opportunity is open again, and that of j2, missed twice, is closed.
poll_test :
    map (λ o. o.closed_at) (run_source letters 1 one_page cursor all_up tables).store.opportunities
    ≡ none ∷ some 102 ∷ []
unfolding run_source take_postings upsert find_source_row text_eq touch_source_row
poll_test = refl

returned_stays_open_example :
    LiveAt 7 (run_source letters 1 one_page cursor all_up tables).store.opportunities
unfolding find_source_row text_eq
returned_stays_open_example =
    returned_stays_open letters 1 one_page cursor cursor
      ((posting (bytes "j1") (bytes "Go Engineer") ∷ []) ∷ []) all_up tables (bytes "j1") 7 refl
      (cc, tt) (λ k. refl) refl (source_row 3 7 1 (bytes "j1"), refl, refl) refl

one_poll_closes_nothing_example :
    Evolves MissedOnce IsOpen tables.opportunities
      (run_source letters 1 one_page cursor all_up tables).store.opportunities
one_poll_closes_nothing_example = one_poll_closes_nothing letters 1 one_page cursor all_up tables

unstored_is_absent_example :
    (run_source letters 1 one_page cursor none_stored tables).store
    ≡ (run_source letters 1 (board (fetched [] cursor)) cursor none_stored tables).store
unstored_is_absent_example =
    unstored_is_absent letters 1 one_page cursor cursor
      ((posting (bytes "j1") (bytes "Go Engineer") ∷ []) ∷ []) none_stored tables refl (cc, tt)
      (λ k. refl)

-- The posting of opportunity 8 is still on the board, but its upsert fails: it is closed.
unstored_test :
    map
      (λ o. o.closed_at)
      (run_source letters 1
        (board (fetched ((posting (bytes "j2") (bytes "Go Engineer") ∷ []) ∷ []) cursor))
        cursor
        none_stored
        tables).store.opportunities
    ≡ some 20 ∷ some 102 ∷ []
unfolding run_source take_postings upsert
unstored_test = refl

abbrev signals : Signals
signals = record {
  first_seen_at = pos 0;
  last_verified_at = pos 0;
  repost_count = pos 4;
  has_apply_method = true;
  company_median_days_to_close = pos 30;
}

refresh_is_recounted_example : (assess (λ t. t) signals (pos 1)).band ≡ high
unfolding polled mark_seen
refresh_is_recounted_example =
    (refresh_is_recounted 900 800 (1 ∷ 2 ∷ 3 ∷ 4 ∷ []) (opportunity 8 none 0) (λ t. t) signals
        (pos 1) (omega arith) refl).2
      (omega arith) refl

abbrev item : Item
item = record { id = 8; version = 4; attempts = 0; state = parsed }

update_overrides_worker_example :
    let p = update_params letters (posting (bytes "j2") (bytes "Go Engineer II")) in
    let t = queue (update_opportunity p 8 60 tables).0 in
    advance item (up_at 70) t ≡ (t, some version_conflict)
unfolding find_row next
update_overrides_worker_example =
    update_overrides_worker tables
      (update_params letters (posting (bytes "j2") (bytes "Go Engineer II"))) item
      (opportunity 8 none 1).row normalized 60 70 (omega arith) refl (refl, refl, refl) refl
