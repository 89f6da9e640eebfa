-- ===== src/Ingest/Store.antt =====
-- internal/store/ingest.sql.go: the tables and the statements of a poll. New ids are the numbers from
-- `next_id` on. A statement that a unique index refuses gives `none`; the indexes are those of
-- migrations/000005_opportunity.up.sql.
pub mod Frame
use devsignal.Prelude.{
  ℕ, ◌+◌, Bool, true, false, not, ◌&&◌, ◌||◌, Option, none, some, List, [], ◌∷◌, map, length,
  filter, ◌==◌, if◌then◌else◌,
}
use devsignal.Prelude.Text.{Text, text_eq}
use devsignal.Prelude.Search.{find, update, any}
use devsignal.Pipeline.State.{parsed}
use devsignal.Pipeline.Row.{Row, is_null}
use devsignal.Ingest.Rows.{
  Opportunity, SourceRow, Company, mark_seen, UpdateParams, update_from, tracked_by, seen_by, bump,
  closes, close, touch,
}

pub record Store : Type 0 where
  pub opportunities : List Opportunity
  pub source_rows : List SourceRow
  pub companies : List Company
  pub next_id : ℕ

-- SQL's `=` on a nullable text: NULL equals nothing.
abbrev pub same_text : Option Text → Option Text → Bool
same_text (some s) (some t) = text_eq s t
same_text _ _ = false

abbrev pub has_id : ℕ → Opportunity → Bool
has_id id o = o.row.id == id

abbrev pub is_source_row : ℕ → Text → SourceRow → Bool
is_source_row source job s = s.source_id == source && text_eq s.source_job_id job

abbrev pub same_ats : Option Text → Option Text → SourceRow → Bool
same_ats type job s = same_text s.ats_type type && same_text s.ats_job_id job

unfoldable pub find_source_row : ℕ → Text → Store → Option SourceRow
unfolding find
find_source_row source job st = find (is_source_row source job) st.source_rows

-- LIMIT 1 without an order: the first row that the database meets.
unfoldable pub find_canonical_by_ats : Option Text → Option Text → Store → Option SourceRow
unfolding find
find_canonical_by_ats type job st = find (same_ats type job) st.source_rows

unfoldable pub mark_opportunity_seen : Option ℕ → ℕ → ℕ → Store → Store
unfolding mark_seen
mark_opportunity_seen claimed id now st = record st {
  opportunities = map (update (has_id id) (mark_seen claimed now)) st.opportunities;
}

-- The new table, and the rows affected.
unfoldable pub update_opportunity : UpdateParams → ℕ → ℕ → Store → Store × ℕ
unfolding update_from
update_opportunity p id now st = (
  record st { opportunities = map (update (has_id id) (update_from p now)) st.opportunities },
  length (filter (has_id id) st.opportunities),
)

unfoldable pub touch_source_row : ℕ → Text → Option Text → ℕ → Store → Store
unfolding touch
touch_source_row id content_hash etag now st = record st {
  source_rows = map (update (λ s. s.id == id) (touch content_hash etag now)) st.source_rows;
}

pub record InsertParams : Type 0 where
  pub company_id : ℕ
  pub title_raw : Text
  pub title_normalized : Text
  pub description_text : Option Text
  pub work_mode : Option Text
  pub location_region : Option Text
  pub language : Option Text
  pub apply_method : Option Text
  pub ats_type : Option Text
  pub source_reported_posted_at : Option ℕ
  pub content_hash : Text

-- The columns that the statement does not name have their defaults.
unfoldable pub new_opportunity : InsertParams → ℕ → ℕ → Opportunity
new_opportunity p id now =
    let row : Row = record {
      id = id;
      state = parsed;
      version = 0;
      attempts = 0;
      last_error = none;
      next_attempt_at = now;
      lease_until = none;
      merged_into = none;
      state_entered_at = now;
      swept_at = none;
    } in
    record {
      row = row;
      company_id = p.company_id;
      title_raw = p.title_raw;
      title_normalized = p.title_normalized;
      description_text = p.description_text;
      work_mode = p.work_mode;
      location_region = p.location_region;
      language = p.language;
      apply_method = p.apply_method;
      ats_type = p.ats_type;
      source_reported_posted_at = p.source_reported_posted_at;
      source_posted_at_at_last_change = p.source_reported_posted_at;
      repost_count = 0;
      content_hash = p.content_hash;
      last_seen_at = now;
      liveness_checked_at = some now;
      consecutive_misses = 0;
      closed_at = none;
      close_reason = none;
    }

-- The id of the new row comes back.
unfoldable pub insert_opportunity : InsertParams → ℕ → Store → Store × ℕ
unfolding new_opportunity
insert_opportunity p now st = (
  record st {
    opportunities = new_opportunity p st.next_id now ∷ st.opportunities;
    next_id = st.next_id + 1;
  },
  st.next_id,
)

pub record LinkParams : Type 0 where
  pub opportunity_id : ℕ
  pub source_id : ℕ
  pub source_job_id : Text
  pub ats_type : Option Text
  pub ats_job_id : Option Text
  pub apply_url : Option Text
  pub content_hash : Text
  pub etag : Option Text
  pub merge_reason : Option Text
  pub merge_confidence : Option ℕ
  pub merged_by : Option Text

unfoldable pub new_source_row : LinkParams → ℕ → ℕ → SourceRow
new_source_row p id now = record {
  id = id;
  opportunity_id = p.opportunity_id;
  source_id = p.source_id;
  source_job_id = p.source_job_id;
  ats_type = p.ats_type;
  ats_job_id = p.ats_job_id;
  apply_url = p.apply_url;
  raw_object_key = none;
  content_hash = p.content_hash;
  last_seen_at = now;
  etag = p.etag;
  merge_reason = p.merge_reason;
  merge_confidence = p.merge_confidence;
  merged_by = p.merged_by;
}

-- UNIQUE (source_id, source_job_id), and the index idx_opp_source_ats on the pairs without a NULL.
abbrev pub is_taken : LinkParams → SourceRow → Bool
is_taken p s = is_source_row p.source_id p.source_job_id s || same_ats p.ats_type p.ats_job_id s

unfoldable pub insert_source_row : LinkParams → ℕ → Store → Option Store
unfolding new_source_row
insert_source_row p now st =
    if any (is_taken p) st.source_rows
    then none
    else some (record st {
      source_rows = new_source_row p st.next_id now ∷ st.source_rows;
      next_id = st.next_id + 1;
    })

-- The column is a citext: `fold` is the database's folding of case.
abbrev pub has_domain : (Text → Text) → Text → Company → Bool
has_domain fold domain c = text_eq (fold c.canonical_domain) (fold domain)

abbrev pub display_or : Text → Text → Text
display_or [] old = old
display_or (c ∷ s) old = c ∷ s

abbrev rename : Text → Company → Company
rename name c = record c { display_name = display_or name c.display_name }

abbrev new_company : ℕ → Text → Text → Company
new_company id domain name = record { id = id; canonical_domain = domain; display_name = name }

upsert_found : (Text → Text) → Text → Text → Store → Option Company → Store × ℕ
upsert_found fold domain name st (some c) = (
  record st { companies = map (update (has_domain fold domain) (rename name)) st.companies },
  c.id,
)
upsert_found fold domain name st none = (
  record st {
    companies = new_company st.next_id domain name ∷ st.companies;
    next_id = st.next_id + 1;
  },
  st.next_id,
)

-- RETURNING: the key of the company.
unfoldable pub upsert_company : (Text → Text) → Text → Text → Store → Store × ℕ
unfolding upsert_found
upsert_company fold domain name st =
    upsert_found fold domain name st (find (has_domain fold domain) st.companies)

-- BumpMissesForAbsent, over the source rows as they stand; and the rows affected.
unfoldable pub is_absent : ℕ → List Text → List SourceRow → Opportunity → Bool
unfolding tracked_by seen_by
is_absent source seen rows o =
    is_null o.closed_at
    && any (tracked_by source o.row.id) rows
    && not (any (seen_by source seen o.row.id) rows)

unfoldable pub bump_misses : ℕ → List Text → ℕ → Store → Store × ℕ
unfolding is_absent bump
bump_misses source seen now st = (
  record st {
    opportunities = map (update (is_absent source seen st.source_rows) (bump now)) st.opportunities;
  },
  length (filter (is_absent source seen st.source_rows) st.opportunities),
)

-- CloseMissedOpportunities has no condition on the source.
unfoldable pub close_missed : ℕ → ℕ → Store → Store × ℕ
unfolding closes close
close_missed max_misses now st = (
  record st { opportunities = map (update (closes max_misses) (close now)) st.opportunities },
  length (filter (closes max_misses) st.opportunities),
)
