-- ===== src/Ingest/Rows.antt =====
-- internal/store/ingest.sql.go: the rows that a poll reads and writes, and its statements as
-- functions of one row. Ids are numbers, times microseconds; `now` is the database's clock. The
-- columns of the queue are those of Pipeline.Row.
use devsignal.Prelude.{
  ℕ, ◌+◌, Bool, ◌&&◌, Option, none, some, List, [], ◌∷◌, ltb, leb, ◌==◌, if◌then◌else◌, bytes,
}
use devsignal.Prelude.Text.{Text, has_word}
use devsignal.Pipeline.State.{parsed}
use devsignal.Pipeline.Row.{Row, is_null, stamped}

-- source.ParsedPosting
pub record Posting : Type 0 where
  pub source_job_id : Text
  pub ats_type : Text
  pub ats_job_id : Text
  pub title : Text
  pub company_name : Text
  pub company_domain : Text
  pub description_html : Text
  pub apply_url : Text
  pub language : Text
  pub location_raw : Text
  pub work_mode : Text
  pub source_reported_posted_at : Option ℕ
  pub source_updated_at : Option ℕ
  pub content_hash : Text

pub record Opportunity : Type 0 where
  pub row : Row
  pub company_id : ℕ
  pub title_raw : Text
  pub title_normalized : Text
  pub description_text : Option Text
  pub work_mode : Option Text
  pub location_region : Option Text
  pub language : Option Text
  pub apply_method : Option Text
  pub ats_type : Option Text
  pub source_reported_posted_at : Option ℕ
  pub source_posted_at_at_last_change : Option ℕ
  pub repost_count : ℕ
  pub content_hash : Text
  pub last_seen_at : ℕ
  pub liveness_checked_at : Option ℕ
  pub consecutive_misses : ℕ
  pub closed_at : Option ℕ
  pub close_reason : Option Text

pub record SourceRow : Type 0 where
  pub id : ℕ
  pub opportunity_id : ℕ
  pub source_id : ℕ
  pub source_job_id : Text
  pub ats_type : Option Text
  pub ats_job_id : Option Text
  pub apply_url : Option Text
  pub raw_object_key : Option Text
  pub content_hash : Text
  pub last_seen_at : ℕ
  pub etag : Option Text
  pub merge_reason : Option Text
  pub merge_confidence : Option ℕ
  pub merged_by : Option Text

pub record Company : Type 0 where
  pub id : ℕ
  pub canonical_domain : Text
  pub display_name : Text

-- The CASE of MarkOpportunitySeen: 1 for a claimed date after the baseline.
abbrev pub refreshes : Option ℕ → Option ℕ → ℕ
refreshes (some claimed) (some baseline) = if ltb baseline claimed then 1 else 0
refreshes _ _ = 0

abbrev pub coalesce {ℓ} : {A : Type ℓ} → Option A → Option A → Option A
coalesce none y = y
coalesce (some x) y = some x

unfoldable pub mark_seen : Option ℕ → ℕ → Opportunity → Opportunity
mark_seen claimed now o = record o {
  last_seen_at = now;
  liveness_checked_at = some now;
  consecutive_misses = 0;
  closed_at = none;
  close_reason = none;
  repost_count = o.repost_count + refreshes claimed o.source_posted_at_at_last_change;
  source_reported_posted_at = coalesce claimed o.source_reported_posted_at;
}

pub record UpdateParams : Type 0 where
  pub title_raw : Text
  pub title_normalized : Text
  pub description_text : Option Text
  pub work_mode : Option Text
  pub location_region : Option Text
  pub language : Option Text
  pub source_reported_posted_at : Option ℕ
  pub content_hash : Text

-- Back to 'parsed', with the next version; the lease is left as it is.
unfoldable pub reparsed : ℕ → Row → Row
reparsed now r = stamped now r (record r {
  state = parsed;
  next_attempt_at = now;
  attempts = 0;
  last_error = none;
  version = r.version + 1;
})

unfoldable pub update_from : UpdateParams → ℕ → Opportunity → Opportunity
unfolding reparsed
update_from p now o = record o {
  row = reparsed now o.row;
  title_raw = p.title_raw;
  title_normalized = p.title_normalized;
  description_text = p.description_text;
  work_mode = p.work_mode;
  location_region = p.location_region;
  language = p.language;
  source_reported_posted_at = p.source_reported_posted_at;
  content_hash = p.content_hash;
  source_posted_at_at_last_change = p.source_reported_posted_at;
  last_seen_at = now;
  liveness_checked_at = some now;
  consecutive_misses = 0;
  closed_at = none;
  close_reason = none;
}

-- The two EXISTS clauses of BumpMissesForAbsent: a row of the source for this opportunity, and one
-- that was seen.
unfoldable pub tracked_by : ℕ → ℕ → SourceRow → Bool
tracked_by source opportunity s = s.opportunity_id == opportunity && s.source_id == source

unfoldable pub seen_by : ℕ → List Text → ℕ → SourceRow → Bool
unfolding tracked_by has_word
seen_by source seen opportunity s = tracked_by source opportunity s && has_word s.source_job_id seen

unfoldable pub bump : ℕ → Opportunity → Opportunity
bump now o = record o {
  consecutive_misses = o.consecutive_misses + 1;
  liveness_checked_at = some now;
}

unfoldable pub closes : ℕ → Opportunity → Bool
closes max_misses o = is_null o.closed_at && leb max_misses o.consecutive_misses

unfoldable pub close : ℕ → Opportunity → Opportunity
close now o = record o { closed_at = some now; close_reason = some (bytes "absent") }

unfoldable pub touch : Text → Option Text → ℕ → SourceRow → SourceRow
touch content_hash etag now s = record s {
  last_seen_at = now;
  content_hash = content_hash;
  etag = etag;
  raw_object_key = none;
}

-- `nz`: an empty text is NULL.
unfoldable pub nz : Text → Option Text
nz [] = none
nz (c ∷ s) = some (c ∷ s)
