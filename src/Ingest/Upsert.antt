-- ===== src/Ingest/Upsert.antt =====
-- internal/ingest/ingest.go: `upsert` and what it calls. The transaction's statements are a chain of
-- options: `none` is an error, which rolls the transaction back. `db` says when the transaction runs
-- and whether the database carries it to the commit.
pub mod Evolution
pub mod Linking
pub mod Tracking
pub mod Live
use devsignal.Prelude.{
  ℕ, ◌+◌, Bool, true, false, Option, none, some, List, [], ◌∷◌, ◌++◌, map, ◌==◌, if◌then◌else◌,
  bytes,
}
use devsignal.Prelude.Text.{Text, text_eq, is_empty, join, trim_space, fields, cut, to_lower}
use devsignal.Pipeline.Queue.{Db}
use devsignal.Ingest.Rows.{Posting, SourceRow, nz, UpdateParams}
use devsignal.Ingest.Store.{
  Store, find_source_row, find_canonical_by_ats, mark_opportunity_seen, update_opportunity,
  touch_source_row, InsertParams, insert_opportunity, LinkParams, insert_source_row, upsert_company,
}

-- What the code takes from Go's and the database's tables of letters.
pub record Letters : Type 0 where
  pub unicode : ℕ → ℕ
  pub fold : Text → Text

pub data Outcome : Type 0 where
  unchanged created updated : Outcome

unfoldable pub normalize_title : Letters → Text → Text
unfolding to_lower
normalize_title loc t = to_lower loc.unicode (join (bytes " ") (fields t))

-- strings.SplitN(adapterID, ":", 2)
board_parts : Text → Option (Text × Text) → Text
board_parts id (some (family, board)) = board ++ (bytes "." ++ (family ++ bytes ".ats.invalid"))
board_parts id none = id ++ bytes ".ats.invalid"

unfoldable pub board_identity : Text → Text
unfolding board_parts
board_identity id = board_parts id (cut b':' id)

-- The name is the domain where the source reveals none.
abbrev name_or : Text → Text → Text
name_or [] domain = domain
name_or (c ∷ s) domain = c ∷ s

unfoldable pub company_domain : Letters → Text → Posting → Text
unfolding board_identity
company_domain loc adapter p =
    let domain = to_lower loc.unicode (trim_space p.company_domain) in
    if is_empty domain then board_identity adapter else domain

unfoldable pub resolve_company : Letters → Text → Posting → Store → Store × ℕ
unfolding company_domain upsert_company
resolve_company loc adapter p st =
    let domain = company_domain loc adapter p in
    upsert_company loc.fold domain (name_or p.company_name domain) st

-- An update of no row is an error.
require_rows : Store × ℕ → Option Store
require_rows (st, n) = if n == 0 then none else some st

abbrev pub update_params : Letters → Posting → UpdateParams
update_params loc p = record {
  title_raw = p.title;
  title_normalized = normalize_title loc p.title;
  description_text = nz p.description_html;
  work_mode = nz p.work_mode;
  location_region = nz p.location_raw;
  language = nz p.language;
  source_reported_posted_at = p.source_reported_posted_at;
  content_hash = p.content_hash;
}

unfoldable pub apply_update : Letters → ℕ → Posting → ℕ → Store → Option Store
unfolding require_rows update_opportunity
apply_update loc id p now st = require_rows (update_opportunity (update_params loc p) id now st)

-- The chain of a transaction's statements.
abbrev pub then_try {ℓ} : {A : Type ℓ} → Option Store → (Store → Option A) → Option A
then_try none k = none
then_try (some st) k = k st

abbrev pub touched : SourceRow → Posting → Text → ℕ → Outcome → Store → Option (Store × Outcome)
touched s p etag now out st = some (touch_source_row s.id p.content_hash (nz etag) now st, out)

-- Seen before through this source.
unfoldable pub seen_before :
    Letters → Posting → Text → ℕ → SourceRow → Store → Option (Store × Outcome)
unfolding mark_opportunity_seen apply_update
seen_before loc p etag now s st =
    if text_eq s.content_hash p.content_hash
    then touched s p etag now unchanged
        (mark_opportunity_seen p.source_reported_posted_at s.opportunity_id now st)
    else then_try (apply_update loc s.opportunity_id p now st) (touched s p etag now updated)

abbrev pub link_params : ℕ → Posting → Text → ℕ → Option Text → LinkParams
link_params source p etag id reason = record {
  opportunity_id = id;
  source_id = source;
  source_job_id = p.source_job_id;
  ats_type = nz p.ats_type;
  ats_job_id = nz p.ats_job_id;
  apply_url = nz p.apply_url;
  content_hash = p.content_hash;
  etag = nz etag;
  merge_reason = reason;
  merge_confidence = confidence reason;
  merged_by = some (bytes "ingest");
}
  where
    confidence : Option Text → Option ℕ
    confidence none = none
    confidence (some r) = some 1

abbrev pub insert_params : Letters → Posting → ℕ → InsertParams
insert_params loc p company = record {
  company_id = company;
  title_raw = p.title;
  title_normalized = normalize_title loc p.title;
  description_text = nz p.description_html;
  work_mode = nz p.work_mode;
  location_region = nz p.location_raw;
  language = nz p.language;
  apply_method = nz p.ats_type;
  ats_type = nz p.ats_type;
  source_reported_posted_at = p.source_reported_posted_at;
  content_hash = p.content_hash;
}

abbrev with_outcome : Outcome → Store → Option (Store × Outcome)
with_outcome out st = some (st, out)

-- The canonical row of another source with this ATS posting, or a new one.
unfoldable pub link_or_create :
    Letters → ℕ → Posting → Text → ℕ → ℕ → Store → Option SourceRow → Option (Store × Outcome)
unfolding insert_opportunity
link_or_create loc source p etag now company st (some s) =
    then_try
      (insert_source_row (link_params source p etag s.opportunity_id (some (bytes "exact_ats"))) now
        st)
      (with_outcome unchanged)
link_or_create loc source p etag now company st none =
    let (st', id) = insert_opportunity (insert_params loc p company) now st in
    then_try (insert_source_row (link_params source p etag id none) now st') (with_outcome created)

-- New to this source.
unfoldable pub first_sighting :
    Letters → ℕ → Text → Posting → Text → ℕ → Store → Option (Store × Outcome)
unfolding link_or_create
first_sighting loc source adapter p etag now st =
    let (st', company) = resolve_company loc adapter p st in
    link_or_create loc source p etag now company st'
      (find_canonical_by_ats (nz p.ats_type) (nz p.ats_job_id) st')

on_source_row :
    Letters → ℕ → Text → Posting → Text → ℕ → Store → Option SourceRow → Option (Store × Outcome)
unfolding seen_before first_sighting
on_source_row loc source adapter p etag now st (some s) = seen_before loc p etag now s st
on_source_row loc source adapter p etag now st none =
    first_sighting loc source adapter p etag now st

committed : Store → Option (Store × Outcome) → Store × Option Outcome
committed st none = (st, none)
committed st (some (st', out)) = (st', some out)

-- The outcome, or `none` for an error.
unfoldable pub upsert : Letters → ℕ → Text → Posting → Text → Db → Store → Store × Option Outcome
unfolding on_source_row committed
upsert loc source adapter p etag db st =
    if db.up
    then committed st (
        on_source_row loc source adapter p etag db.now st
          (find_source_row source p.source_job_id st))
    else (st, none)
