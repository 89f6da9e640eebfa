-- ===== src/Ingest/Run.antt =====
-- internal/ingest/ingest.go: `RunSource`, one poll of a source. The adapter is a parameter: what it
-- fetches and what it makes of a document. The number of postings handled so far picks the entry of
-- `postings`: when the next transaction runs, and whether the database carries it through.
pub mod Induct
pub mod Counters
pub mod Liveness
pub mod Absence
pub mod Seen
use devsignal.Prelude.{
  ℕ, ◌+◌, Bool, true, false, not, ◌||◌, Option, none, some, List, [], ◌∷◌, ◌++◌, length, ◌==◌,
  if◌then◌else◌,
}
use devsignal.Prelude.Text.{Text, is_empty}
use devsignal.Pipeline.Queue.{Db}
use devsignal.Ingest.Rows.{Posting}
use devsignal.Ingest.Store.{Store, bump_misses, close_missed}
use devsignal.Ingest.Upsert.{Letters, Outcome, unchanged, created, updated, upsert}

pub record Cursor : Type 0 where
  pub etag : Text
  pub last_modified : Text
  pub since : ℕ

pub data Fetched (D : Type 0) : Type 0 where
  fetched : List D → Cursor → Fetched D
  not_modified : Fetched D
  fetch_failed : Fetched D

-- source.Adapter; a document that does not parse is `none`.
pub record Adapter (D : Type 0) : Type 0 where
  pub id : Text
  pub fetch : Cursor → Fetched D
  pub parse : D → Option (List Posting)

pub record Result : Type 0 where
  pub fetched : ℕ
  pub created : ℕ
  pub updated : ℕ
  pub unchanged : ℕ
  pub skipped : ℕ
  pub missed : ℕ
  pub closed : ℕ
  pub with_company : ℕ
  pub with_location : ℕ
  pub with_apply_url : ℕ
  pub with_language : ℕ
  pub not_modified : Bool

abbrev pub max_consecutive_misses : ℕ
max_consecutive_misses = 2

pub data RunError : Type 0 where
  fetch_error parse_error misses_error closing_error : RunError

abbrev pub no_result : Result
no_result = record {
  fetched = 0;
  created = 0;
  updated = 0;
  unchanged = 0;
  skipped = 0;
  missed = 0;
  closed = 0;
  with_company = 0;
  with_location = 0;
  with_apply_url = 0;
  with_language = 0;
  not_modified = false;
}

unfoldable pub usable : Result → ℕ
usable r = r.created + r.updated + r.unchanged

-- The postings that the loops have handled.
unfoldable pub handled : Result → ℕ
unfolding usable
handled r = usable r + r.skipped

pub record Dbs : Type 0 where
  pub postings : ℕ → Db
  pub misses : Db
  pub closing : Db

-- What the loops carry.
pub record Progress : Type 0 where
  pub store : Store
  pub result : Result
  pub seen : List Text

abbrev one_if_any : Text → ℕ
one_if_any [] = 0
one_if_any (c ∷ s) = 1

unfoldable pub count_fields : Posting → Result → Result
count_fields p r = record r {
  with_company = r.with_company + one_if_any p.company_name;
  with_location = r.with_location + one_if_any p.location_raw;
  with_apply_url = r.with_apply_url + one_if_any p.apply_url;
  with_language = r.with_language + one_if_any p.language;
}

abbrev skip : Result → Result
skip r = record r { skipped = r.skipped + 1 }

unfoldable pub count_outcome : Outcome → Result → Result
count_outcome created r = record r { created = r.created + 1 }
count_outcome updated r = record r { updated = r.updated + 1 }
count_outcome unchanged r = record r { unchanged = r.unchanged + 1 }

unfoldable pub after_upsert : Posting → Progress → Store × Option Outcome → Progress
unfolding count_fields count_outcome
after_upsert p g (st, none) = record {
  store = st;
  result = skip (count_fields p g.result);
  seen = g.seen;
}
after_upsert p g (st, some out) = record {
  store = st;
  result = count_outcome out (count_fields p g.result);
  seen = g.seen ++ p.source_job_id ∷ [];
}

unfoldable pub count_fetched : ℕ → Progress → Progress
count_fetched n g = record g { result = record g.result { fetched = g.result.fetched + n } }

module _ (loc : Letters) (source : ℕ) (adapter : Text) (etag : Text) (postings : ℕ → Db) where
  unfoldable pub take_posting : Posting → Progress → Progress
  unfolding after_upsert
  take_posting p g =
      if is_empty p.ats_job_id || is_empty p.title
      then record g { result = skip g.result }
      else after_upsert p g (upsert loc source adapter p etag (postings (handled g.result)) g.store)

  unfoldable pub take_postings : List Posting → Progress → Progress
  unfolding take_posting
  take_postings [] g = g
  take_postings (p ∷ ps) g = take_postings ps (take_posting p g)

  -- The documents in order; the flag says whether all of them parsed.
  unfoldable pub take_docs :
      {D : Type 0} → (D → Option (List Posting)) → List D → Progress → Progress × Bool
  unfolding count_fetched
  take_docs parse [] g = (g, true)
  take_docs parse (d ∷ ds) g = elim (parse d) [
    | none ↦ (g, false)
    | some ps ↦ take_docs parse ds (take_postings ps (count_fetched (length ps) g))
  ]

pub record Ran : Type 0 where
  pub store : Store
  pub result : Result
  pub cursor : Cursor
  pub error : Option RunError

-- Absence, only after every document has parsed.
unfoldable pub settle : ℕ → Dbs → Cursor → Progress → Ran
unfolding bump_misses close_missed
settle source db next g =
    let (st, missed) = bump_misses source g.seen db.misses.now g.store in
    let r = record g.result { missed = missed } in
    let (st', closed) = close_missed max_consecutive_misses db.closing.now st in
    if not db.misses.up
    then record { store = g.store; result = g.result; cursor = next; error = some misses_error }
    else if not db.closing.up
    then record { store = st; result = r; cursor = next; error = some closing_error }
    else record { store = st'; result = record r { closed = closed }; cursor = next; error = none }

unfoldable pub after_docs : ℕ → Dbs → Cursor → Cursor → Progress × Bool → Ran
unfolding settle
after_docs source db cur next (g, true) = settle source db next g
after_docs source db cur next (g, false) = record {
  store = g.store;
  result = g.result;
  cursor = cur;
  error = some parse_error;
}

unfoldable pub after_fetch :
    {D : Type 0} → Letters → ℕ → Adapter D → Cursor → Dbs → Store → Fetched D → Ran
unfolding after_docs take_docs
after_fetch loc source a cur db st not_modified = record {
  store = st;
  result = record no_result { not_modified = true };
  cursor = cur;
  error = none;
}
after_fetch loc source a cur db st fetch_failed = record {
  store = st;
  result = no_result;
  cursor = cur;
  error = some fetch_error;
}
after_fetch loc source a cur db st (fetched docs next) = after_docs source db cur next (
    take_docs loc source a.id next.etag db.postings a.parse docs
      (record { store = st; result = no_result; seen = [] }))

unfoldable pub run_source : {D : Type 0} → Letters → ℕ → Adapter D → Cursor → Dbs → Store → Ran
unfolding after_fetch
run_source loc source a cur db st = after_fetch loc source a cur db st (a.fetch cur)
