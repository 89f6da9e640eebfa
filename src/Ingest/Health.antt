-- ===== src/Ingest/Health.antt =====
-- internal/ingest/health.go and internal/store/health.sql.go: each poll is counted into its day, and
-- the day is judged against the seven days before it. A day is a number; `up` says whether the
-- database runs a statement. fmt.Sprintf's wording of a reason is the parameter `detail`.
pub mod Policy
pub mod Days
use devsignal.Prelude.{
  ℕ, zero, suc, ◌+◌, Bool, true, false, not, ◌&&◌, ◌||◌, Option, none, some, List, [], ◌∷◌, ◌++◌,
  map, ltb, leb, ◌==◌, if◌then◌else◌, bytes,
}
use devsignal.Prelude.Text.{Text, join, is_empty}
use devsignal.Prelude.Search.{find, update}
use devsignal.Pipeline.Queue.{truncate}
use devsignal.SourceHealth.{
  Float64, Fill, Metrics, Reason, Verdict, Status, healthy, degraded, unknown, compare,
  should_quarantine,
}
use devsignal.Ingest.Run.{Result, usable}

pub data SourceStatus : Type 0 where
  active quarantined retired : SourceStatus

abbrev pub is_active : SourceStatus → Bool
is_active active = true
is_active _ = false

pub record Source : Type 0 where
  pub id : ℕ
  pub name : Text
  pub status : SourceStatus
  pub consecutive_degraded : ℕ
  pub last_health_note : Option Text
  pub last_success_at : Option ℕ
  pub last_failure_at : Option ℕ
  pub last_error : Option Text
  pub items_discovered : ℕ
  pub items_processed : ℕ
  pub parse_yield_7d : Option ℕ
  pub poll_interval : ℕ

-- A row of source_health_daily.
pub record HealthDay : Type 0 where
  pub source_id : ℕ
  pub day : ℕ
  pub polls : ℕ
  pub poll_failures : ℕ
  pub not_modified : ℕ
  pub postings_seen : ℕ
  pub postings_usable : ℕ
  pub with_company : ℕ
  pub with_location : ℕ
  pub with_apply_url : ℕ
  pub with_language : ℕ
  pub with_salary : ℕ

pub record Registry : Type 0 where
  pub sources : List Source
  pub days : List HealthDay

abbrev pub is_day : ℕ → ℕ → HealthDay → Bool
is_day source day h = h.source_id == source && h.day == day

-- ON CONFLICT: the counters add up within a day.
abbrev pub accumulate : HealthDay → HealthDay → HealthDay
accumulate p h = record h {
  polls = h.polls + p.polls;
  poll_failures = h.poll_failures + p.poll_failures;
  not_modified = h.not_modified + p.not_modified;
  postings_seen = h.postings_seen + p.postings_seen;
  postings_usable = h.postings_usable + p.postings_usable;
  with_company = h.with_company + p.with_company;
  with_location = h.with_location + p.with_location;
  with_apply_url = h.with_apply_url + p.with_apply_url;
  with_language = h.with_language + p.with_language;
  with_salary = h.with_salary + p.with_salary;
}

unfoldable pub upsert_day : HealthDay → List HealthDay → List HealthDay
upsert_day p [] = p ∷ []
upsert_day p (h ∷ days) =
    if is_day p.source_id p.day h then accumulate p h ∷ days else h ∷ upsert_day p days

unfoldable pub record_source_health : HealthDay → Registry → Registry
unfolding upsert_day
record_source_health p reg = record reg { days = upsert_day p reg.days }

unfoldable pub today_source_health : ℕ → ℕ → Registry → Option HealthDay
unfolding find
today_source_health source today reg = find (is_day source today) reg.days

abbrev no_day : ℕ → ℕ → HealthDay
no_day source day = record {
  source_id = source;
  day = day;
  polls = 0;
  poll_failures = 0;
  not_modified = 0;
  postings_seen = 0;
  postings_usable = 0;
  with_company = 0;
  with_location = 0;
  with_apply_url = 0;
  with_language = 0;
  with_salary = 0;
}

-- `day < CURRENT_DATE AND day >= CURRENT_DATE - window`
abbrev pub in_window : ℕ → ℕ → ℕ → HealthDay → Bool
in_window source today window h =
    h.source_id == source && ltb h.day today && leb today (h.day + window)

sum_window : ℕ → ℕ → ℕ → List HealthDay → HealthDay
sum_window source today window [] = no_day source today
sum_window source today window (h ∷ days) =
    let rest = sum_window source today window days in
    if in_window source today window h then accumulate h rest else rest

unfoldable pub baseline_source_health : ℕ → ℕ → ℕ → Registry → HealthDay
unfolding sum_window
baseline_source_health source today window reg = sum_window source today window reg.days

abbrev pub has_source_id : ℕ → Source → Bool
has_source_id id s = s.id == id

abbrev pub on_source : ℕ → (Source → Source) → Registry → Registry
on_source id f reg = record reg { sources = map (update (has_source_id id) f) reg.sources }

unfoldable pub clear_degraded : Source → Source
clear_degraded s =
    if s.consecutive_degraded == 0
    then s
    else record s { consecutive_degraded = 0; last_health_note = none }

unfoldable pub set_degraded : Text → Source → Source
set_degraded note s = record s {
  consecutive_degraded = s.consecutive_degraded + 1;
  last_health_note = some note;
}

unfoldable pub quarantine_degraded : Text → Source → Source
quarantine_degraded note s =
    if is_active s.status
    then record s { status = quarantined; last_health_note = some note }
    else s

unfoldable pub get_source_by_id : ℕ → Registry → Option Source
unfolding find
get_source_by_id id reg = find (has_source_id id) reg.sources

-- Whether the database runs each of the statements of one evaluation.
pub record Up : Type 0 where
  pub recording : Bool
  pub today : Bool
  pub baseline : Bool
  pub clearing : Bool
  pub marking : Bool
  pub loading : Bool
  pub quarantining : Bool

unfoldable pub metrics_of : HealthDay → Metrics
metrics_of h =
    let fill : Fill = record {
      company = h.with_company;
      location = h.with_location;
      apply_url = h.with_apply_url;
      language = h.with_language;
    } in
    record { postings = h.postings_seen; usable = h.postings_usable; fill = fill }

abbrev pub baseline_window_days : ℕ
baseline_window_days = 7

or_degraded : Text → Text
or_degraded [] = bytes "degraded"
or_degraded (c ∷ s) = c ∷ s

-- At most 500 bytes.
unfoldable pub summarize : {F : Type 0} → (Reason F → Text) → List (Reason F) → Text
unfolding truncate or_degraded
summarize detail reasons = or_degraded (truncate 500 (join (bytes "; ") (map detail reasons)))

-- The source as it is read back after it was marked.
quarantine_if : Up → ℕ → Text → Registry → Option Source → Registry
quarantine_if up id note reg none = reg
quarantine_if up id note reg (some s) =
    if up.loading && should_quarantine s.consecutive_degraded && up.quarantining
    then on_source id (quarantine_degraded note) reg
    else reg

unfoldable pub on_degraded : Up → ℕ → Text → Registry → Registry
unfolding quarantine_if set_degraded quarantine_degraded should_quarantine get_source_by_id
on_degraded up id note reg =
    let reg' = on_source id (set_degraded note) reg in
    if up.marking then quarantine_if up id note reg' (get_source_by_id id reg') else reg

unfoldable pub act_on : {F : Type 0} → (Reason F → Text) → Up → ℕ → Registry → Verdict F → Registry
unfolding on_degraded summarize clear_degraded
act_on detail up id reg v = elim v.status [
  | healthy ↦ if up.clearing then on_source id clear_degraded reg else reg
  | unknown ↦ reg
  | degraded ↦ on_degraded up id (summarize detail v.reasons) reg
]

judge_today :
    {F : Type 0}
    → Float64 F
    → (Reason F → Text)
    → Up
    → ℕ
    → ℕ
    → Registry
    → Option HealthDay
    → Registry
judge_today d detail up id today reg none = reg
judge_today d detail up id today reg (some h) =
    if up.today && up.baseline
    then act_on detail up id reg (
        compare d (metrics_of h)
          (metrics_of (baseline_source_health id today baseline_window_days reg)))
    else reg

unfoldable pub evaluate_health :
    {F : Type 0} → Float64 F → (Reason F → Text) → Up → ℕ → ℕ → Registry → Registry
unfolding judge_today act_on
evaluate_health d detail up id today reg =
    judge_today d detail up id today reg (today_source_health id today reg)

abbrev one_if : Bool → ℕ
one_if b = if b then 1 else 0

unfoldable pub poll_counts : ℕ → ℕ → Result → Bool → HealthDay
unfolding usable
poll_counts id today res failed = record {
  source_id = id;
  day = today;
  polls = 1;
  poll_failures = one_if failed;
  not_modified = one_if res.not_modified;
  postings_seen = res.fetched;
  postings_usable = usable res;
  with_company = res.with_company;
  with_location = res.with_location;
  with_apply_url = res.with_apply_url;
  with_language = res.with_language;
  with_salary = 0;
}

unfoldable pub record_health :
    {F : Type 0} → Float64 F → (Reason F → Text) → Up → ℕ → ℕ → Result → Bool → Registry → Registry
unfolding record_source_health evaluate_health poll_counts
record_health d detail up id today res failed reg =
    let reg' = record_source_health (poll_counts id today res failed) reg in
    if not up.recording
    then reg
    else if failed || res.not_modified
    then reg'
    else evaluate_health d detail up id today reg'
