-- ===== src/Ingest/RunnerExamples.antt =====
-- The theorems about internal/sourcehealth and about the runner of internal/ingest at concrete
-- sources, with thousandths in the place of float64.
use native.Mathlib.Nat.{
  div-mul-le_self, le-div_iff_mul-le, le_of_mul-le-mul_right, mul-le-mul_left, zero-div,
}
use devsignal.Prelude.{
  ℕ, ◌*◌, ◌/◌, ◌-◌, ◌≤◌, ◌<◌, ◌≡◌, refl, true, false, none, some, List, [], ◌∷◌, map, arith, bytes,
  ltb, leb,
}
use devsignal.Prelude.Text.{Text, cut}
use devsignal.Pipeline.Queue.{Db}
use devsignal.SourceHealth.{
  Float64, Fill, Metrics, Reason, healthy, Field, company, location, apply_url, language, count_of,
  compare,
}
use devsignal.SourceHealth.Rates.{exact, IsFloat64, no_worse_is_healthy}
use devsignal.Ingest.Store.{Store}
use devsignal.Ingest.Upsert.{Letters}
use devsignal.Ingest.Run.{Cursor, fetched, Adapter, Result, no_result, run_source}
use devsignal.Ingest.Rows.{Posting}
use devsignal.Ingest.Health.{
  Source, active, quarantined, HealthDay, Registry, Up, get_source_by_id, record_health,
  today_source_health, metrics_of, baseline_source_health,
}
use devsignal.Ingest.Health.Policy.{JudgedIn, health_policy}
use devsignal.Ingest.Health.Days.{record_polls, totals, day_is_sum}
use devsignal.Ingest.Runner.{
  Schedule, World, Json, Outside, During, pick_due, execute, build_adapter, decode_cursor,
}
use devsignal.Ingest.Runner.Schedules.{EndsWith, cursor_moves_on_success}

abbrev thousandths : Float64 ℕ
thousandths = record {
  of_int = λ n. n * 1000;
  div = λ x y. x * 1000 / y;
  sub = λ x y. x - y;
  mul = λ x y. x * y / 1000;
  to_int = λ x. x / 1000;
  lt = ltb;
  le = leb;
  zero = 0;
  yield_drop_limit = 100;
  fill_drop_limit = 200;
  fill_floor_to_care = 300;
}

quotients-le :
    (n t m u : ℕ)
    → 0 < t
    → 0 < u
    → n * u ≤ m * t
    → n * 1000 * 1000 / (t * 1000) ≤ m * 1000 * 1000 / (u * 1000)
quotients-le n t m u ht hu h =
    let q = n * 1000 * 1000 / (t * 1000) in
    let below : q * (t * 1000) ≤ n * 1000 * 1000 = div-mul-le_self (n * 1000 * 1000) (t * 1000) in
    let scaled : u * (q * (t * 1000)) ≤ u * (n * 1000 * 1000) = mul-le-mul_left u below in
    let above : q * (u * 1000) * t ≤ m * 1000 * 1000 * t = grind arith in
    (le-div_iff_mul-le {y = m * 1000 * 1000} (omega arith)).1 (le_of_mul-le-mul_right above ht)

leb_of_le : (a b : ℕ) → a ≤ b → leb a b ≡ true
leb_of_le a b h = ground arith

no_rise : (x y : ℕ) → leb x y ≡ true → leb ((x - y) * 1000 / x) 0 ≡ true
no_rise x y h = let z : x - y ≡ 0 = ground arith in rw (z, zero-div x) refl

thousandths-IsFloat64 : IsFloat64 thousandths
thousandths-IsFloat64 = record {
  quotient_mono = λ n t m u ht hu en et em eu h. leb_of_le _ _ (quotients-le n t m u ht hu h);
  no_drop = λ n t m u ht hu en et em eu p h. no_rise _ _ h;
  floor_positive = λ x _ h. ground arith;
  yield_limit_positive = λ x h. ground arith;
  fill_limit_positive = λ x h. ground arith;
}

abbrev window : ℕ → ℕ → ℕ → Metrics
window postings usable located =
    let fill : Fill = record {
      company = postings;
      location = located;
      apply_url = 0;
      language = 0;
    } in
    record { postings = postings; usable = usable; fill = fill }

window-exact :
    (postings usable located : ℕ) (f : Field)
    → postings < exact
    → located < exact
    → count_of f (window postings usable located).fill < exact
window-exact postings usable located company h k = h
window-exact postings usable located location h k = k
window-exact postings usable located apply_url h k = omega arith
window-exact postings usable located language h k = omega arith

as_full :
    (f : Field)
    → count_of f (window 500 490 480).fill * 50 ≤ count_of f (window 50 49 49).fill * 500
as_full company = omega arith
as_full location = omega arith
as_full apply_url = omega arith
as_full language = omega arith

no_worse_is_healthy_example :
    compare thousandths (window 50 49 49) (window 500 490 480)
    ≡ record { status = healthy; reasons = [] }
no_worse_is_healthy_example =
    no_worse_is_healthy thousandths thousandths-IsFloat64 (window 50 49 49) (window 500 490 480)
      (omega arith) (omega arith)
      (omega arith, omega arith, λ f. window-exact 50 49 49 f (omega arith) (omega arith))
      (omega arith, omega arith, λ f. window-exact 500 490 480 f (omega arith) (omega arith))
      (omega arith, as_full)

abbrev source : ℕ → ℕ → Source
source id marks = record {
  id = id;
  name = bytes "greenhouse:acme";
  status = active;
  consecutive_degraded = marks;
  last_health_note = none;
  last_success_at = none;
  last_failure_at = none;
  last_error = none;
  items_discovered = 0;
  items_processed = 0;
  parse_yield_7d = none;
  poll_interval = 300;
}

-- A day of 100 postings, of which so many were usable.
abbrev day : ℕ → ℕ → HealthDay
day today usable = record {
  source_id = 1;
  day = today;
  polls = 1;
  poll_failures = 0;
  not_modified = 0;
  postings_seen = 100;
  postings_usable = usable;
  with_company = 100;
  with_location = 100;
  with_apply_url = 100;
  with_language = 100;
  with_salary = 0;
}

abbrev registry : Registry
registry = record { sources = source 1 0 ∷ []; days = day 9 100 ∷ [] }

abbrev all_up : Up
all_up = record {
  recording = true;
  today = true;
  baseline = true;
  clearing = true;
  marking = true;
  loading = true;
  quarantining = true;
}

-- A poll of 100 postings, of which so many were stored.
abbrev result : ℕ → Result
result stored = record no_result {
  fetched = 100;
  unchanged = stored;
  skipped = 100 - stored;
  with_company = 100;
  with_location = 100;
  with_apply_url = 100;
  with_language = 100;
}

abbrev wording : Reason ℕ → Text
wording r = bytes "worse"

abbrev poll : ℕ → Registry → Registry
poll stored reg = record_health thousandths wording all_up 1 10 (result stored) false reg

-- One bad poll and two perfect ones on the same day: the source is quarantined.
one_bad_poll :
    map (λ s. s.status) (poll 100 (poll 100 (poll 10 registry))).sources ≡ quarantined ∷ []
unfolding record_health today_source_health compare metrics_of baseline_source_health
one_bad_poll = refl

-- The two perfect polls alone leave it active.
two_good_polls : map (λ s. s.status) (poll 100 (poll 100 registry)).sources ≡ active ∷ []
unfolding record_health today_source_health compare metrics_of baseline_source_health
two_good_polls = refl

health_policy_example : JudgedIn 1 (source 1 0) (poll 10 registry)
unfolding get_source_by_id
health_policy_example =
    (health_policy thousandths wording all_up 1 10 (source 1 0) (result 10) false registry refl).0

day_is_sum_example :
    (t : HealthDay) × (today_source_health 1 10 (record_polls (day 10 90 ∷ day 10 80 ∷ []) registry)
      ≡ some t)
    × (t.polls ≡ 2)
    × (t.poll_failures ≡ 0)
    × (t.not_modified ≡ 0)
    × (metrics_of t ≡ totals (day 10 90 ∷ day 10 80 ∷ []))
unfolding today_source_health
day_is_sum_example =
    day_is_sum 1 10 (day 10 90) (day 10 80 ∷ []) registry (refl, refl) ((refl, refl), tt) refl

abbrev schedule : ℕ → ℕ → Schedule
schedule id next = record {
  source_id = id;
  next_run_at = next;
  lease_until = none;
  last_run_at = none;
  cursor = bytes "{}";
}

abbrev no_tables : Store
no_tables = record { opportunities = []; source_rows = []; companies = []; next_id = 0 }

abbrev world : World
world = record {
  store = no_tables;
  registry = registry;
  schedules = schedule 1 40 ∷ schedule 2 30 ∷ [];
}

-- Source 2 is not in the registry, so only source 1 is due.
pick_test : pick_due (λ id. false) 50 5 world ≡ 1 ∷ []
unfolding pick_due
pick_test = refl

abbrev json : Json
json = record {
  marshal = λ c. some c.etag;
  unmarshal = λ b. record { etag = b; last_modified = []; since = 0 };
}

abbrev letters : Letters
letters = record { unicode = λ c. c; fold = λ t. t }

abbrev next_cursor : Cursor
next_cursor = record { etag = bytes "v2"; last_modified = []; since = 0 }

abbrev empty_board : Adapter (List Posting)
empty_board = record {
  id = bytes "greenhouse:acme";
  fetch = λ c. fetched [] next_cursor;
  parse = some;
}

abbrev outside : Outside (List Posting) ℕ
outside = record {
  build = λ family board. some empty_board;
  letters = letters;
  json = json;
  float64 = thousandths;
  detail = wording;
  build_message = λ name. name;
  message = λ e. bytes "failed";
}

abbrev up_at : ℕ → Db
up_at now = record { now = now; up = true }

abbrev during : During
during = record {
  now = 60;
  today = 10;
  tables = record { postings = λ k. up_at 60; misses = up_at 61; closing = up_at 62 };
  health = all_up;
  failing = true;
  succeeding = true;
  saving = true;
}

cursor_moves_on_success_example :
    EndsWith outside during
      (source 1 0)
      world
      (run_source letters 1 empty_board (decode_cursor json (bytes "{}")) during.tables no_tables)
      none
      (execute outside during (source 1 0) (bytes "{}") world)
unfolding build_adapter run_source cut
cursor_moves_on_success_example =
    cursor_moves_on_success outside during (source 1 0) world (bytes "{}") empty_board refl
