-- ===== src/Ingest/Runner.antt =====
-- internal/ingest/runner.go and cursor.go: sources that are due are claimed, polled and scheduled
-- again. The adapters that are registered, JSON, and the wording of errors are parameters; `up` says
-- which statements the database runs.
pub mod Claims
pub mod Schedules
use devsignal.Prelude.{
  ℕ, zero, suc, ◌+◌, ◌-◌, Bool, true, false, not, ◌&&◌, ◌||◌, Option, none, some, List, [], ◌∷◌,
  map, filter, take, ltb, leb, ◌==◌, if◌then◌else◌, bytes,
}
use devsignal.Prelude.Text.{Text, text_eq, cut, is_empty}
use devsignal.Prelude.Search.{find, update}
use devsignal.Pipeline.Row.{elem, lease_free}
use devsignal.Pipeline.Queue.{truncate, pg_interval}
use devsignal.SourceHealth.{Float64, Reason}
use devsignal.Ingest.Store.{Store}
use devsignal.Ingest.Upsert.{Letters}
use devsignal.Ingest.Run.{Cursor, Adapter, Result, usable, handled, Dbs, RunError, Ran, run_source}
use devsignal.Ingest.Health.{
  Source, SourceStatus, active, is_active, Registry, on_source, get_source_by_id, Up, record_health,
}

pub record Schedule : Type 0 where
  pub source_id : ℕ
  pub next_run_at : ℕ
  pub lease_until : Option ℕ
  pub last_run_at : Option ℕ
  pub cursor : Text

pub record World : Type 0 where
  pub store : Store
  pub registry : Registry
  pub schedules : List Schedule

-- The join with the source.
abbrev pub active_source : Option Source → Bool
active_source none = false
active_source (some s) = is_active s.status

-- The WHERE clause of ClaimDueSources.
unfoldable pub is_due : ℕ → Registry → Schedule → Bool
unfolding get_source_by_id
is_due now reg s =
    leb s.next_run_at now
    && lease_free now s.lease_until
    && active_source (get_source_by_id s.source_id reg)

insert_due : Schedule → List Schedule → List Schedule
insert_due s [] = s ∷ []
insert_due s (t ∷ ts) = if leb s.next_run_at t.next_run_at then s ∷ t ∷ ts else t ∷ insert_due s ts

-- ORDER BY next_run_at
unfoldable pub order_due : List Schedule → List Schedule
unfolding insert_due
order_due [] = []
order_due (s ∷ ss) = insert_due s (order_due ss)

-- SKIP LOCKED passes over rows that another transaction holds, then LIMIT counts.
unfoldable pub pick_due : (ℕ → Bool) → ℕ → ℕ → World → List ℕ
unfolding order_due is_due
pick_due locked now batch w =
    map (λ s. s.source_id)
      (take batch
        (order_due (filter (λ s. is_due now w.registry s && not (locked s.source_id)) w.schedules)))

unfoldable pub lease_schedule : List ℕ → ℕ → Schedule → Schedule
lease_schedule ids until s =
    if elem s.source_id ids then record s { lease_until = some until } else s

-- RETURNING gives the key and the cursor.
unfoldable pub claim_due_sources : (ℕ → Bool) → ℕ → ℕ → ℕ → World → World × List Schedule
unfolding pick_due lease_schedule
claim_due_sources locked lease batch now w =
    let ids = pick_due locked now batch w in
    let schedules = map (lease_schedule ids (now + lease)) w.schedules in
    (record w { schedules = schedules }, filter (λ s. elem s.source_id ids) schedules)

unfoldable pub record_source_failure : Text → ℕ → Source → Source
record_source_failure msg now s = record s { last_failure_at = some now; last_error = some msg }

unfoldable pub record_source_success : ℕ → ℕ → ℕ → ℕ → Source → Source
record_source_success discovered processed parse_yield now s = record s {
  last_success_at = some now;
  last_error = none;
  items_discovered = s.items_discovered + discovered;
  items_processed = s.items_processed + processed;
  parse_yield_7d = some parse_yield;
}

-- The subquery for the interval; a schedule without its source would have none.
interval_of : Option Source → ℕ
interval_of none = 0
interval_of (some s) = s.poll_interval

unfoldable pub save_source_cursor : ℕ → Text → ℕ → World → World
unfolding interval_of get_source_by_id
save_source_cursor id cursor now w =
    let next = now + interval_of (get_source_by_id id w.registry) in
    record w {
      schedules =
          map
            (update (λ s. s.source_id == id)
              (λ s. record s {
                cursor = cursor;
                last_run_at = some now;
                lease_until = none;
                next_run_at = next;
              }))
            w.schedules;
    }

-- encoding/json on a cursor.
pub record Json : Type 0 where
  pub marshal : Cursor → Option Text
  pub unmarshal : Text → Cursor

abbrev pub no_cursor : Cursor
no_cursor = record { etag = []; last_modified = []; since = 0 }

unfoldable pub decode_cursor : Json → Text → Cursor
decode_cursor json b = if is_empty b then no_cursor else json.unmarshal b

abbrev or_braces : Option Text → Text
or_braces none = bytes "{}"
or_braces (some b) = b

unfoldable pub encode_cursor : Json → Cursor → Text
encode_cursor json c = or_braces (json.marshal c)

-- The fraction of fetched documents that gave a record, and its four decimals.
unfoldable pub parse_yield : {F : Type 0} → Float64 F → Result → F
unfolding handled
parse_yield d r =
    let total = handled r in
    if total == 0 then d.of_int 1 else d.div (d.of_int (total - r.skipped)) (d.of_int total)

unfoldable pub numeric : {F : Type 0} → Float64 F → F → ℕ
numeric d f = d.to_int (d.mul f (d.of_int 10000))

-- What stands outside: the registered adapters by family and board, JSON, float64, the words.
pub record Outside (D F : Type 0) : Type 0 where
  pub build : Text → Text → Option (Adapter D)
  pub letters : Letters
  pub json : Json
  pub float64 : Float64 F
  pub detail : Reason F → Text
  pub build_message : Text → Text
  pub message : RunError → Text

-- The database during one poll.
pub record During : Type 0 where
  pub now : ℕ
  pub today : ℕ
  pub tables : Dbs
  pub health : Up
  pub failing : Bool
  pub succeeding : Bool
  pub saving : Bool

-- `<family>:<config>`
from_parts : {D F : Type 0} → Outside D F → Option (Text × Text) → Option (Adapter D)
from_parts out none = none
from_parts out (some (family, cfg)) = out.build family cfg

unfoldable pub build_adapter : {D F : Type 0} → Outside D F → Text → Option (Adapter D)
unfolding from_parts
build_adapter out name = from_parts out (cut b':' name)

abbrev pub set_registry : Registry → World → World
set_registry reg w = record w { registry = reg }

unfoldable pub record_failure : Bool → Text → ℕ → ℕ → Registry → Registry
unfolding truncate record_source_failure
record_failure up cause now id reg =
    if up then on_source id (record_source_failure (truncate 1000 cause) now) reg else reg

pub data Executed : Type 0 where
  executed : Result → Executed
  run_failed : Result → RunError → Executed
  build_failed : Executed

module _ {D F : Type 0} (out : Outside D F) (during : During) (src : Source) where
  after_failure : RunError → Ran → World → World
  unfolding record_failure record_health
  after_failure e x w =
      let reg = record_failure during.failing (out.message e) during.now src.id w.registry in
      record w {
        store = x.store;
        registry =
            record_health out.float64 out.detail during.health src.id during.today x.result true
              reg;
      }

  after_success : Ran → World → World
  unfolding record_health record_source_success save_source_cursor parse_yield numeric
  after_success x w =
      let r = x.result in
      let reg =
        record_health out.float64 out.detail during.health src.id during.today r false w.registry in
      let ok =
        record_source_success r.fetched (usable r) (numeric out.float64 (parse_yield out.float64 r))
          during.now in
      let reg' = if during.succeeding then on_source src.id ok reg else reg in
      let w' = record w { store = x.store; registry = reg' } in
      if during.saving
      then save_source_cursor src.id (encode_cursor out.json x.cursor) during.now w'
      else w'

  after_run : Ran → Option RunError → World → World × Executed
  unfolding after_failure after_success
  after_run x none w = (after_success x w, executed x.result)
  after_run x (some e) w = (after_failure e x w, run_failed x.result e)

  execute_with : Text → World → Option (Adapter D) → World × Executed
  unfolding after_run
  execute_with cursor_json w none = (
    set_registry
        (record_failure during.failing (out.build_message src.name) during.now src.id w.registry) w,
    build_failed,
  )
  execute_with cursor_json w (some a) =
      let x =
        run_source out.letters src.id a (decode_cursor out.json cursor_json) during.tables
          w.store in
      after_run x x.error w

  unfoldable pub execute : Text → World → World × Executed
  unfolding execute_with build_adapter
  execute cursor_json w = execute_with cursor_json w (build_adapter out src.name)

module _ {D F : Type 0} (out : Outside D F) where
  run_found : During → Text → World → Option Source → World
  run_found during cursor w none = w
  run_found during cursor w (some src) = (execute out during src cursor w).0

  -- `loads` says whether the database runs the read of the source.
  unfoldable pub run_one : Bool → During → Schedule → World → World
  unfolding run_found get_source_by_id
  run_one loads during s w =
      if loads then run_found during s.cursor w (get_source_by_id s.source_id w.registry) else w

  unfoldable pub run_due : (ℕ → Bool) → (ℕ → During) → List Schedule → World → World
  unfolding run_one
  run_due loads during [] w = w
  run_due loads during (s ∷ ss) w =
      run_due loads during ss (run_one (loads s.source_id) (during s.source_id) s w)

  -- The lease in nanoseconds, as a Go duration; `claims` says whether the database runs the claim.
  unfoldable pub tick : Bool → (ℕ → Bool) → (ℕ → Bool) → (ℕ → During) → ℕ → ℕ → ℕ → World → World
  unfolding claim_due_sources run_due
  tick claims locked loads during lease batch now w =
      let (w', due) = claim_due_sources locked (pg_interval lease) batch now w in
      if claims then run_due loads during due w' else w

  -- The stored cursor, or the empty object where it cannot be read.
  stored_cursor : Option Schedule → Text
  stored_cursor none = bytes "{}"
  stored_cursor (some s) = s.cursor

  run_named : During → World → Option Source → World × Option Executed
  unfolding stored_cursor find
  run_named during w none = (w, none)
  run_named during w (some src) =
      let cursor = stored_cursor (find (λ s. s.source_id == src.id) w.schedules) in
      let (w', x) = execute out during src cursor w in (w', some x)

  unfoldable pub run_once : During → Text → World → World × Option Executed
  unfolding run_named find
  run_once during name w = run_named during w (find (λ s. text_eq s.name name) w.registry.sources)
