-- ===== src/Stages/Normalizer.antt =====
-- internal/stages/normalize.go and its statements of internal/store/stages.sql.go: the handler of the
-- rows in state 'parsed'. `lower` and `upper` are Go's tables of case beyond ASCII.
pub mod Advancing
pub mod Current
pub mod Signed
use devsignal.Prelude.{
  ℕ, ◌+◌, ◌-◌, ◌^◌, Bool, true, false, ◌&&◌, Option, none, some, List, [], ◌∷◌, ◌++◌, map, length,
  filter, ltb, ◌==◌, if◌then◌else◌, bytes,
}
use devsignal.Prelude.Int.{ℤ, pos, negsuc}
use devsignal.Prelude.Text.{Text}
use devsignal.Prelude.Search.{find}
use devsignal.Pipeline.State.{State, is_state, next, NextResult, next_ok, no_successor}
use devsignal.Pipeline.Row.{Row, stamped}
use devsignal.Pipeline.Queue.{Item, Db}
use devsignal.Pipeline.Worker.{Outcome, handled, conflict, broken}
use devsignal.Normalize.Title.{Seniority, Family, parse_title}
use devsignal.Normalize.Location.{WorkMode, unstated, remote, hybrid, onsite, parse_location}
use devsignal.Dedupe.Tokens.{block_key}
use devsignal.Dedupe.SimHash.{sim_hash}

-- The columns that the stage derives.
pub record Derived : Type 0 where
  pub title_normalized : Text
  pub role_family : Option Family
  pub seniority_ordinal : Option Seniority
  pub is_management : Bool
  pub work_mode : Option Text
  pub location_country : Option Text
  pub location_city : Option Text
  pub remote_geo_scope : Option Text
  pub simhash : Option ℤ
  pub block_key : Option Text
  pub normalization_version : Option Text

-- The columns that it derives them from. `company_id` is the text of the UUID.
pub record Stated : Type 0 where
  pub title_raw : Text
  pub location_region : Option Text
  pub description_text : Option Text
  pub company_id : Text

pub record Listing : Type 0 where
  pub row : Row
  pub stated : Stated
  pub derived : Derived

abbrev pub deref_or : Option Text → Text → Text
deref_or none default = default
deref_or (some s) default = s

abbrev pub deref : Option Text → Text
deref s = deref_or s []

abbrev pub empty_to_nil : Text → Option Text
empty_to_nil [] = none
empty_to_nil (c ∷ s) = some (c ∷ s)

abbrev pub work_mode_text : WorkMode → Text
work_mode_text unstated = []
work_mode_text remote = bytes "remote"
work_mode_text hybrid = bytes "hybrid"
work_mode_text onsite = bytes "onsite"

-- The bits of a uint64 as an int64, and back in dedupe.go.
unfoldable pub signed_hash : ℕ → ℤ
signed_hash h = if ltb h (2 ^ 63) then pos h else negsuc (2 ^ 64 - h - 1)

unfoldable pub unsigned_hash : Option ℤ → ℕ
unsigned_hash none = 0
unsigned_hash (some (pos n)) = n
unsigned_hash (some (negsuc n)) = 2 ^ 64 - (n + 1)

-- The loop of joinScope over the countries after the first.
unfoldable pub join_rest : Text → List Text → Text
join_rest out [] = out
join_rest out (s ∷ scope) = join_rest (out ++ b',' ∷ s) scope

unfoldable pub join_scope : List Text → Option Text
unfolding join_rest
join_scope [] = none
join_scope (s ∷ scope) = some (join_rest s scope)

abbrev pub norm_version : Text
norm_version = bytes "norm-2026-08-21"

-- What Handle computes of the row that it has read.
unfoldable pub derive : (ℕ → ℕ) → (ℕ → ℕ) → Stated → Derived
unfolding join_scope signed_hash
derive lower upper s =
    let title = parse_title lower s.title_raw in
    let loc = parse_location lower upper (deref s.location_region) in
    record {
      title_normalized = title.normalized;
      role_family = title.role_family;
      seniority_ordinal = title.seniority;
      is_management = title.is_management;
      work_mode = empty_to_nil (work_mode_text loc.work_mode);
      location_country = loc.country;
      location_city = loc.city;
      remote_geo_scope = join_scope loc.geo_scope;
      simhash = some (signed_hash (sim_hash lower (s.title_raw ++ 32 ∷ deref s.description_text)));
      block_key = some (block_key lower upper s.company_id s.title_raw (deref_or loc.country []));
      normalization_version = some norm_version;
    }

pub record ApplyNormalizationParams : Type 0 where
  pub derived : Derived
  pub next_state : State
  pub id : ℕ
  pub version : ℕ
  pub current_state : State

-- The WHERE clause of ApplyNormalization.
unfoldable pub applies : ApplyNormalizationParams → Listing → Bool
applies p l =
    l.row.id == p.id && (l.row.version == p.version && is_state l.row.state p.current_state)

unfoldable pub apply_row : ApplyNormalizationParams → ℕ → Listing → Listing
unfolding applies
apply_row p now l =
    if applies p l
    then record l {
      derived = p.derived;
      row = stamped now l.row (record l.row {
        state = p.next_state;
        next_attempt_at = now;
        attempts = 0;
        last_error = none;
        lease_until = none;
        version = l.row.version + 1;
      });
    }
    else l

unfoldable pub apply_normalization : ApplyNormalizationParams → ℕ → List Listing → List Listing × ℕ
unfolding apply_row
apply_normalization p now ts = (map (apply_row p now) ts, length (filter (applies p) ts))

-- What fails, for the wording of the error.
pub data Fault : Type 0 where
  load_fault : Fault
  state_fault : State → Fault
  apply_fault : Fault

abbrev pub has_key : ℕ → Listing → Bool
has_key id l = l.row.id == id

-- No row affected is a conflict.
unfoldable pub applied : List Listing × ℕ → List Listing × Outcome
applied (ts, n) = (ts, if n == 0 then conflict else handled)

unfoldable pub write_derived :
    (Fault → Text) → Derived → Item → Db → List Listing → NextResult → List Listing × Outcome
unfolding apply_normalization applied
write_derived wording d it db ts (no_successor s) = (ts, broken (wording (state_fault s)))
write_derived wording d it db ts (next_ok n) =
    if db.up
    then applied (
        apply_normalization
          (record {
            derived = d;
            next_state = n;
            id = it.id;
            version = it.version;
            current_state = it.state;
          })
          db.now ts)
    else (ts, broken (wording apply_fault))

loaded :
    (ℕ → ℕ)
    → (ℕ → ℕ)
    → (Fault → Text)
    → Item
    → Db
    → List Listing
    → Option Listing
    → List Listing × Outcome
unfolding write_derived
loaded lower upper wording it db ts none = (ts, broken (wording load_fault))
loaded lower upper wording it db ts (some l) =
    write_derived wording (derive lower upper l.stated) it db ts (next it.state)

-- Handle reads the row, and writes it in a second statement; `others` is what is committed between
-- the two.
unfoldable pub handle_normalize :
    (ℕ → ℕ)
    → (ℕ → ℕ)
    → (Fault → Text)
    → Item
    → Db
    → (List Listing → List Listing)
    → Db
    → List Listing
    → List Listing × Outcome
unfolding loaded find
handle_normalize lower upper wording it read others write ts =
    loaded lower upper wording it write (others ts)
      (if read.up then find (has_key it.id) ts else none)
