-- ===== src/SourceHealth.antt =====
-- internal/sourcehealth: whether a source has degraded. The rates are float64, which is a parameter:
-- the operations that the code uses, as Go's compiler and the machine give them.

pub mod Rates
use devsignal.Prelude.{
  ℕ, ◌+◌, Bool, true, false, not, ◌||◌, List, [], ◌∷◌, ◌++◌, ltb, leb, ◌==◌, if◌then◌else◌, bytes,
}
use devsignal.Prelude.Text.{Text}

pub record Float64 (F : Type 0) : Type 0 where
  pub of_int : ℕ → F
  pub div : F → F → F
  pub sub : F → F → F
  pub mul : F → F → F
  pub to_int : F → ℕ
  pub lt : F → F → Bool
  pub le : F → F → Bool
  pub zero : F
  pub yield_drop_limit : F
  pub fill_drop_limit : F
  pub fill_floor_to_care : F

pub data Status : Type 0 where
  healthy degraded unknown : Status

pub data Field : Type 0 where
  company location apply_url language : Field

pub record Fill : Type 0 where
  pub company : ℕ
  pub location : ℕ
  pub apply_url : ℕ
  pub language : ℕ

-- The map `Fill` has an entry for each of the four fields. Counts are of rows, so they are not
-- negative.
pub record Metrics : Type 0 where
  pub postings : ℕ
  pub usable : ℕ
  pub fill : Fill

abbrev pub count_of : Field → Fill → ℕ
count_of company f = f.company
count_of location f = f.location
count_of apply_url f = f.apply_url
count_of language f = f.language

abbrev pub min_sample : ℕ
min_sample = 20

abbrev pub consecutive_to_quarantine : ℕ
consecutive_to_quarantine = 3

-- `insufficient_sample` has the two counts, the others the rates before and after.
pub data Reason (F : Type 0) : Type 0 where
  insufficient_sample : ℕ → ℕ → Reason F
  yield_drop : F → F → Reason F
  field_fill_drop : Field → F → F → Reason F

pub record Verdict (F : Type 0) : Type 0 where
  pub status : Status
  pub reasons : List (Reason F)

module _ {F : Type 0} (d : Float64 F) where
  unfoldable pub rate : ℕ → ℕ → F
  rate n total = if total == 0 then d.zero else d.div (d.of_int n) (d.of_int total)

  unfoldable pub yield_rate : Metrics → F
  unfolding rate
  yield_rate m = rate m.usable m.postings

  unfoldable pub fill_rate : Field → Metrics → F
  unfolding rate
  fill_rate f m = rate (count_of f m.fill) m.postings

  -- `(before - after) / before >= limit`
  unfoldable pub drops : F → F → F → Bool
  drops limit before after = d.le limit (d.div (d.sub before after) before)

  unfoldable pub yield_reasons : Metrics → Metrics → List (Reason F)
  unfolding yield_rate drops
  yield_reasons current baseline =
      let before = yield_rate baseline in
      let after = yield_rate current in
      if d.lt d.zero before
      then (if drops d.yield_drop_limit before after then yield_drop before after ∷ [] else [])
      else []

  unfoldable pub field_reasons : Metrics → Metrics → Field → List (Reason F)
  unfolding fill_rate drops
  field_reasons current baseline f =
      let before = fill_rate f baseline in
      let after = fill_rate f current in
      if d.lt before d.fill_floor_to_care
      then []
      else if drops d.fill_drop_limit before after
      then field_fill_drop f before after ∷ []
      else []

  -- The loop over alertingFields.
  unfoldable pub fill_reasons : Metrics → Metrics → List (Reason F)
  unfolding field_reasons
  fill_reasons current baseline =
      field_reasons current baseline company
      ++ field_reasons current baseline location
      ++ field_reasons current baseline apply_url
      ++ field_reasons current baseline language

  judged : List (Reason F) → Verdict F
  judged [] = record { status = healthy; reasons = [] }
  judged (r ∷ rs) = record { status = degraded; reasons = r ∷ rs }

  unfoldable pub compare : Metrics → Metrics → Verdict F
  unfolding yield_reasons fill_reasons judged
  compare current baseline =
      if ltb current.postings min_sample || ltb baseline.postings min_sample
      then record {
        status = unknown;
        reasons = insufficient_sample current.postings baseline.postings ∷ [];
      }
      else judged (yield_reasons current baseline ++ fill_reasons current baseline)

unfoldable pub should_quarantine : ℕ → Bool
should_quarantine consecutive_degraded = leb consecutive_to_quarantine consecutive_degraded
