-- ===== src/Feed/Mapping.antt =====
-- internal/opportunity/dto.go and the mapping in service.go: what the feed shows of a row. A time is
-- in microseconds; the ghost risk counts in nanoseconds.
use devsignal.Prelude.{
  ℕ, ◌*◌, Bool, not, ◌&&◌, Option, none, some, List, [], ◌∷◌, ◌++◌, ◌==◌, if◌then◌else◌, bytes,
}
use devsignal.Prelude.Int.{ℤ, pos}
use devsignal.Prelude.Text.{Text, is_empty}
use devsignal.Pipeline.State.{State}
use devsignal.Pipeline.Row.{is_null}
use devsignal.GhostRisk.{Band, Reason, assess, days_open}

-- The columns of ListOpportunities, and those of its WHERE clause.
pub record Entry : Type 0 where
  pub id : ℕ
  pub title_raw : Text
  pub pipeline_state : State
  pub role_family : Option Text
  pub seniority_ordinal : Option ℕ
  pub is_management : Bool
  pub work_mode : Option Text
  pub location_country : Option Text
  pub location_city : Option Text
  pub remote_geo_scope : Option Text
  pub language : Option Text
  pub apply_method : Option Text
  pub salary_min_minor : Option ℤ
  pub salary_max_minor : Option ℤ
  pub salary_currency : Option Text
  pub salary_period : Option Text
  pub salary_is_estimated : Bool
  pub visa_sponsorship : Text
  pub first_seen_at : ℕ
  pub last_seen_at : ℕ
  pub liveness_checked_at : Option ℕ
  pub source_reported_posted_at : Option ℕ
  pub repost_count : ℕ
  pub closed_at : Option ℕ
  pub merged_into : Option ℕ
  pub company_name : Text
  pub domain_confirmed : Bool
  pub apply_url : Option Text
  pub source_count : ℕ

pub record Money : Type 0 where
  pub min_minor : ℤ
  pub max_minor : Option ℤ
  pub currency : Text
  pub period : Text
  pub is_estimated : Bool

pub record Company : Type 0 where
  pub name : Text
  pub domain_confirmed : Bool

pub record Location : Type 0 where
  pub country : Option Text
  pub city : Option Text
  pub work_mode : Option Text
  pub geo_scope : List Text

pub record Role : Type 0 where
  pub family : Option Text
  pub seniority : Option Text
  pub is_management : Bool

pub record Liveness : Type 0 where
  pub verified_open : Bool
  pub checked_at : Option ℕ
  pub first_seen_at : ℕ
  pub days_open : ℤ
  pub source_claims_posted_at : Option ℕ

pub record Signals : Type 0 where
  pub ghost_risk : Band
  pub ghost_risk_reasons : List Reason
  pub times_refreshed : ℕ
  pub sources_seen_on : ℕ
  pub apply_method : Option Text

pub record Summary : Type 0 where
  pub id : ℕ
  pub title : Text
  pub company : Company
  pub role : Role
  pub location : Location
  pub salary : Option Money
  pub visa_sponsorship : Text
  pub language : Option Text
  pub apply_url : Option Text
  pub liveness : Liveness
  pub signals : Signals

-- The map seniorityLabels.
abbrev seniority_labels : List (ℕ × Text)
seniority_labels =
    (1, bytes "intern")
    ∷ (2, bytes "junior")
    ∷ (3, bytes "mid")
    ∷ (4, bytes "senior")
    ∷ (5, bytes "staff")
    ∷ (6, bytes "principal")
    ∷ []

unfoldable pub label_in : ℕ → List (ℕ × Text) → Option Text
label_in n [] = none
label_in n (l ∷ ls) = if l.0 == n then some l.1 else label_in n ls

unfoldable pub seniority_label : Option ℕ → Option Text
unfolding label_in
seniority_label none = none
seniority_label (some n) = label_in n seniority_labels

abbrev or_empty : Option Text → Text
or_empty none = []
or_empty (some s) = s

abbrev or_zero : Option ℤ → ℤ
or_zero none = pos 0
or_zero (some n) = n

unfoldable pub money : Option ℤ → Option ℤ → Option Text → Option Text → Bool → Option Money
money min max currency period estimated =
    if is_null min && is_null max
    then none
    else some (record {
      min_minor = or_zero min;
      max_minor = max;
      currency = or_empty currency;
      period = or_empty period;
      is_estimated = estimated;
    })

-- strings.Split at a comma; `cur` is the part so far.
unfoldable pub split_from : Text → Text → List Text
split_from cur [] = cur ∷ []
split_from cur (c ∷ s) =
    let next = split_from [] s in
    let same = split_from (cur ++ c ∷ []) s in if c == b',' then cur ∷ next else same

unfoldable pub split_scope : Option Text → List Text
unfolding split_from
split_scope none = []
split_scope (some s) = if is_empty s then [] else split_from [] s

abbrev nanoseconds : ℕ → ℤ
nanoseconds t = pos (t * 1000)

unfoldable pub liveness : (ℤ → ℤ) → Option ℕ → Option ℕ → ℕ → Option ℕ → ℤ → Liveness
liveness days_of closed_at checked_at first_seen their_posted now = record {
  verified_open = is_null closed_at;
  checked_at = checked_at;
  first_seen_at = first_seen;
  days_open = days_open days_of (nanoseconds first_seen) now;
  source_claims_posted_at = their_posted;
}

unfoldable pub signals : (ℤ → ℤ) → ℕ → ℕ → Option Text → ℕ → ℕ → ℤ → ℤ → Signals
signals days_of repost_count source_count apply_method first_seen last_seen median now =
    let a =
      assess days_of
        (record {
          first_seen_at = nanoseconds first_seen;
          last_verified_at = nanoseconds last_seen;
          repost_count = pos repost_count;
          has_apply_method = not (is_empty (or_empty apply_method));
          company_median_days_to_close = median;
        })
        now in
    record {
      ghost_risk = a.band;
      ghost_risk_reasons = a.reasons;
      times_refreshed = repost_count;
      sources_seen_on = source_count;
      apply_method = apply_method;
    }

-- The list assesses without the pace of the company.
unfoldable pub summary_from_list : (ℤ → ℤ) → Entry → ℤ → Summary
unfolding liveness signals money split_scope seniority_label
summary_from_list days_of r now = record {
  id = r.id;
  title = r.title_raw;
  company = record { name = r.company_name; domain_confirmed = r.domain_confirmed };
  role = record {
    family = r.role_family;
    seniority = seniority_label r.seniority_ordinal;
    is_management = r.is_management;
  };
  location = record {
    country = r.location_country;
    city = r.location_city;
    work_mode = r.work_mode;
    geo_scope = split_scope r.remote_geo_scope;
  };
  salary =
      money r.salary_min_minor r.salary_max_minor r.salary_currency r.salary_period
        r.salary_is_estimated;
  visa_sponsorship = r.visa_sponsorship;
  language = r.language;
  apply_url = r.apply_url;
  liveness =
      liveness days_of none r.liveness_checked_at r.first_seen_at r.source_reported_posted_at now;
  signals =
      signals days_of r.repost_count r.source_count r.apply_method r.first_seen_at r.last_seen_at
        (pos 0) now;
}
