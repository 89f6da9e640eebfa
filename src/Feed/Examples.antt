-- ===== src/Feed/Examples.antt =====
-- The theorems about internal/opportunity at concrete postings, and tests of the mapping.
use devsignal.Prelude.{
  ℕ, ◌≡◌, refl, Bool, true, false, Option, none, some, List, [], ◌∷◌, map, bytes, arith,
}
use devsignal.Prelude.Int.{ℤ, pos}
use devsignal.Prelude.Text.{Text}
use devsignal.Pipeline.State.{ready}
use devsignal.Feed.Mapping.{Entry, money, seniority_label, split_scope}
use devsignal.Feed.List.{Key, ListFilter, is_served, order_entries, page_size}
use devsignal.Feed.Ordering.{IsOrdered}
use devsignal.Feed.Paging.{summary, follow, feed, follow-feed}
use devsignal.Feed.Scope.{split_scope-join_scope}
use devsignal.Normalize.Location.{parse_location}
use devsignal.Stages.Normalizer.{join_scope}

abbrev entry : ℕ → ℕ → Entry
entry id seen = record {
  id = id;
  title_raw = bytes "Go Engineer";
  pipeline_state = ready;
  role_family = none;
  seniority_ordinal = some 4;
  is_management = false;
  work_mode = none;
  location_country = none;
  location_city = none;
  remote_geo_scope = none;
  language = none;
  apply_method = none;
  salary_min_minor = none;
  salary_max_minor = none;
  salary_currency = none;
  salary_period = none;
  salary_is_estimated = false;
  visa_sponsorship = bytes "unknown";
  first_seen_at = seen;
  last_seen_at = seen;
  liveness_checked_at = none;
  source_reported_posted_at = none;
  repost_count = 0;
  closed_at = none;
  merged_into = none;
  company_name = bytes "Acme";
  domain_confirmed = true;
  apply_url = none;
  source_count = 1;
}

-- A cursor as two numbers.
abbrev encode : Key → Text
encode k = k.seen ∷ k.id ∷ []

abbrev decode : Text → Option Key
decode (s ∷ i ∷ []) = some (record { seen = s; id = i })
decode _ = none

abbrev never_like : Text → Text → Bool
never_like t s = false

abbrev no_days : ℤ → ℤ
no_days d = pos 0

abbrev one_by_one : ListFilter
one_by_one = record {
  role_family = none;
  work_mode = none;
  country = none;
  page_size = pos 1;
  cursor = [];
}

abbrev postings : List Entry
postings = entry 1 50 ∷ entry 2 70 ∷ entry 3 50 ∷ []

follow-feed_example :
    (follow never_like encode decode no_days (pos 9) postings 4 one_by_one
      ≡ map
          (summary never_like encode decode no_days (pos 9) postings)
          (feed never_like encode decode no_days (pos 9) postings one_by_one))
    × IsOrdered (feed never_like encode decode no_days (pos 9) postings one_by_one)
unfolding is_served order_entries
follow-feed_example =
    follow-feed never_like encode decode no_days (pos 9) postings
      (((λ h. ground arith), ((λ h. ground arith), tt)), (((λ h. ground arith), tt), (tt, tt)))
      (λ k. refl) (λ k. refl) 4 one_by_one refl (omega arith)

split_scope-join_scope_example :
    split_scope (
      join_scope
        (parse_location
          (λ c. c)
          (λ c. c)
          (bytes "Remote, Canada; Remote, United States")).geo_scope)
    ≡ (parse_location (λ c. c) (λ c. c) (bytes "Remote, Canada; Remote, United States")).geo_scope
split_scope-join_scope_example =
    split_scope-join_scope (λ c. c) (λ c. c) (bytes "Remote, Canada; Remote, United States")

money_test : money none none (some (bytes "EUR")) none true ≡ none
unfolding money
money_test = refl

label_test : seniority_label (some 5) ≡ some (bytes "staff")
unfolding seniority_label
label_test = refl

size_test : (page_size (pos 0) ≡ 25) × (page_size (pos 900) ≡ 100)
unfolding page_size
size_test = (refl, refl)
