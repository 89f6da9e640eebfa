-- ===== src/Dedupe/Examples.antt =====
-- The theorems about internal/dedupe at concrete postings, and tests of its functions.
use devsignal.Prelude.{ℕ, ◌≡◌, ◌≢◌, refl, true, false, some, [], ◌∷◌, length, arith, bytes}
use devsignal.Prelude.Text.{Text, text_eq, trim_space, is_space, to_lower_rune, has_prefix, drop}
use devsignal.Dedupe.Tokens.{drop_stop_words, tokenize, block_key}
use devsignal.Dedupe.SimHash.{sim_hash, fnv64a}
use devsignal.Dedupe.Decide.{
  Candidate, simhash, exact_ats, decide, normalize_url, title_words, fuzzy_confidence, titles_agree,
}
use devsignal.Dedupe.Decide.Evidence.{Grounds, decide-Justified, decide_complete}
use devsignal.Dedupe.Decide.Titles.{decide_sym}
use devsignal.Dedupe.Decide.Urls.{IsPlainPath}

-- The texts below are ASCII.
abbrev same_rune : ℕ → ℕ
same_rune c = c

abbrev posting : Text → Text → ℕ → Candidate
posting ats_job_id title sim_hash = record {
  company_id = bytes "acme";
  ats_type = bytes "greenhouse";
  ats_job_id = ats_job_id;
  apply_url = [];
  content_hash = [];
  sim_hash = sim_hash;
  geo_scope = bytes "DE";
  text_len = 900;
  title = title;
  country = bytes "DE";
}

abbrev backend : Candidate
backend = posting (bytes "1") (bytes "Senior Backend Engineer") 5

abbrev payments : Candidate
payments = posting (bytes "2") (bytes "Senior Backend Engineer - Payments") 6

test_decide : (decide same_rune backend payments).reason ≡ simhash
unfolding decide text_eq trim_space drop_stop_words tokenize
test_decide = refl

test_key :
    normalize_url same_rune (bytes " HTTPS://Jobs.Example.com/a/1/?utm=x ")
    ≡ some (bytes "jobs.example.com/a/1")
unfolding normalize_url trim_space is_space to_lower_rune has_prefix drop
test_key = refl

test_tokens :
    tokenize same_rune (bytes "<b>C++</b>, C# & Go") ≡ bytes "c++" ∷ bytes "c#" ∷ bytes "go" ∷ []
unfolding tokenize
test_tokens = refl

test_block_key :
    block_key same_rune same_rune (bytes "acme") (bytes "Senior Backend Engineer") (bytes "DE")
    ≡ bytes "acme|backend-engineer-senior|DE"
unfolding block_key
test_block_key = refl

-- The published FNV-1a value of "a".
test_fnv : fnv64a (bytes "a") ≡ 0xaf63dc4c8601ec8c
unfolding fnv64a
test_fnv = refl

-- A word that one title repeats makes the two directions differ.
test_titles_asymmetric :
    (titles_agree same_rune (bytes "data data engineer") (bytes "data engineer remote") ≡ true)
    × (titles_agree same_rune (bytes "data engineer remote") (bytes "data data engineer") ≡ false)
unfolding titles_agree drop_stop_words tokenize
test_titles_asymmetric = (refl, refl)

-- The far edge of max_hamming: 0.45.
test_far_edge : fuzzy_confidence 9 ≡ 120_795_944
unfolding fuzzy_confidence
test_far_edge = refl

decide-Justified_example :
    (backend.company_id ≢ [])
    × (backend.company_id ≡ payments.company_id)
    × Grounds same_rune backend payments (decide same_rune backend payments).reason
unfolding decide text_eq trim_space drop_stop_words tokenize
decide-Justified_example = decide-Justified same_rune backend payments refl

decide_complete_example : (decide same_rune backend backend).same ≡ true
decide_complete_example =
    decide_complete same_rune backend backend exact_ats (λ e. ground (arith, e)) refl
      ((λ e. ground (arith, e)), refl, (λ e. ground (arith, e)), refl)

four_not_three :
    length (title_words same_rune backend.title) ≢ length (title_words same_rune payments.title)
unfolding title_words drop_stop_words tokenize
four_not_three = λ e. omega (arith, e)

decide_sym_example : decide same_rune backend payments ≡ decide same_rune payments backend
decide_sym_example = decide_sym same_rune backend payments four_not_three

abbrev path : Text
path = bytes "a.io/1"

path-IsPlainPath : IsPlainPath path
unfolding has_prefix
path-IsPlainPath = record {
  filled = λ e. ground (arith, e);
  clean = (refl, (refl, (refl, (refl, (refl, (refl, tt))))));
  no_https = refl;
  no_http = refl;
}
