-- ===== src/Dedupe/Decide.antt =====
-- internal/dedupe/decide.go: the cascade that judges a pair of postings.
pub mod Evidence
pub mod Titles
pub mod Urls
use mathlib.Core.List.{reverse}
use devsignal.Prelude.{
  ℕ, zero, suc, ◌+◌, ◌-◌, ◌*◌, ◌^◌, Bool, true, false, not, ◌&&◌, ◌||◌, Option, none, some, List,
  [], ◌∷◌, map, length, ltb, leb, ◌==◌, if◌then◌else◌, bytes,
}
use devsignal.Prelude.Float.{float_from}
use devsignal.Prelude.Text.{
  Text, text_eq, is_empty, has_word, trim_space, has_prefix, drop, to_lower_rune,
}
use devsignal.Dedupe.Tokens.{tokenize, drop_stop_words}
use devsignal.Dedupe.SimHash.{hamming}

abbrev pub max_hamming : ℕ
max_hamming = 9

abbrev pub min_text_for_fuzzy : ℕ
min_text_for_fuzzy = 400

abbrev pub min_title_tokens_for_fuzzy : ℕ
min_title_tokens_for_fuzzy = 3

pub data Reason : Type 0 where
  exact_ats : Reason
  content_hash : Reason
  apply_url : Reason
  simhash : Reason
  no_reason : Reason

pub record Candidate : Type 0 where
  pub company_id : Text
  pub ats_type : Text
  pub ats_job_id : Text
  pub apply_url : Text
  pub content_hash : List ℕ
  pub sim_hash : ℕ
  pub geo_scope : Text
  pub text_len : ℕ
  pub title : Text
  pub country : Text

-- A float32 confidence is in units of 2 ^ -28.
pub record Verdict : Type 0 where
  pub same : Bool
  pub reason : Reason
  pub confidence : ℕ

-- The float32 nearest to 0.75, 0.90 and 0.05, in these units.
abbrev pub min_auto_merge_confidence : ℕ
min_auto_merge_confidence = 201_326_592

abbrev pub nine_tenths : ℕ
nine_tenths = 241_591_904

abbrev pub a_twentieth : ℕ
a_twentieth = 13_421_773

-- The nearest float32. The units stand for numbers below 2 after five doublings.
unfoldable pub float32 : ℕ → ℕ
unfolding float_from
float32 n = float_from 5 24 1 n

unfoldable pub auto_apply : Verdict → Bool
auto_apply v = v.same && leb min_auto_merge_confidence v.confidence

-- `0.90 - float32(d)*0.05`
unfoldable pub fuzzy_confidence : ℕ → ℕ
unfolding float32
fuzzy_confidence d = float32 (nine_tenths - float32 (d * a_twentieth))

unfoldable pub geo_conflict : Candidate → Candidate → Bool
geo_conflict a b =
    if is_empty a.geo_scope || is_empty b.geo_scope
    then false
    else not (text_eq a.geo_scope b.geo_scope)

-- The loop over the words of the shorter title.
unfoldable pub all_in : List Text → List Text → Bool
all_in [] longer = true
all_in (w ∷ ws) longer = has_word w longer && all_in ws longer

unfoldable pub words_agree : List Text → List Text → Bool
unfolding all_in
words_agree ta tb =
    if length ta == 0 || length tb == 0
    then false
    else if ltb (length tb) (length ta)
    then all_in tb ta
    else all_in ta tb

unfoldable pub title_words : (ℕ → ℕ) → Text → List Text
title_words unicode t = drop_stop_words (tokenize unicode t)

unfoldable pub titles_agree : (ℕ → ℕ) → Text → Text → Bool
unfolding words_agree title_words
titles_agree unicode a b = words_agree (title_words unicode a) (title_words unicode b)

unfoldable pub title_is_specific : (ℕ → ℕ) → Text → Bool
unfolding title_words
title_is_specific unicode t = leb min_title_tokens_for_fuzzy (length (title_words unicode t))

-- `raw[:i]` at the first question mark or hash.
unfoldable pub before_query : Text → Text
before_query [] = []
before_query (c ∷ s) = if c == b'?' || c == b'#' then [] else c ∷ before_query s

unfoldable pub trim_prefix : Text → Text → Text
trim_prefix s p = if has_prefix s p then drop (length p) s else s

-- strings.TrimSuffix(raw, "/"), read from the end.
abbrev pub drop_slash : Text → Text
drop_slash [] = []
drop_slash (c ∷ s) = if c == b'/' then s else c ∷ s

unfoldable pub trim_slash : Text → Text
trim_slash s = reverse (drop_slash (reverse s))

unfoldable pub has_rune : ℕ → Text → Bool
has_rune r [] = false
has_rune r (c ∷ s) = c == r || has_rune r s

-- What is left of a URL that has lost its case and the space around it.
unfoldable pub url_key : Text → Option Text
unfolding before_query trim_prefix trim_slash has_rune
url_key raw =
    let path =
      trim_slash
        (before_query (trim_prefix (trim_prefix raw (bytes "https://")) (bytes "http://"))) in
    if is_empty raw
    then none
    else if is_empty path || not (has_rune b'/' path)
    then none
    else some path

unfoldable pub normalize_url : (ℕ → ℕ) → Text → Option Text
unfolding url_key
normalize_url unicode raw = url_key (trim_space (map (to_lower_rune unicode) raw))

-- `ok && ok2 && ua == ub`
abbrev pub same_url : Option Text → Option Text → Bool
same_url (some ua) (some ub) = text_eq ua ub
same_url _ _ = false

abbrev pub same_ats : Candidate → Candidate → Bool
same_ats a b =
    not (is_empty a.ats_type)
    && text_eq a.ats_type b.ats_type
    && not (is_empty a.ats_job_id)
    && text_eq a.ats_job_id b.ats_job_id

abbrev pub same_content : Candidate → Candidate → Bool
same_content a b = not (is_empty a.content_hash) && text_eq a.content_hash b.content_hash

-- The titles and signatures are there to compare texts with.
unfoldable pub comparable : (ℕ → ℕ) → Candidate → Candidate → Bool
unfolding titles_agree title_is_specific
comparable unicode a b =
    not (a.sim_hash == 0)
    && not (b.sim_hash == 0)
    && titles_agree unicode a.title b.title
    && title_is_specific unicode a.title
    && title_is_specific unicode b.title

-- The test of step 4 on a distance and the lengths of the two texts.
unfoldable pub near_at : ℕ → ℕ → ℕ → Bool
near_at d len_a len_b =
    let long_enough = leb min_text_for_fuzzy len_a && leb min_text_for_fuzzy len_b in
    d == 0 || leb d max_hamming && long_enough

abbrev pub near : Candidate → Candidate → Bool
near a b = near_at (hamming a.sim_hash b.sim_hash) a.text_len b.text_len

abbrev pub no_verdict : Verdict
no_verdict = record { same = false; reason = no_reason; confidence = 0 }

abbrev pub merge : Reason → ℕ → Verdict
merge reason confidence = record { same = true; reason = reason; confidence = confidence }

unfoldable pub decide : (ℕ → ℕ) → Candidate → Candidate → Verdict
unfolding geo_conflict normalize_url comparable near_at hamming fuzzy_confidence
decide unicode a b =
    if is_empty a.company_id || not (text_eq a.company_id b.company_id)
    then no_verdict
    else if same_ats a b
    then merge exact_ats (2 ^ 28)
    else if geo_conflict a b
    then no_verdict
    else if same_content a b
    then merge content_hash 265_751_104
    else if same_url (normalize_url unicode a.apply_url) (normalize_url unicode b.apply_url)
    then merge apply_url 260_382_400
    else if comparable unicode a b && near a b
    then merge simhash (fuzzy_confidence (hamming a.sim_hash b.sim_hash))
    else no_verdict
