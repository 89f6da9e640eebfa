-- ===== src/Dedupe/Decide/Titles.antt =====
-- `titlesAgree` and the order of the two postings.
use devsignal.Prelude.{
  ℕ, ◌≡◌, ◌≢◌, refl, ap, not, ◌&&◌, ◌||◌, Option, none, some, List, [], ◌∷◌, length, arith,
}
use devsignal.Prelude.Text.{Text, text_eq, text_eq_iff, is_empty}
use devsignal.Dedupe.SimHash.{hamming}
use devsignal.Dedupe.SimHash.Hamming.{hamming_metric}
use devsignal.Dedupe.Decide.{
  Candidate, words_agree, title_words, titles_agree, geo_conflict, normalize_url, same_url,
  same_ats, comparable, near, near_at, decide,
}

-- With different numbers of words the shorter title is the same from both sides.
words_agree_sym :
    (ta tb : List Text) → length ta ≢ length tb → words_agree ta tb ≡ words_agree tb ta
unfolding words_agree
words_agree_sym ta tb n = ground arith

text_eq_sym : (s t : Text) → text_eq s t ≡ text_eq t s
text_eq_sym s t = ground (arith, text_eq_iff s t, text_eq_iff t s)

-- The guards of the cascade are the same from both sides.
unequal_sym : (s t : Text) → (is_empty s || not (text_eq s t)) ≡ (is_empty t || not (text_eq t s))
unfolding text_eq
unequal_sym [] [] = refl
unequal_sym [] (d ∷ t) = refl
unequal_sym (c ∷ s) [] = refl
unequal_sym (c ∷ s) (d ∷ t) = ap not (text_eq_sym (c ∷ s) (d ∷ t))

equal_sym : (s t : Text) → (not (is_empty s) && text_eq s t) ≡ (not (is_empty t) && text_eq t s)
unfolding text_eq
equal_sym [] [] = refl
equal_sym [] (d ∷ t) = refl
equal_sym (c ∷ s) [] = refl
equal_sym (c ∷ s) (d ∷ t) = text_eq_sym (c ∷ s) (d ∷ t)

geo_conflict_sym : (a b : Candidate) → geo_conflict a b ≡ geo_conflict b a
unfolding geo_conflict
geo_conflict_sym a b = rw (text_eq_sym a.geo_scope b.geo_scope) (ground arith)

hamming_sym : (x y : ℕ) → hamming x y ≡ hamming y x
hamming_sym x y = (hamming_metric x y x).1

same_ats_sym : (a b : Candidate) → same_ats a b ≡ same_ats b a
same_ats_sym a b =
    ground (arith, equal_sym a.ats_type b.ats_type, equal_sym a.ats_job_id b.ats_job_id)

near_at_sym : (d m n : ℕ) → near_at d m n ≡ near_at d n m
unfolding near_at
near_at_sym d m n = ground arith

near_sym : (a b : Candidate) → near a b ≡ near b a
near_sym a b = rw (hamming_sym a.sim_hash b.sim_hash) (near_at_sym _ a.text_len b.text_len)

comparable_sym :
    (unicode : ℕ → ℕ) (a b : Candidate)
    → titles_agree unicode a.title b.title ≡ titles_agree unicode b.title a.title
    → comparable unicode a b ≡ comparable unicode b a
unfolding comparable
comparable_sym unicode a b e = ground arith

same_url_sym : (x y : Option Text) → same_url x y ≡ same_url y x
same_url_sym (some u) (some v) = text_eq_sym u v
same_url_sym (some u) none = refl
same_url_sym none (some v) = refl
same_url_sym none none = refl

-- The verdict does not depend on which posting comes first, where the titles have different numbers
-- of words.
pub decide_sym :
    (unicode : ℕ → ℕ) (a b : Candidate)
    → length (title_words unicode a.title) ≢ length (title_words unicode b.title)
    → decide unicode a b ≡ decide unicode b a
unfolding decide titles_agree
decide_sym unicode a b n =
    let titles : titles_agree unicode a.title b.title ≡ titles_agree unicode b.title a.title =
      words_agree_sym (title_words unicode a.title) (title_words unicode b.title) n in
    rw
      (
        unequal_sym a.company_id b.company_id,
        same_ats_sym a b,
        geo_conflict_sym a b,
        equal_sym a.content_hash b.content_hash,
        same_url_sym (normalize_url unicode a.apply_url) (normalize_url unicode b.apply_url),
        comparable_sym unicode a b titles,
        near_sym a b,
        hamming_sym a.sim_hash b.sim_hash,
      )
      refl
