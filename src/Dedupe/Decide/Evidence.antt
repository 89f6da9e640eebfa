-- ===== src/Dedupe/Decide/Evidence.antt =====
-- What a verdict of `Decide` rests on, and which verdicts are applied unattended.
use devsignal.Prelude.{
  ℕ, zero, suc, ◌^◌, ◌≤◌, ◌≡◌, ◌≢◌, ◌⊎◌, inl, inr, ◌↔◌, refl, Bool, true, false, not, ◌&&◌, ◌||◌,
  Option, none, some, [], ◌∷◌, length, arith, leb, Bool-cases, if◌then◌else◌,
}
use devsignal.Prelude.Text.{Text, text_eq, text_eq_iff, text_eq_refl, is_empty}
use devsignal.Dedupe.SimHash.{hamming}
use devsignal.Dedupe.Decide.{
  no_verdict, Reason, exact_ats, content_hash, apply_url, simhash, no_reason, Candidate, Verdict,
  fuzzy_confidence, auto_apply, geo_conflict, title_words, titles_agree, title_is_specific,
  normalize_url, same_url, same_ats, same_content, comparable, near, near_at, decide, merge,
  min_auto_merge_confidence,
}

is_empty_lem : (s : Text) → is_empty s ≡ false → s ≢ []
is_empty_lem [] h = λ e. absurd (ground arith)
is_empty_lem (c ∷ s) h = λ e. absurd (ground (arith, e))

-- The two scopes are one, or one of them is not known.
abbrev pub SameScope : Candidate → Candidate → Type 0
SameScope a b = (a.geo_scope ≡ []) ⊎ (b.geo_scope ≡ []) ⊎ (a.geo_scope ≡ b.geo_scope)

-- The evidence for each reason.
abbrev pub Grounds : (ℕ → ℕ) → Candidate → Candidate → Reason → Type 0
Grounds unicode a b exact_ats =
    (a.ats_type ≢ [])
    × (a.ats_type ≡ b.ats_type)
    × (a.ats_job_id ≢ [])
    × (a.ats_job_id ≡ b.ats_job_id)
Grounds unicode a b content_hash =
    SameScope a b × (a.content_hash ≢ []) × (a.content_hash ≡ b.content_hash)
Grounds unicode a b apply_url =
    SameScope a b
    × ((u : Text) × (normalize_url unicode a.apply_url ≡ some u)
        × (normalize_url unicode b.apply_url ≡ some u))
Grounds unicode a b simhash =
    SameScope a b
    × (a.sim_hash ≢ 0)
    × (b.sim_hash ≢ 0)
    × (titles_agree unicode a.title b.title ≡ true)
    × (3 ≤ length (title_words unicode a.title))
    × (3 ≤ length (title_words unicode b.title))
    × ((hamming a.sim_hash b.sim_hash ≡ 0)
        ⊎ ((hamming a.sim_hash b.sim_hash ≤ 9) × (400 ≤ a.text_len) × (400 ≤ b.text_len)))
Grounds unicode a b no_reason = ⊥

known_scopes :
    (s t : Text)
    → (if is_empty s || is_empty t then false else not (text_eq s t)) ≡ false
    → (s ≡ []) ⊎ (t ≡ []) ⊎ (s ≡ t)
known_scopes [] t h = inl refl
known_scopes (c ∷ s) [] h = inr (inl refl)
known_scopes (c ∷ s) (d ∷ t) h = inr (inr (ground (arith, text_eq_iff (c ∷ s) (d ∷ t))))

SameScope_lem : (a b : Candidate) → geo_conflict a b ≡ false → SameScope a b
unfolding geo_conflict
SameScope_lem a b h = known_scopes a.geo_scope b.geo_scope h

same_url_lem : (x y : Option Text) → same_url x y ≡ true → (u : Text) × (x ≡ some u) × (y ≡ some u)
same_url_lem (some u) (some v) h = (u, refl, ground (arith, text_eq_iff u v))
same_url_lem (some u) none h = absurd (ground arith)
same_url_lem none y h = absurd (ground arith)

same_lem : (s t : Text) → (not (is_empty s) && text_eq s t) ≡ true → (s ≢ []) × (s ≡ t)
same_lem s t h = (is_empty_lem s (ground arith), ground (arith, text_eq_iff s t))

-- The evidence that makes the verdict, whatever the reason.
abbrev pub Justified : (ℕ → ℕ) → Candidate → Candidate → Verdict → Type 0
Justified unicode a b v =
    (v.same ≡ true)
    → (a.company_id ≢ []) × (a.company_id ≡ b.company_id) × Grounds unicode a b v.reason

near_lem : (d m n : ℕ) → (near_at d m n ≡ true) ↔ ((d ≡ 0) ⊎ ((d ≤ 9) × (400 ≤ m) × (400 ≤ n)))
unfolding near_at
near_lem d m n = ground arith

both : (s t : Bool) → (s && t) ≡ true → (s ≡ true) × (t ≡ true)
both s t h = ground arith

comparable_lem :
    (unicode : ℕ → ℕ) (a b : Candidate)
    → (comparable unicode a b ≡ true) ↔ (
        (a.sim_hash ≢ 0)
        × (b.sim_hash ≢ 0)
        × (titles_agree unicode a.title b.title ≡ true)
        × (3 ≤ length (title_words unicode a.title))
        × (3 ≤ length (title_words unicode b.title)))
unfolding comparable title_is_specific
comparable_lem unicode a b = ground arith

simhash-Grounds :
    (unicode : ℕ → ℕ) (a b : Candidate)
    → geo_conflict a b ≡ false
    → (comparable unicode a b && near a b) ≡ true
    → Grounds unicode a b simhash
simhash-Grounds unicode a b g h =
    let tests = both (comparable unicode a b) (near a b) h in
    let (x, y, t, l, m) = (comparable_lem unicode a b).0 tests.0 in
    (SameScope_lem a b g, x, y, t, l, m, (near_lem _ _ _).0 tests.1)

same_ats-Grounds :
    (unicode : ℕ → ℕ) (a b : Candidate) → same_ats a b ≡ true → Grounds unicode a b exact_ats
same_ats-Grounds unicode a b h =
    let types = same_lem a.ats_type b.ats_type (ground arith) in
    let ids = same_lem a.ats_job_id b.ats_job_id (ground arith) in (types.0, types.1, ids.0, ids.1)

-- The steps of the cascade that no geography stops.
later_steps :
    (unicode : ℕ → ℕ) (a b : Candidate)
    → (is_empty a.company_id || not (text_eq a.company_id b.company_id)) ≡ false
    → same_ats a b ≡ false
    → geo_conflict a b ≡ false
    → (decide unicode a b).same ≡ true
    → Grounds unicode a b (decide unicode a b).reason
unfolding decide
later_steps unicode a b c e g h = elim (Bool-cases (same_content a b)) [
  | inl k ↦
      rw (c, e, g, k)
        (let hashes = same_lem a.content_hash b.content_hash k in
          (SameScope_lem a b g, hashes.0, hashes.1))
  | inr k ↦
      elim (Bool-cases
        (same_url (normalize_url unicode a.apply_url) (normalize_url unicode b.apply_url))) [
          | inl u ↦ rw (c, e, g, k, u) (SameScope_lem a b g, same_url_lem _ _ u)
          | inr u ↦ elim (Bool-cases (comparable unicode a b && near a b)) [
            | inl n ↦ rw (c, e, g, k, u, n) (simhash-Grounds unicode a b g n)
            | inr n ↦ absurd (ground arith)
          ]
        ]
]

-- Two postings that are judged the same always have one company, which is known, and the evidence
-- of the verdict's reason: equal, known ATS and job id; or no known difference of geographic scope
-- together with equal content hashes, one normalized application URL, or agreeing titles of at
-- least three words with signatures that are equal, or at most 9 bits apart over texts of at least
-- 400 characters each.
pub decide-Justified :
    (unicode : ℕ → ℕ) (a b : Candidate) → Justified unicode a b (decide unicode a b)
unfolding decide
decide-Justified unicode a b h =
    elim (Bool-cases (is_empty a.company_id || not (text_eq a.company_id b.company_id))) [
      | inl c ↦ absurd (ground arith)
      | inr c ↦ (
        is_empty_lem a.company_id (ground arith),
        ground (arith, text_eq_iff a.company_id b.company_id),
        elim (Bool-cases (same_ats a b)) [
          | inl e ↦ rw (c, e) (same_ats-Grounds unicode a b e)
          | inr e ↦ elim (Bool-cases (geo_conflict a b)) [
            | inl g ↦ absurd (ground arith)
            | inr g ↦ later_steps unicode a b c e g h
          ]
        ],
      )
    ]

same_if : (s t : Text) → s ≢ [] → s ≡ t → (not (is_empty s) && text_eq s t) ≡ true
same_if [] t n e = absurd (n refl)
same_if (c ∷ s) t n e = ground (arith, text_eq_iff (c ∷ s) t)

unknown_scopes : (a b : Candidate) → SameScope a b → geo_conflict a b ≡ false
unfolding geo_conflict
unknown_scopes a b (inl e) = rw e refl
unknown_scopes a b (inr (inl e)) = ground arith
unknown_scopes a b (inr (inr e)) = rw (e, text_eq_refl b.geo_scope) (ground arith)

-- The test of the cascade that the evidence passes.
abbrev Passes : (ℕ → ℕ) → Candidate → Candidate → Type 0
Passes unicode a b =
    (same_ats a b ≡ true)
    ⊎ ((geo_conflict a b ≡ false)
        × ((same_content a b
              || same_url (normalize_url unicode a.apply_url) (normalize_url unicode b.apply_url)
              || comparable unicode a b && near a b)
            ≡ true))

Grounds-Passes :
    (unicode : ℕ → ℕ) (a b : Candidate) (r : Reason) → Grounds unicode a b r → Passes unicode a b
Grounds-Passes unicode a b exact_ats (t, te, j, je) =
    inl (ground (arith, same_if a.ats_type b.ats_type t te, same_if a.ats_job_id b.ats_job_id j je))
Grounds-Passes unicode a b content_hash (s, n, e) =
    inr (unknown_scopes a b s, ground (arith, same_if a.content_hash b.content_hash n e))
Grounds-Passes unicode a b apply_url (s, (u, p, q)) =
    inr (unknown_scopes a b s, rw (p, q, text_eq_refl u) (ground arith))
Grounds-Passes unicode a b simhash (s, p, q, t, x, y, d) =
    let pair = (comparable_lem unicode a b).1 (p, q, t, x, y) in
    let close = (near_lem (hamming a.sim_hash b.sim_hash) a.text_len b.text_len).1 d in
    inr (unknown_scopes a b s, rw (pair, close) (ground arith))
Grounds-Passes unicode a b no_reason h = absurd h

Passes-same :
    (unicode : ℕ → ℕ) (a b : Candidate)
    → (not (is_empty a.company_id) && text_eq a.company_id b.company_id) ≡ true
    → Passes unicode a b
    → (decide unicode a b).same ≡ true
unfolding decide
Passes-same unicode a b c (inl e) = ground arith
Passes-same unicode a b c (inr (g, e)) = ground arith

-- `Decide` misses nothing that its rules admit: two postings of one known company with the
-- evidence of any reason are judged the same.
pub decide_complete :
    (unicode : ℕ → ℕ) (a b : Candidate) (r : Reason)
    → a.company_id ≢ []
    → a.company_id ≡ b.company_id
    → Grounds unicode a b r
    → (decide unicode a b).same ≡ true
decide_complete unicode a b r n c g =
    Passes-same unicode a b (same_if a.company_id b.company_id n c) (Grounds-Passes unicode a b r g)

fuzzy_scores : (d : ℕ) → d ≤ 9 → leb min_auto_merge_confidence (fuzzy_confidence d) ≡ leb d 3
unfolding fuzzy_confidence
fuzzy_scores zero h = refl
fuzzy_scores (suc zero) h = refl
fuzzy_scores (suc (suc zero)) h = refl
fuzzy_scores (suc (suc (suc zero))) h = refl
fuzzy_scores (suc (suc (suc (suc zero)))) h = refl
fuzzy_scores (suc (suc (suc (suc (suc zero))))) h = refl
fuzzy_scores (suc (suc (suc (suc (suc (suc zero)))))) h = refl
fuzzy_scores (suc (suc (suc (suc (suc (suc (suc zero))))))) h = refl
fuzzy_scores (suc (suc (suc (suc (suc (suc (suc (suc zero)))))))) h = refl
fuzzy_scores (suc (suc (suc (suc (suc (suc (suc (suc (suc zero))))))))) h = refl
fuzzy_scores (suc (suc (suc (suc (suc (suc (suc (suc (suc (suc d)))))))))) h = absurd (omega arith)

-- When a verdict of two postings at a distance is applied.
abbrev Applies : ℕ → Verdict → Type 0
Applies d v = (auto_apply v ≡ true) ↔ ((v.same ≡ true) × ((v.reason ≡ simhash) → d ≤ 3))

Applies-if :
    (d : ℕ) (t : Bool) (v w : Verdict)
    → (t ≡ true → Applies d v)
    → Applies d w
    → Applies d (if t then v else w)
Applies-if d true v w h k = h refl
Applies-if d false v w h k = k

Applies-no : (d : ℕ) → Applies d no_verdict
unfolding auto_apply
Applies-no d = ground arith

Applies-other :
    (d : ℕ) (r : Reason) (c : ℕ)
    → r ≢ simhash
    → leb min_auto_merge_confidence c ≡ true
    → Applies d (merge r c)
unfolding auto_apply
Applies-other d r c n h = (λ e. (refl, λ p. absurd (n p)), λ e. h)

near-le : (t : Bool) (a b : Candidate) → (t && near a b) ≡ true → hamming a.sim_hash b.sim_hash ≤ 9
near-le t a b h = elim ((near_lem _ _ _).0 (both t (near a b) h).1) [
  | inl e ↦ omega (arith, e)
  | inr e ↦ e.0
]

Applies-fuzzy : (d : ℕ) → d ≤ 9 → Applies d (merge simhash (fuzzy_confidence d))
unfolding auto_apply
Applies-fuzzy d h = ground (arith, fuzzy_scores d h)

-- A verdict is applied unattended exactly where the two postings are judged the same, for a reason
-- other than the signatures or with signatures at most 3 bits apart: at 3 the confidence rounds up
-- to the threshold.
pub auto_apply_iff :
    (unicode : ℕ → ℕ) (a b : Candidate)
    → (auto_apply (decide unicode a b) ≡ true) ↔ (
        ((decide unicode a b).same ≡ true)
        × (((decide unicode a b).reason ≡ simhash) → hamming a.sim_hash b.sim_hash ≤ 3))
unfolding decide
auto_apply_iff unicode a b =
    let d = hamming a.sim_hash b.sim_hash in
    let urls = same_url (normalize_url unicode a.apply_url) (normalize_url unicode b.apply_url) in
    Applies-if d (is_empty a.company_id || not (text_eq a.company_id b.company_id)) _ _
      (λ _. Applies-no d)
      (Applies-if d (same_ats a b) (merge exact_ats (2 ^ 28)) _
        (λ _. Applies-other d exact_ats _ (λ e. cc) refl)
        (Applies-if d (geo_conflict a b) _ _ (λ _. Applies-no d)
          (Applies-if d (same_content a b) (merge content_hash 265_751_104) _
            (λ _. Applies-other d content_hash _ (λ e. cc) refl)
            (Applies-if d urls (merge apply_url 260_382_400) _
              (λ _. Applies-other d apply_url _ (λ e. cc) refl)
              (Applies-if d (comparable unicode a b && near a b) _ _
                (λ h. Applies-fuzzy d (near-le (comparable unicode a b) a b h)) (Applies-no d))))))
