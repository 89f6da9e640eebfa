-- ===== src/Stages/Examples.antt =====
-- The theorems about internal/stages at a concrete block.
use devsignal.Prelude.{ℕ, ◌≡◌, refl, Bool, true, false, List, [], ◌∷◌, bytes}
use devsignal.Dedupe.Decide.{decide, auto_apply}
use devsignal.Stages.Sweep.{Member, is_from, sweep_one}
use devsignal.Stages.Sweep.Canonical.{IsForest, root, sweep-IsForest, twice_listed_fails}
use devsignal.Prelude.Text.{Text, text_eq}

abbrev same_rune : ℕ → ℕ
same_rune c = c

abbrev member : ℕ → Text → Member
member id job = record {
  id = id;
  candidate = record {
    company_id = bytes "acme";
    ats_type = bytes "lever";
    ats_job_id = job;
    apply_url = [];
    content_hash = 7 ∷ [];
    sim_hash = 0;
    geo_scope = [];
    text_len = 0;
    title = [];
    country = [];
  };
}

abbrev always : ℕ → ℕ → Bool
always a b = true

abbrev block : List Member
block = member 1 (bytes "a") ∷ member 2 (bytes "b") ∷ []

sweep-IsForest_example :
    let after = (sweep_one same_rune always block []).merged in
    IsForest after × ((id : ℕ) → is_from (root after id) after ≡ false)
sweep-IsForest_example = sweep-IsForest same_rune always block [] tt

one_content :
    (decide same_rune (member 1 (bytes "a")).candidate (member 1 (bytes "b")).candidate).same ≡ true
unfolding decide text_eq
one_content = refl

applied :
    auto_apply (decide same_rune (member 1 (bytes "a")).candidate (member 1 (bytes "b")).candidate)
    ≡ true
unfolding decide text_eq auto_apply
applied = refl

twice_listed_fails_example :
    let after =
      sweep_one same_rune always
        (member 1 (bytes "a") ∷ member 1 (bytes "b") ∷ member 2 (bytes "c") ∷ [])
        [] in
    (after.failed ≡ true) × (after.merged ≡ [])
twice_listed_fails_example =
    twice_listed_fails same_rune always (member 1 (bytes "a")) (member 1 (bytes "b"))
      (member 2 (bytes "c") ∷ []) [] refl (unfold is_from in refl) one_content applied
