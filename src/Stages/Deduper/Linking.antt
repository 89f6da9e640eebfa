-- ===== src/Stages/Deduper/Linking.antt =====
-- What Handle merges, and what it passes on.
use devsignal.Prelude.{
  ℕ, ◌≡◌, ◌≢◌, ◌⊎◌, refl, sym, Bool, true, false, not, ◌&&◌, ◌||◌, some, List, [], ◌∷◌, arith, inl,
  inr, ==_refl, ◌==◌, ==_iff, if◌then◌else◌,
}
use mathlib.Core.Path.{subst}
use devsignal.Prelude.Text.{Text}
use devsignal.Prelude.Search.{find, find-selects, any}
use devsignal.Pipeline.Worker.{done, handled, conflict, broken}
use devsignal.Dedupe.Decide.{Candidate, decide, auto_apply}
use devsignal.Stages.Sweep.{Merged, is_from, merge_done, merge_conflict, merge_failed, merge_rows}
use devsignal.Stages.Sweep.Canonical.{IsForest}
use devsignal.Stages.Deduper.{
  Joined, Deduped, find_block_candidates, after_attempt, compare_all, in_its_block, handle_dedupe,
}

-- A verdict that is applied unattended.
abbrev pub merges : (ℕ → ℕ) → Candidate → Joined → Bool
merges lower mine c = let v = decide lower mine c.candidate in v.same && auto_apply v

abbrev link : ℕ → ℕ → Merged
link from into = record { from = from; into = into }

-- The posting went into one of the candidates, both of them canonical until then.
abbrev pub Linked : (ℕ → ℕ) → ℕ → Candidate → List Joined → List Merged → Deduped → Type 0
Linked lower id mine cs merged r =
    (into : ℕ) × (any (λ c. c.id == into && merges lower mine c) cs ≡ true)
    × ((is_from id merged || is_from into merged) ≡ false)
    × ((id == into) ≡ false)
    × (r.merged ≡ link id into ∷ merged)
    × (r.outcome ≡ handled)

-- Nothing is merged; and where the posting passes, no candidate is the same beyond doubt.
abbrev pub Passed : (ℕ → ℕ) → Candidate → List Joined → List Merged → Deduped → Type 0
Passed lower mine cs merged r =
    (r.merged ≡ merged)
    × (r.outcome ≢ handled)
    × ((r.outcome ≢ done) ⊎ (any (merges lower mine) cs ≡ false))

conflict_settles : (conflict ≢ handled) × (conflict ≢ done)
conflict_settles = ((λ h. ground arith), (λ h. ground arith))

broken_settles : (why : Text) → (broken why ≢ handled) × (broken why ≢ done)
broken_settles why = ((λ h. ground arith), (λ h. ground arith))

or_left_false : (a b : Bool) → (a || b) ≡ false → b ≡ false
or_left_false a b h = ground arith

or_right : (a b : Bool) → b ≡ true → (a || b) ≡ true
or_right a b h = ground arith

done_passes : done ≢ handled
done_passes h = ground arith

module _ (lower : ℕ → ℕ) (why : Text) (up : ℕ → ℕ → Bool) (id : ℕ) (mine : Candidate)
    (merged : List Merged) where
  abbrev Settled : List Joined → Deduped → Type 0
  Settled cs r = Linked lower id mine cs merged r ⊎ Passed lower mine cs merged r

  attempt_by :
      (c : Joined) (cs : List Joined) (review : List Merged) (on gone same : Bool)
      → (is_from id merged || is_from c.id merged) ≡ gone
      → (id == c.id) ≡ same
      → merges lower mine c ≡ true
      → Settled (c ∷ cs) (
          after_attempt why merged review (
            if not on
            then merge_failed
            else if gone
            then merge_conflict
            else if same
            then merge_failed
            else merge_done (link id c.id ∷ merged)))
  unfolding after_attempt
  attempt_by c cs review false gone same g e h =
      inr (refl, (broken_settles why).0, inl (broken_settles why).1)
  attempt_by c cs review true true same g e h =
      inr (refl, conflict_settles.0, inl conflict_settles.1)
  attempt_by c cs review true false true g e h =
      inr (refl, (broken_settles why).0, inl (broken_settles why).1)
  attempt_by c cs review true false false g e h =
      inl (c.id, rw (==_refl c.id, h) refl, g, e, refl, refl)

  attempt :
      (c : Joined) (cs : List Joined) (review : List Merged)
      → merges lower mine c ≡ true
      → Settled (c ∷ cs) (after_attempt why merged review (merge_rows (up id c.id) id c.id merged))
  unfolding merge_rows
  attempt c cs review h = attempt_by c cs review (up id c.id) _ _ refl refl h

  -- A candidate that is not merged changes nothing of what is settled.
  skipped :
      (c : Joined) (cs : List Joined) (r : Deduped)
      → merges lower mine c ≡ false
      → Settled cs r
      → Settled (c ∷ cs) r
  skipped c cs r h (inl (into, at, rest, two, made, out)) =
      inl (into, or_right (c.id == into && merges lower mine c) _ at, rest, two, made, out)
  skipped c cs r h (inr (same, not_handled, inl not_done)) = inr (same, not_handled, inl not_done)
  skipped c cs r h (inr (same, not_handled, inr none_merges)) =
      inr (same, not_handled, inr (rw (h, none_merges) refl))

  branch :
      (c : Joined) (cs : List Joined) (on queued merge : Deduped) (same auto : Bool)
      → merges lower mine c ≡ (same && auto)
      → Settled cs on
      → Settled cs queued
      → (merges lower mine c ≡ true → Settled (c ∷ cs) merge)
      → Settled (c ∷ cs) (if not same then on else if not auto then queued else merge)
  branch c cs on queued merge false auto e s q m = skipped c cs on e s
  branch c cs on queued merge true false e s q m = skipped c cs queued e q
  branch c cs on queued merge true true e s q m = m e

  compare_all-settles :
      (cs : List Joined) (review : List Merged)
      → Settled cs (compare_all lower why up id mine cs merged review)
  unfolding compare_all
  compare_all-settles [] review = inr (refl, done_passes, inr refl)
  compare_all-settles (c ∷ cs) review =
      branch c cs _ _ _ (decide lower mine c.candidate).same
        (auto_apply (decide lower mine c.candidate)) refl (compare_all-settles cs review)
        (compare_all-settles cs _) (attempt c cs review)

  settled-IsForest :
      (cs : List Joined) (r : Deduped) → IsForest merged → Settled cs r → IsForest r.merged
  settled-IsForest cs r f (inl (into, at, fresh, two, made, out)) =
      subst IsForest (sym made)
        (or_left_false (is_from id merged) (is_from into merged) fresh, two, f)
  settled-IsForest cs r f (inr (same, rest, passed)) = subst IsForest (sym same) f

-- Handle merges a posting at most once, into a posting of its block that is the same beyond doubt, and
-- never in a circle. For a posting with a block key, let `seen` be the merges when it reads the
-- candidates and `merged` those when it merges, none of them made into a row that was merged away or
-- into itself. Then either Handle says `handled`, and its posting went into one candidate on which the
-- verdict is the same and applied unattended, where neither was merged away; or it merges nothing and
-- does not say `handled`, and if it passes the posting on, there is no such verdict on any of the
-- candidates that it read. In both cases the merges stay free of circles.
pub handle_dedupe_links :
    (lower : ℕ → ℕ) (why : Text) (up : ℕ → ℕ → Bool) (id : ℕ) (ts : List Joined)
    (seen merged : List Merged) (me : Joined) (c : ℕ) (key : Text)
    → find (λ o. o.id == id) ts ≡ some me
    → me.block_key ≡ some (c ∷ key)
    → IsForest merged
    → let r = handle_dedupe lower why up id ts seen merged in
      let cs = find_block_candidates seen (c ∷ key) id ts in
      (Linked lower id me.candidate cs merged r ⊎ Passed lower me.candidate cs merged r)
      × IsForest r.merged
unfolding handle_dedupe in_its_block
handle_dedupe_links lower why up id ts seen merged me c key at_id keyed f =
    let same : me.id ≡ id = (==_iff me.id id).0 (find-selects (λ o. o.id == id) ts me at_id) in
    let cs = find_block_candidates seen (c ∷ key) id ts in
    let settled = compare_all-settles lower why up id me.candidate merged cs [] in
    rw (at_id, keyed, same)
      (
        settled,
        settled-IsForest lower why up id me.candidate merged cs
            (compare_all lower why up id me.candidate cs merged []) f settled,
      )
