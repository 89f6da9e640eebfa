-- ===== src/Stages/Deduper.antt =====
-- internal/stages/dedupe.go: Handle, for the rows in state 'normalized', and the statements that feed
-- it in internal/store/stages.sql.go. A row of the tables is a posting joined with one of its source
-- rows, in the order in which the database meets them. `up` says whether the database runs the
-- transaction that merges one row into another.
pub mod Linking
use devsignal.Prelude.{
  ℕ, Bool, true, false, not, ◌&&◌, Option, none, some, List, [], ◌∷◌, take, filter, ◌==◌,
  if◌then◌else◌,
}
use devsignal.Prelude.Text.{Text, text_eq}
use devsignal.Prelude.Search.{find}
use devsignal.Pipeline.Worker.{Outcome, done, handled, conflict, broken}
use devsignal.Dedupe.Decide.{Candidate, Verdict, decide, auto_apply}
use devsignal.Stages.Sweep.{
  Merged, is_from, MergeResult, merge_done, merge_conflict, merge_failed, merge_rows,
}

pub record Joined : Type 0 where
  pub id : ℕ
  pub block_key : Option Text
  pub first_seen_at : ℕ
  pub is_closed : Bool
  pub candidate : Candidate

abbrev pub max_block_candidates : ℕ
max_block_candidates = 50

-- `block_key = $1`; NULL equals nothing.
abbrev pub in_block : Text → Option Text → Bool
in_block key none = false
in_block key (some k) = text_eq k key

-- The WHERE clause of FindBlockCandidates, with the merges so far for the column merged_into.
unfoldable pub is_candidate : List Merged → Text → ℕ → Joined → Bool
unfolding is_from
is_candidate merged key exclude o =
    in_block key o.block_key
    && not (o.id == exclude)
    && not (is_from o.id merged)
    && not o.is_closed

-- LIMIT without an order.
unfoldable pub find_block_candidates : List Merged → Text → ℕ → List Joined → List Joined
unfolding is_candidate
find_block_candidates merged key exclude ts =
    take max_block_candidates (filter (is_candidate merged key exclude) ts)

-- The merges, the pairs for review, and what Handle says.
pub record Deduped : Type 0 where
  pub merged : List Merged
  pub review : List Merged
  pub outcome : Outcome

unfoldable pub after_attempt : Text → List Merged → List Merged → MergeResult → Deduped
after_attempt why merged review (merge_done now) = record {
  merged = now;
  review = review;
  outcome = handled;
}
after_attempt why merged review merge_conflict = record {
  merged = merged;
  review = review;
  outcome = conflict;
}
after_attempt why merged review merge_failed = record {
  merged = merged;
  review = review;
  outcome = broken why;
}

-- The loop over the candidates: the first verdict that may be applied unattended ends it.
unfoldable pub compare_all :
    (ℕ → ℕ)
    → Text
    → (ℕ → ℕ → Bool)
    → ℕ
    → Candidate
    → List Joined
    → List Merged
    → List Merged
    → Deduped
unfolding after_attempt merge_rows
compare_all lower why up id mine [] merged review = record {
  merged = merged;
  review = review;
  outcome = done;
}
compare_all lower why up id mine (c ∷ cs) merged review =
    let v = decide lower mine c.candidate in
    let on = compare_all lower why up id mine cs merged review in
    let queued =
      compare_all lower why up id mine cs merged (record { from = id; into = c.id } ∷ review) in
    if not v.same
    then on
    else if not (auto_apply v)
    then queued
    else after_attempt why merged review (merge_rows (up id c.id) id c.id merged)

unfoldable pub in_its_block :
    (ℕ → ℕ)
    → Text
    → (ℕ → ℕ → Bool)
    → List Joined
    → List Merged
    → List Merged
    → Joined
    → Option Text
    → Deduped
unfolding compare_all find_block_candidates
in_its_block lower why up ts seen merged me none = record {
  merged = merged;
  review = [];
  outcome = done;
}
in_its_block lower why up ts seen merged me (some []) = record {
  merged = merged;
  review = [];
  outcome = done;
}
in_its_block lower why up ts seen merged me (some (c ∷ key)) =
    compare_all lower why up me.id me.candidate (find_block_candidates seen (c ∷ key) me.id ts)
      merged []

found :
    (ℕ → ℕ)
    → Text
    → (ℕ → ℕ → Bool)
    → List Joined
    → List Merged
    → List Merged
    → Option Joined
    → Deduped
unfolding in_its_block
found lower why up ts seen merged none = record {
  merged = merged;
  review = [];
  outcome = broken why;
}
found lower why up ts seen merged (some me) =
    in_its_block lower why up ts seen merged me me.block_key

-- GetOpportunityForDedupe takes the first row of the posting. `seen` are the merges when Handle reads
-- the candidates, `merged` those when it merges, `why` is the wording of an error.
unfoldable pub handle_dedupe :
    (ℕ → ℕ) → Text → (ℕ → ℕ → Bool) → ℕ → List Joined → List Merged → List Merged → Deduped
unfolding found find
handle_dedupe lower why up id ts seen merged =
    found lower why up ts seen merged (find (λ o. o.id == id) ts)
