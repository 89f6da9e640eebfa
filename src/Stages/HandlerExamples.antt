-- ===== src/Stages/HandlerExamples.antt =====
-- The theorems about the handlers of internal/stages at concrete postings, and tests of them.
use devsignal.Prelude.{
  ◌⊎◌, ℕ, ◌≡◌, refl, Bool, true, false, none, some, List, [], ◌∷◌, bytes, arith,
}
use devsignal.Prelude.Text.{Text, text_eq}
use devsignal.Prelude.Search.{find}
use devsignal.Pipeline.State.{parsed, next}
use devsignal.Pipeline.Row.{Row}
use devsignal.Pipeline.Queue.{Item, Db, advance}
use devsignal.Dedupe.Decide.{decide, auto_apply}
use devsignal.Stages.Sweep.Canonical.{IsForest}
use devsignal.Stages.Normalizer.{
  Derived, Listing, Fault, has_key, write_derived, handle_normalize, signed_hash, unsigned_hash,
  join_scope,
}
use devsignal.Stages.Normalizer.Advancing.{queue, outcome_of, normalizer_advances}
use devsignal.Stages.Normalizer.Current.{IsCurrent, derived-IsCurrent}
use devsignal.Stages.Normalizer.Signed.{stored_signature}
use devsignal.Dedupe.SimHash.{sim_hash}
use devsignal.Stages.Deduper.{Joined, find_block_candidates, handle_dedupe}
use devsignal.Stages.Deduper.Linking.{Linked, Passed, handle_dedupe_links}

abbrev same_rune : ℕ → ℕ
same_rune c = c

abbrev wording : Fault → Text
wording f = bytes "failed"

abbrev underived : Derived
underived = record {
  title_normalized = [];
  role_family = none;
  seniority_ordinal = none;
  is_management = false;
  work_mode = none;
  location_country = none;
  location_city = none;
  remote_geo_scope = none;
  simhash = none;
  block_key = none;
  normalization_version = none;
}

abbrev fetched_row : Row
fetched_row = record {
  id = 4;
  state = parsed;
  version = 2;
  attempts = 1;
  last_error = none;
  next_attempt_at = 10;
  lease_until = some 900;
  merged_into = none;
  state_entered_at = 10;
  swept_at = none;
}

abbrev posting : Listing
posting = record {
  row = fetched_row;
  stated = record {
    title_raw = bytes "Go Engineer";
    location_region = some (bytes "Remote, Italy");
    description_text = none;
    company_id = bytes "c1";
  };
  derived = underived;
}

abbrev item : Item
item = record { id = 4; version = 2; attempts = 1; state = parsed }

abbrev at : ℕ → Db
at now = record { now = now; up = true }

-- Others requeue the row, and leave its version.
abbrev others : List Listing → List Listing
others [] = []
others (l ∷ ls) = record l { row = record l.row { next_attempt_at = 30 } } ∷ ls

abbrev requeued : Listing
requeued = record posting { row = record fetched_row { next_attempt_at = 30 } }

normalizer_advances_example :
    let (after, outcome) =
      handle_normalize same_rune same_rune wording item (at 20) others (at 40) (posting ∷ []) in
    let (table, err) = advance item (at 40) (queue (others (posting ∷ []))) in
    (queue after ≡ table) × (outcome ≡ outcome_of wording err)
normalizer_advances_example =
    normalizer_advances same_rune same_rune wording item (at 20) (at 40) others (posting ∷ [])
      posting refl (unfold find in refl)

derived-IsCurrent_example :
    (l : Listing) × (find
        (has_key 4)
        (handle_normalize same_rune same_rune wording item (at 20) others (at 40) (posting ∷ [])).0
      ≡ some l)
    × IsCurrent same_rune same_rune item l
derived-IsCurrent_example =
    derived-IsCurrent same_rune same_rune wording item (at 20) (at 40) others (posting ∷ []) posting
      requeued (tt, tt) (unfold find in refl) (unfold find in refl) (omega arith)
      (omega arith, λ e. refl) (unfold handle_normalize write_derived next find in refl)

stored_signature_example :
    unsigned_hash (some (signed_hash (sim_hash same_rune (bytes "Go Engineer"))))
    ≡ sim_hash same_rune (bytes "Go Engineer")
stored_signature_example = stored_signature same_rune (bytes "Go Engineer")

scope_test : join_scope (bytes "CA" ∷ bytes "US" ∷ []) ≡ some (bytes "CA,US")
unfolding join_scope
scope_test = refl

abbrev seen_at : ℕ → ℕ → Text → Joined
seen_at id time job = record {
  id = id;
  block_key = some (bytes "acme|go|IT");
  first_seen_at = time;
  is_closed = false;
  candidate = record {
    company_id = bytes "acme";
    ats_type = bytes "lever";
    ats_job_id = job;
    apply_url = [];
    content_hash = 7 ∷ [];
    sim_hash = 0;
    geo_scope = [];
    text_len = 0;
    title = [];
    country = [];
  };
}

abbrev always : ℕ → ℕ → Bool
always a b = true

abbrev pair : List Joined
pair = seen_at 1 100 (bytes "a") ∷ seen_at 2 500 (bytes "b") ∷ []

handle_dedupe_links_example :
    let r = handle_dedupe same_rune (bytes "failed") always 2 pair [] [] in
    let cs = find_block_candidates [] (bytes "acme|go|IT") 2 pair in
    (Linked same_rune 2 (seen_at 2 500 (bytes "b")).candidate cs [] r
      ⊎ Passed same_rune (seen_at 2 500 (bytes "b")).candidate cs [] r)
    × IsForest r.merged
handle_dedupe_links_example =
    handle_dedupe_links same_rune (bytes "failed") always 2 pair [] [] (seen_at 2 500 (bytes "b"))
      b'a' (bytes "cme|go|IT") (unfold find in refl) refl tt

-- The posting that was seen first goes into the later one, when it is the one that is handled.
older_goes_test :
    (handle_dedupe same_rune (bytes "failed") always 1 pair [] []).merged
    ≡ record { from = 1; into = 2 } ∷ []
unfolding handle_dedupe text_eq decide auto_apply
older_goes_test = refl
