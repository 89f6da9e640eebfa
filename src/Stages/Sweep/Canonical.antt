-- ===== src/Stages/Sweep/Canonical.antt =====
-- Merges form no cycle, and a posting that is listed twice ends the sweep.
use devsignal.Prelude.{
  ℕ, suc, ◌≡◌, refl, ap, ◌∙◌, Bool, true, false, not, ◌||◌, List, [], ◌∷◌, ◌==◌, ==_refl, arith,
  ltb, length, if◌then◌else◌,
}
use devsignal.Dedupe.Decide.{decide, auto_apply}
use devsignal.Stages.Sweep.{
  Member, Merged, Swept, is_from, member_of, merge_done, merge_conflict, merge_failed, merge_rows,
  after_merge, judge, sweep_rest, sweep_members, sweep_one,
}

-- Newest first: at the time of each merge neither row was merged away, and the rows were two.
abbrev pub IsForest : List Merged → Type 0
IsForest [] = Unit
IsForest (p ∷ ps) = (is_from p.into ps ≡ false) × ((p.from == p.into) ≡ false) × IsForest ps

-- Where a row ends when the merges are followed.
unfoldable pub root : List Merged → ℕ → ℕ
root [] id = id
root (p ∷ ps) id = let r = root ps id in if r == p.from then p.into else r

is_from-if :
    (b : Bool) (p : Merged) (r : ℕ) (ps : List Merged)
    → (r == p.from) ≡ b
    → is_from p.into ps ≡ false
    → (p.from == p.into) ≡ false
    → is_from r ps ≡ false
    → is_from (if b then p.into else r) (p ∷ ps) ≡ false
unfolding is_from
is_from-if true p r ps e f g h = rw (f, g) refl
is_from-if false p r ps e f g h = ground arith

root-unmerged : (ps : List Merged) (id : ℕ) → IsForest ps → is_from (root ps id) ps ≡ false
unfolding root is_from
root-unmerged [] id f = refl
root-unmerged (p ∷ ps) id f =
    is_from-if (root ps id == p.from) p (root ps id) ps refl f.0 f.1 (root-unmerged ps id f.2)

-- A choice between two states that are forests.
choice :
    (b : Bool) (s t : Swept)
    → IsForest s.merged
    → IsForest t.merged
    → IsForest (if b then s else t).merged
choice true s t f g = f
choice false s t f g = g

merged-IsForest :
    (id into : ℕ) (s : Swept) (b c d : Bool)
    → (is_from into s.merged ≡ true → c ≡ true)
    → (id == into) ≡ d
    → IsForest s.merged
    → IsForest
        (after_merge id s (
          if b
          then merge_failed
          else if c
          then merge_conflict
          else if d
          then merge_failed
          else merge_done (record { from = id; into = into } ∷ s.merged))).merged
unfolding after_merge
merged-IsForest id into s true c d h e f = f
merged-IsForest id into s false true d h e f = f
merged-IsForest id into s false false true h e f = f
merged-IsForest id into s false false false h e f = (ground (arith, h), e, f)

after_merge-IsForest :
    (up : Bool) (id into : ℕ) (s : Swept)
    → IsForest s.merged
    → IsForest (after_merge id s (merge_rows up id into s.merged)).merged
unfolding merge_rows
after_merge-IsForest up id into s f =
    merged-IsForest id into s (not up) (is_from id s.merged || is_from into s.merged) (id == into)
      (λ h. ground arith) refl f

judge-IsForest :
    (unicode : ℕ → ℕ) (up : ℕ → ℕ → Bool) (keeper m : Member) (s : Swept)
    → IsForest s.merged
    → IsForest (judge unicode up keeper m s).merged
unfolding judge
judge-IsForest unicode up keeper m s f =
    choice (member_of m.id s.gone || not (decide unicode keeper.candidate m.candidate).same) _ _ f (
      choice (not (auto_apply (decide unicode keeper.candidate m.candidate))) _ _ f
        (after_merge-IsForest (up m.id keeper.id) m.id keeper.id s f))

sweep_rest-IsForest :
    (unicode : ℕ → ℕ) (up : ℕ → ℕ → Bool) (keeper : Member) (ms : List Member) (s : Swept)
    → IsForest s.merged
    → IsForest (sweep_rest unicode up keeper ms s).merged
unfolding sweep_rest
sweep_rest-IsForest unicode up keeper [] s f = f
sweep_rest-IsForest unicode up keeper (m ∷ ms) s f = choice s.failed _ _ f (
    sweep_rest-IsForest unicode up keeper ms (judge unicode up keeper m s)
      (judge-IsForest unicode up keeper m s f))

sweep_members-IsForest :
    (unicode : ℕ → ℕ) (up : ℕ → ℕ → Bool) (ms : List Member) (s : Swept)
    → IsForest s.merged
    → IsForest (sweep_members unicode up ms s).merged
unfolding sweep_members
sweep_members-IsForest unicode up [] s f = f
sweep_members-IsForest unicode up (k ∷ ms) s f = choice s.failed _ _ f (
    sweep_members-IsForest unicode up ms _
      (choice (member_of k.id s.gone) _ _ f (sweep_rest-IsForest unicode up k ms s f)))

-- A sweep of a block never merges in a circle: if at the time of each earlier merge neither row was
-- merged away and the rows were two, then so it is for all merges after the sweep, whatever the
-- postings and whichever transactions fail; and every row ends, when the merges are followed, at a
-- row that is not merged away.
pub sweep-IsForest :
    (unicode : ℕ → ℕ) (up : ℕ → ℕ → Bool) (members : List Member) (merged : List Merged)
    → IsForest merged
    → let after = (sweep_one unicode up members merged).merged in
      IsForest after × ((id : ℕ) → is_from (root after id) after ≡ false)
unfolding sweep_one
sweep-IsForest unicode up members merged f =
    let start : Swept = record {
      merged = merged;
      review = [];
      gone = [];
      merges = 0;
      failed = false;
    } in
    let forest =
      choice (ltb (length members) 2) start (sweep_members unicode up members start) f
        (sweep_members-IsForest unicode up members start f) in
    (forest, λ id. root-unmerged (sweep_one unicode up members merged).merged id forest)

sweep_rest-failed :
    (unicode : ℕ → ℕ) (up : ℕ → ℕ → Bool) (keeper : Member) (ms : List Member) (s : Swept)
    → s.failed ≡ true
    → sweep_rest unicode up keeper ms s ≡ s
unfolding sweep_rest
sweep_rest-failed unicode up keeper [] s e = refl
sweep_rest-failed unicode up keeper (m ∷ ms) s e =
    ap (λ b. if b then s else sweep_rest unicode up keeper ms (judge unicode up keeper m s)) e

sweep_members-failed :
    (unicode : ℕ → ℕ) (up : ℕ → ℕ → Bool) (ms : List Member) (s : Swept)
    → s.failed ≡ true
    → sweep_members unicode up ms s ≡ s
unfolding sweep_members
sweep_members-failed unicode up [] s e = refl
sweep_members-failed unicode up (k ∷ ms) s e =
    ap
      (λ b.
        if b
        then s
        else sweep_members unicode up ms
            (if member_of k.id s.gone then s else sweep_rest unicode up k ms s))
      e

ltb_two : (n : ℕ) → ltb (suc (suc n)) 2 ≡ false
ltb_two n = ground arith

self_merge_fails :
    (up : Bool) (id : ℕ) (merged : List Merged)
    → is_from id merged ≡ false
    → merge_rows up id id merged ≡ merge_failed
unfolding merge_rows
self_merge_fails true id merged h = rw (h, ==_refl id) refl
self_merge_fails false id merged h = refl

abbrev start : List Merged → Swept
start merged = record { merged = merged; review = []; gone = []; merges = 0; failed = false }

abbrev broken : List Merged → Swept
broken merged = record { merged = merged; review = []; gone = []; merges = 0; failed = true }

judge-twice :
    (unicode : ℕ → ℕ) (up : ℕ → ℕ → Bool) (k m : Member) (merged : List Merged)
    → k.id ≡ m.id
    → is_from m.id merged ≡ false
    → (decide unicode k.candidate m.candidate).same ≡ true
    → auto_apply (decide unicode k.candidate m.candidate) ≡ true
    → judge unicode up k m (start merged) ≡ broken merged
unfolding judge after_merge
judge-twice unicode up k m merged same unmerged dup auto =
    rw (auto, dup, same, self_merge_fails (up m.id m.id) m.id merged unmerged) refl

-- A posting that the list of members names twice ends the sweep of its block: if its two entries are
-- the first two, it is not merged away, and the verdict on them is the same and applied unattended,
-- the sweep fails and nothing is merged, whatever else the block holds.
pub twice_listed_fails :
    (unicode : ℕ → ℕ) (up : ℕ → ℕ → Bool) (k m : Member) (ms : List Member) (merged : List Merged)
    → k.id ≡ m.id
    → is_from m.id merged ≡ false
    → (decide unicode k.candidate m.candidate).same ≡ true
    → auto_apply (decide unicode k.candidate m.candidate) ≡ true
    → let after = sweep_one unicode up (k ∷ m ∷ ms) merged in
      (after.failed ≡ true) × (after.merged ≡ merged)
unfolding sweep_one sweep_members sweep_rest
twice_listed_fails unicode up k m ms merged same unmerged dup auto =
    let judged = judge-twice unicode up k m merged same unmerged dup auto in
    let rest : sweep_rest unicode up k ms (judge unicode up k m (start merged)) ≡ broken merged =
      ap (sweep_rest unicode up k ms) judged
      ∙ sweep_rest-failed unicode up k ms (broken merged) refl in
    let all : sweep_one unicode up (k ∷ m ∷ ms) merged ≡ broken merged =
      ap
        (λ b.
          if b
          then start merged
          else sweep_members unicode up (m ∷ ms)
              (sweep_rest unicode up k ms (judge unicode up k m (start merged))))
        (ltb_two (length ms))
      ∙ ap (sweep_members unicode up (m ∷ ms)) rest
      ∙ sweep_members-failed unicode up (m ∷ ms) (broken merged) refl in
    (ap (λ (s : Swept). s.failed) all, ap (λ (s : Swept). s.merged) all)
