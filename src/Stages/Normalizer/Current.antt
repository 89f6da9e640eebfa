-- ===== src/Stages/Normalizer/Current.antt =====
-- The derived columns and the columns that they come from.
use mathlib.Core.Option
use devsignal.Prelude.{
  ℕ, ◌≤◌, ◌≡◌, ◌≢◌, refl, ap, sym, ◌∙◌, true, some, List, [], ◌∷◌, map, arith, Bool-cases, inl, inr,
  length, filter, if◌then◌else◌,
}
use devsignal.Prelude.Text.{Text}
use devsignal.Prelude.Search.{find, find-map, on_found}
use devsignal.Pipeline.State.{State, next, NextResult, next_ok, no_successor}
use devsignal.Pipeline.Row.{advances}
use devsignal.Pipeline.Row.Keys.{advances-id}
use devsignal.Pipeline.Table.{find_row}
use devsignal.Pipeline.Table.Lookup.{UniqueIds, affected-eq}
use devsignal.Pipeline.Queue.{Item, Db}
use devsignal.Pipeline.Worker.{handled, conflict, broken}
use devsignal.Stages.Normalizer.{
  Derived, Listing, ApplyNormalizationParams, applies, apply_row, Fault, has_key, applied,
  write_derived, apply_normalization, load_fault, apply_fault, derive, handle_normalize,
}
use devsignal.Stages.Normalizer.Advancing.{queue, guard, applies-eq, count-applies}

find_row-queue :
    (id : ℕ) (ts : List Listing)
    → find_row id (queue ts) ≡ Option.map (λ l. l.row) (find (has_key id) ts)
unfolding find_row find
find_row-queue id [] = refl
find_row-queue id (l ∷ ts) = ground (arith, find_row-queue id ts)

has_key-apply_row :
    (p : ApplyNormalizationParams) (now id : ℕ) (l : Listing)
    → has_key id (apply_row p now l) ≡ has_key id l
unfolding apply_row
has_key-apply_row p now id l = ground arith

count_at :
    (p : ApplyNormalizationParams) (ts : List Listing) (l : Listing)
    → UniqueIds (queue ts)
    → find (has_key p.id) ts ≡ some l
    → length (filter (applies p) ts) ≡ (if applies p l then 1 else 0)
count_at p ts l unique at_key =
    rw
      (
        count-applies p ts,
        affected-eq p.id (advances (guard p)) (queue ts) (λ r. advances-id r (guard p)) unique,
        find_row-queue p.id ts,
        at_key,
        applies-eq p l,
      )
      refl

-- What the statements of others do to a row that the stage has read: the version does not go back,
-- and what the source states changes only with it.
abbrev pub Follows : Listing → Listing → Type 0
Follows l l' =
    (l.row.version ≤ l'.row.version) × (l.row.version ≡ l'.row.version → l'.stated ≡ l.stated)

-- A row in its next state whose derived columns are those of what it states.
abbrev pub IsCurrent : (ℕ → ℕ) → (ℕ → ℕ) → Item → Listing → Type 0
IsCurrent lower upper it l =
    (l.derived ≡ derive lower upper l.stated) × (next it.state ≡ next_ok l.row.state)

abbrev params : Derived → Item → State → ApplyNormalizationParams
params d it n = record {
  derived = d;
  next_state = n;
  id = it.id;
  version = it.version;
  current_state = it.state;
}

conflict_ne_handled : conflict ≢ handled
conflict_ne_handled h = ground arith

broken_ne_handled : (e : Text) → broken e ≢ handled
broken_ne_handled e h = ground arith

module _ (wording : Fault → Text) (d : Derived) (it : Item) (db : Db) (ts : List Listing)
    (l : Listing) (unique : UniqueIds (queue ts)) (at_key : find (has_key it.id) ts ≡ some l) where
  abbrev Written : NextResult → Type 0
  Written x =
      (n : State) × (x ≡ next_ok n)
      × (applies (params d it n) l ≡ true)
      × ((write_derived wording d it db ts x).0 ≡ map (apply_row (params d it n) db.now) ts)

  written : (x : NextResult) → (write_derived wording d it db ts x).1 ≡ handled → Written x
  unfolding write_derived apply_normalization applied
  written (no_successor s) h = absurd (broken_ne_handled _ h)
  written (next_ok n) h = elim (Bool-cases db.up) [
    | inl up ↦ elim (Bool-cases (applies (params d it n) l)) [
      | inl hit ↦ (n, refl, hit, rw up refl)
      | inr missed ↦
          let none_hit : length (filter (applies (params d it n)) ts) ≡ 0 =
            rw (count_at (params d it n) ts l unique at_key, missed) refl in
          let said : (write_derived wording d it db ts (next_ok n)).1 ≡ conflict =
            rw (up, none_hit) refl in
          absurd (conflict_ne_handled (sym said ∙ h))
    ]
    | inr down ↦
        let said : (write_derived wording d it db ts (next_ok n)).1 ≡ broken (wording apply_fault) =
          rw down refl in
        absurd (broken_ne_handled _ (sym said ∙ h))
  ]

apply_row-hit :
    (p : ApplyNormalizationParams) (now : ℕ) (l : Listing)
    → applies p l ≡ true
    → ((apply_row p now l).derived ≡ p.derived)
      × ((apply_row p now l).stated ≡ l.stated)
      × ((apply_row p now l).row.state ≡ p.next_state)
unfolding apply_row
apply_row-hit p now l h = rw h (refl, refl, refl)

applies-version :
    (p : ApplyNormalizationParams) (l : Listing) → applies p l ≡ true → l.row.version ≡ p.version
unfolding applies
applies-version p l h = ground arith

-- What the normalizer leaves is derived from what the row states now, not from an older text. In a
-- table with unique ids, let the item be claimed before the read, and let the others that commit
-- between the read and the write never put the version back, nor change what the row states without a
-- new version. If Handle then says `handled`, the row is in the next state, and its derived columns
-- are those of the title, the place, the description and the company that it has then.
pub derived-IsCurrent :
    (lower upper : ℕ → ℕ) (wording : Fault → Text) (it : Item) (read write : Db)
    (others : List Listing → List Listing) (ts : List Listing) (l l' : Listing)
    → UniqueIds (queue (others ts))
    → find (has_key it.id) ts ≡ some l
    → find (has_key it.id) (others ts) ≡ some l'
    → it.version ≤ l.row.version
    → Follows l l'
    → (handle_normalize lower upper wording it read others write ts).1 ≡ handled
    → (l'' : Listing) × (find
          (has_key it.id)
          (handle_normalize lower upper wording it read others write ts).0
        ≡ some l'')
      × IsCurrent lower upper it l''
unfolding handle_normalize
derived-IsCurrent lower upper wording it read write others ts l l' unique at_key then_at claimed
      follows h =
    elim (Bool-cases read.up) [
      | inl up ↦
          let d = derive lower upper l.stated in
          let ran : handle_normalize lower upper wording it read others write ts
              ≡ write_derived wording d it write (others ts) (next it.state) =
            rw (up, at_key) refl in
          let (n, succ, hit, table) =
            written wording d it write (others ts) l' unique then_at (next it.state)
              (sym (ap (λ x. x.1) ran) ∙ h) in
          let p = params d it n in
          let (derived, stated, state) = apply_row-hit p write.now l' hit in
          let same : l'.stated ≡ l.stated =
            follows.1 (omega (arith, follows.0, applies-version p l' hit, claimed)) in
          (
            apply_row p write.now l',
            ap (λ x. find (has_key it.id) x.0) ran
                ∙ (ap (find (has_key it.id)) table
                    ∙ (find-map (has_key it.id) (apply_row p write.now) (others ts)
                          (has_key-apply_row p write.now it.id)
                        ∙ ap (on_found (apply_row p write.now)) then_at)),
            (
              derived ∙ ap (derive lower upper) (sym (stated ∙ same)),
              succ ∙ ap next_ok (sym state),
            ),
          )
      | inr down ↦
          let said : (handle_normalize lower upper wording it read others write ts).1
              ≡ broken (wording load_fault) =
            rw down refl in
          absurd (broken_ne_handled _ (sym said ∙ h))
    ]
