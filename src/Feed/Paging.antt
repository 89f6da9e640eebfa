-- ===== src/Feed/Paging.antt =====
-- A client that follows the cursors.
use mathlib.Core.List.{append-nil}
use devsignal.Prelude.{
  ℕ, zero, suc, ◌≤◌, ◌<◌, ◌≡◌, false≢true, refl, ap, sym, ◌∙◌, Bool, true, false, Option, none,
  some, List, [], ◌∷◌, ◌++◌, arith, Bool-cases, inl, inr, All, ltb→lt, lt→ltb, ==_refl,
  All-filter_self, All-take, length, take, take_all, filter, map, ltb, ◌==◌, if◌then◌else◌,
}
use devsignal.Prelude.Int.{ℤ}
use devsignal.Prelude.Text.{Text, is_empty}
use devsignal.Feed.Mapping.{Entry, Summary, summary_from_list}
use devsignal.Feed.List.{
  Key, key_of, ListFilter, is_served, is_after, order_entries, list_opportunities, page_size, Page,
  Listed, listed, invalid_input, list_failed, decode_cursor, last_of, page_of, list,
}
use devsignal.Feed.Ordering.{
  UniqueIds, IsOrdered, order_entries-IsOrdered, filter-UniqueIds, order-filter, drop_first,
  after-last, last-All, key_lt_trans, filter-All,
}
use devsignal.Feed.Windows.{
  page_size_positive, filter-and, filter-weaker, filter-IsOrdered, length-drop, map-take_drop,
  length-take,
}

-- The items of a page, and what the rest of the requests give.
abbrev page_then : (Text → List Summary) → Listed → List Summary
page_then more (listed p) =
    let rest = more p.next_cursor in p.items ++ (if is_empty p.next_cursor then [] else rest)
page_then more invalid_input = []
page_then more list_failed = []

All-true : (xs : List Entry) → All (λ x. true ≡ true) xs
All-true [] = tt
All-true (x ∷ xs) = (refl, All-true xs)

==_less : (a m : ℕ) → a ≤ m → (a == suc m) ≡ false
==_less a m h = ground arith

page_then-more :
    (more : Text → List Summary) (p : Page) (c : Text)
    → p.next_cursor ≡ c
    → is_empty c ≡ false
    → page_then more (listed p) ≡ p.items ++ more c
page_then-more more p c e h = rw (e, h) refl

page_then-end :
    (more : Text → List Summary) (p : Page)
    → p.next_cursor ≡ []
    → page_then more (listed p) ≡ p.items
page_then-end more p e = rw e (append-nil p.items)

is_after_trans :
    (after : Option Key) (y o : Entry)
    → is_after after y ≡ true
    → is_after (some (key_of y)) o ≡ true
    → is_after after o ≡ true
unfolding is_after
is_after_trans none y o h k = refl
is_after_trans (some a) y o h k = key_lt_trans (key_of o) (key_of y) a k h

decode-some :
    (decode : Text → Option Key) (s : Text) (k : Key)
    → decode s ≡ some k
    → is_empty s ≡ false
    → decode_cursor decode s ≡ some (some k)
unfolding decode_cursor
decode-some decode [] k h e = absurd (false≢true (sym e))
decode-some decode (c ∷ s) k h e = rw h refl

module _ (encode : Key → Text) (days_of : ℤ → ℤ) (now : ℤ) (m : ℕ) (rows : List Entry) where
  cursor-full :
      (y : Entry)
      → length rows ≡ suc m
      → last_of rows ≡ some y
      → (page_of encode days_of (suc m) now rows).next_cursor ≡ encode (key_of y)
  unfolding page_of
  cursor-full y l h = rw (l, ==_refl (suc m), lt→ltb 0 (suc m) (omega arith), h) refl

  cursor-short : length rows ≤ m → (page_of encode days_of (suc m) now rows).next_cursor ≡ []
  unfolding page_of
  cursor-short l = rw (==_less (length rows) m l) refl

module _ (like : Text → Text → Bool) (encode : Key → Text) (decode : Text → Option Key)
    (days_of : ℤ → ℤ) (now : ℤ) (ts : List Entry) where
  abbrev pub summary : Entry → Summary
  summary r = summary_from_list days_of r now

  -- The requests of a client: with the cursor of each page for the next, as long as there is one.
  unfoldable pub follow : ℕ → ListFilter → List Summary
  follow zero f = []
  follow (suc k) f =
      page_then (λ c. follow k (record f { cursor = c }))
        (list like encode decode days_of true now ts f)

  -- All that is served, in order.
  abbrev pub feed : ListFilter → List Entry
  feed f = order_entries (filter (is_served like f) ts)

  module _ (unique : UniqueIds ts) (decodes : (k : Key) → decode (encode k) ≡ some k)
      (filled : (k : Key) → is_empty (encode k) ≡ false) where
    feed-same : (f : ListFilter) (c : Text) → feed (record f { cursor = c }) ≡ feed f
    unfolding is_served
    feed-same f c = refl

    rows :
        (f : ListFilter) (after : Option Key) (n : ℕ)
        → list_opportunities like f after n ts ≡ take n (filter (is_after after) (feed f))
    unfolding list_opportunities
    rows f after n =
        ap (λ xs. take n (order_entries xs)) (filter-and (is_served like f) (is_after after) ts)
        ∙ ap (take n) (
            order-filter (is_after after) (filter (is_served like f) ts)
              (filter-UniqueIds (is_served like f) ts unique))

    list-page :
        (f : ListFilter) (after : Option Key) (m : ℕ)
        → decode_cursor decode f.cursor ≡ some after
        → page_size f.page_size ≡ suc m
        → list like encode decode days_of true now ts f
          ≡ listed
              (page_of encode days_of (suc m) now (take (suc m) (filter (is_after after) (feed f))))
    unfolding list
    list-page f after m d e = rw (d, e, rows f after (suc m)) refl

    -- The rows after the last row of a page.
    rows_left :
        (f : ListFilter) (after : Option Key) (m : ℕ)
        → suc m ≤ length (filter (is_after after) (feed f))
        → (y : Entry) × (last_of (take (suc m) (filter (is_after after) (feed f))) ≡ some y)
          × (filter (is_after (some (key_of y))) (feed f)
              ≡ drop_first (suc m) (filter (is_after after) (feed f)))
    unfolding is_after
    rows_left f after m l =
        let left_rows = filter (is_after after) (feed f) in
        let ordered = filter-IsOrdered (is_after after) (feed f) (
          order_entries-IsOrdered (filter (is_served like f) ts)
            (filter-UniqueIds (is_served like f) ts unique)) in
        let (y, last, left) = after-last m left_rows ordered l in
        let y_after : is_after after y ≡ true =
          last-All (λ o. is_after after o ≡ true) (take (suc m) left_rows) y
            (All-take (λ o. is_after after o ≡ true) (suc m) left_rows
              (All-filter_self (is_after after) (feed f)))
            last in
        (
          y,
          last,
          sym (
                filter-weaker (is_after after) (is_after (some (key_of y))) (feed f)
                  (λ o h. is_after_trans after y o y_after h))
              ∙ left,
        )

    page-items :
        (n : ℕ) (xs : List Entry) → (page_of encode days_of n now xs).items ≡ map summary xs
    unfolding page_of
    page-items n xs = refl

    abbrev Follows : ℕ → ListFilter → Option Key → Type 0
    Follows k f after =
        length (filter (is_after after) (feed f)) < k
        → follow k f ≡ map summary (filter (is_after after) (feed f))

    -- One page, and what the rest of the requests give.
    follow_page :
        (k : ℕ) (f : ListFilter) (after : Option Key) (m : ℕ)
        → decode_cursor decode f.cursor ≡ some after
        → page_size f.page_size ≡ suc m
        → ((key : Key) → Follows k (record f { cursor = encode key }) (some key))
        → Follows (suc k) f after
    unfolding follow is_served
    follow_page k f after m d size rest l =
        let left_rows = filter (is_after after) (feed f) in
        let page = page_of encode days_of (suc m) now (take (suc m) left_rows) in
        let more : Text → List Summary = λ c. follow k (record f { cursor = c }) in
        elim (Bool-cases (ltb m (length left_rows))) [
          | inl full ↦
              let le : suc m ≤ length left_rows = omega (arith, ltb→lt m (length left_rows) full) in
              let (y, last, left) = rows_left f after m le in
              let key = key_of y in
              let turned =
                cursor-full encode days_of now m (take (suc m) left_rows) y
                  (length-take (suc m) left_rows le) last in
              let fewer : length (filter (is_after (some key)) (feed f)) < k =
                rw left (omega (arith, length-drop m left_rows le, l)) in
              ap (page_then more) (list-page f after m d size)
              ∙ (page_then-more more page (encode key) turned (filled key)
                  ∙ (ap (λ xs. page.items ++ xs) (rest key fewer ∙ ap (map summary) left)
                      ∙ (ap (λ xs. xs ++ map summary (drop_first (suc m) left_rows))
                            (page-items (suc m) (take (suc m) left_rows))
                          ∙ map-take_drop summary (suc m) left_rows)))
          | inr short ↦
              let le : length left_rows ≤ m = ground arith in
              let whole : take (suc m) left_rows ≡ left_rows =
                take_all (suc m) left_rows (omega (arith, le)) in
              let ended =
                cursor-short encode days_of now m (take (suc m) left_rows) (rw whole le) in
              ap (page_then more) (list-page f after m d size)
              ∙ (page_then-end more page ended
                  ∙ (page-items (suc m) (take (suc m) left_rows) ∙ ap (map summary) whole))
        ]

    follow_from :
        (k : ℕ) (f : ListFilter) (after : Option Key)
        → decode_cursor decode f.cursor ≡ some after
        → Follows k f after
    follow_from zero f after d l = absurd (omega arith)
    follow_from (suc k) f after d l =
        let (m, size) = page_size_positive f.page_size in
        follow_page k f after m d size
          (λ key.
            follow_from k (record f { cursor = encode key }) (some key)
              (decode-some decode (encode key) key (decodes key) (filled key)))
          l

    -- The pages of the feed are the feed. For a table with unique ids that does not change meanwhile,
    -- and cursors that decode to what was encoded and are not empty: a client that asks for the first
    -- page, of whatever size, and then with the cursor of each page for the next, has after at most
    -- one request more than there are postings every posting that is ready, open, not merged away and
    -- passes the filter, once each, from the one that was first seen last on, by ids where the times
    -- are the same.
    pub follow-feed :
        (fuel : ℕ) (f : ListFilter)
        → f.cursor ≡ []
        → length (feed f) < fuel
        → (follow fuel f ≡ map summary (feed f)) × IsOrdered (feed f)
    unfolding is_after decode_cursor
    follow-feed fuel f c l =
        let all : filter (is_after none) (feed f) ≡ feed f =
          filter-All (is_after none) (feed f) (All-true (feed f)) in
        (
          follow_from fuel f none (rw c refl) (rw all l) ∙ ap (map summary) all,
          order_entries-IsOrdered (filter (is_served like f) ts)
              (filter-UniqueIds (is_served like f) ts unique),
        )
