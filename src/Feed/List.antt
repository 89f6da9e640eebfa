-- ===== src/Feed/List.antt =====
-- internal/opportunity/service.go: List, with its statement in internal/store/feed.sql.go. `like` is
-- the database's LIKE with '%' around the pattern; a cursor is the time and the id of the last row,
-- and `encode` and `decode` are its text.
use devsignal.Prelude.{
  ℕ, Bool, true, false, ◌&&◌, ◌||◌, Option, none, some, List, [], ◌∷◌, map, length, take, filter,
  ltb, ◌==◌, if◌then◌else◌,
}
use devsignal.Prelude.Int.{ℤ, pos, ltb_ℤ}
use devsignal.Prelude.Text.{Text, text_eq}
use devsignal.Pipeline.State.{ready, is_state}
use devsignal.Pipeline.Row.{is_null}
use devsignal.Feed.Mapping.{Entry, Summary, summary_from_list}

pub record Key : Type 0 where
  pub seen : ℕ
  pub id : ℕ

abbrev pub key_of : Entry → Key
key_of o = record { seen = o.first_seen_at; id = o.id }

-- `(a.seen, a.id) < (b.seen, b.id)`
unfoldable pub key_lt : Key → Key → Bool
key_lt a b = ltb a.seen b.seen || a.seen == b.seen && ltb a.id b.id

pub record ListFilter : Type 0 where
  pub role_family : Option Text
  pub work_mode : Option Text
  pub country : Option Text
  pub page_size : ℤ
  pub cursor : Text

-- `$1 IS NULL OR column = $1`; a NULL in the column selects nothing.
abbrev pub wants : Option Text → Option Text → Bool
wants none column = true
wants (some s) none = false
wants (some s) (some t) = text_eq t s

abbrev like_column : (Text → Text → Bool) → Option Text → Text → Bool
like_column like none s = false
like_column like (some t) s = like t s

abbrev pub wants_country : (Text → Text → Bool) → Option Text → Entry → Bool
wants_country like none o = true
wants_country like (some s) o =
    wants (some s) o.location_country || like_column like o.remote_geo_scope s

-- The WHERE clause of ListOpportunities, less the condition on the cursor.
unfoldable pub is_served : (Text → Text → Bool) → ListFilter → Entry → Bool
is_served like f o =
    is_state o.pipeline_state ready
    && is_null o.closed_at
    && is_null o.merged_into
    && wants f.role_family o.role_family
    && wants f.work_mode o.work_mode
    && wants_country like f.country o

unfoldable pub is_after : Option Key → Entry → Bool
unfolding key_lt
is_after none o = true
is_after (some k) o = key_lt (key_of o) k

-- ORDER BY first_seen_at DESC, id DESC.
unfoldable pub insert_entry : Entry → List Entry → List Entry
unfolding key_lt
insert_entry x [] = x ∷ []
insert_entry x (y ∷ ys) =
    let rest = insert_entry x ys in if key_lt (key_of y) (key_of x) then x ∷ y ∷ ys else y ∷ rest

unfoldable pub order_entries : List Entry → List Entry
unfolding insert_entry
order_entries [] = []
order_entries (x ∷ xs) = insert_entry x (order_entries xs)

unfoldable pub list_opportunities :
    (Text → Text → Bool) → ListFilter → Option Key → ℕ → List Entry → List Entry
unfolding is_served is_after order_entries
list_opportunities like f after size ts =
    take size (order_entries (filter (λ o. is_served like f o && is_after after o) ts))

abbrev pub default_page_size : ℕ
default_page_size = 25

abbrev pub max_page_size : ℕ
max_page_size = 100

abbrev clamped : ℤ → ℕ
clamped (pos n) = if ltb max_page_size n then max_page_size else n
clamped n = default_page_size

unfoldable pub page_size : ℤ → ℕ
page_size size = if ltb_ℤ (pos 0) size then clamped size else default_page_size

pub record Page : Type 0 where
  pub items : List Summary
  pub next_cursor : Text

pub data Listed : Type 0 where
  listed : Page → Listed
  invalid_input : Listed
  list_failed : Listed

abbrev start_after : Option Key → Option (Option Key)
start_after none = none
start_after (some k) = some (some k)

-- An empty cursor asks for the first page.
unfoldable pub decode_cursor : (Text → Option Key) → Text → Option (Option Key)
decode_cursor decode [] = some none
decode_cursor decode (c ∷ s) = start_after (decode (c ∷ s))

abbrev pub last_of : List Entry → Option Entry
last_of [] = none
last_of (x ∷ []) = some x
last_of (x ∷ y ∷ ys) = last_of (y ∷ ys)

abbrev cursor_of : (Key → Text) → Option Entry → Text
cursor_of encode none = []
cursor_of encode (some o) = encode (key_of o)

-- A cursor only where the page is full.
unfoldable pub page_of : (Key → Text) → (ℤ → ℤ) → ℕ → ℤ → List Entry → Page
unfolding summary_from_list
page_of encode days_of size now rows = record {
  items = map (λ r. summary_from_list days_of r now) rows;
  next_cursor = if length rows == size && ltb 0 size then cursor_of encode (last_of rows) else [];
}

listed_after :
    (Text → Text → Bool)
    → (Key → Text)
    → (ℤ → ℤ)
    → Bool
    → ℤ
    → List Entry
    → ListFilter
    → Option (Option Key)
    → Listed
unfolding list_opportunities page_of page_size
listed_after like encode days_of up now ts f none = invalid_input
listed_after like encode days_of up now ts f (some after) =
    let size = page_size f.page_size in
    if up
    then listed (page_of encode days_of size now (list_opportunities like f after size ts))
    else list_failed

unfoldable pub list :
    (Text → Text → Bool)
    → (Key → Text)
    → (Text → Option Key)
    → (ℤ → ℤ)
    → Bool
    → ℤ
    → List Entry
    → ListFilter
    → Listed
unfolding listed_after decode_cursor
list like encode decode days_of up now ts f =
    listed_after like encode days_of up now ts f (decode_cursor decode f.cursor)
