-- ===== src/Pipeline/Table/Lookup.antt =====
-- Tables under a primary key: reading a row after a statement, and counting the rows it touches.
use devsignal.Prelude.{
  ℕ, ◌≡◌, ◌≢◌, refl, Bool, true, false, Option, none, some, List, [], ◌∷◌, map, All, All-map,
  All-both, Bool-cases, ◌≤◌, ◌+◌, ==_refl, ◌||◌, inl, inr, sym, ◌∙◌, arith, length, ◌==◌, ==_iff,
  if◌then◌else◌,
}
use mathlib.Core.Option
use devsignal.Pipeline.Row.{Row, elem}
use devsignal.Pipeline.Table.{Table, find_row, affected}

-- `id` is the primary key.
abbrev pub UniqueIds : Table → Type 0
UniqueIds [] = Unit
UniqueIds (r ∷ t) = All (λ s. s.id ≢ r.id) t × UniqueIds t

-- A row function that leaves the key alone.
abbrev pub KeepsId : (Row → Row) → Type 0
KeepsId f = (r : Row) → (f r).id ≡ r.id

pub find_row-map :
    (f : Row → Row) (id : ℕ) (t : Table)
    → KeepsId f
    → find_row id (map f t) ≡ Option.map f (find_row id t)
unfolding find_row
find_row-map f id [] keeps = refl
find_row-map f id (r ∷ t) keeps = ground (arith, keeps r, find_row-map f id t keeps)

pub find_row-id : (id : ℕ) (t : Table) (r : Row) → find_row id t ≡ some r → r.id ≡ id
unfolding find_row
find_row-id id [] r h = cc
find_row-id id (s ∷ t) r h = ground (arith, find_row-id id t r)

All-ne-map :
    (f : Row → Row) (k : ℕ) (t : Table)
    → KeepsId f
    → All (λ s. s.id ≢ k) t
    → All (λ s. s.id ≢ k) (map f t)
All-ne-map f k [] keeps h = tt
All-ne-map f k (r ∷ t) keeps h = (λ e. h.0 (rw (← keeps r) e), All-ne-map f k t keeps h.1)

pub UniqueIds-map : (f : Row → Row) (t : Table) → KeepsId f → UniqueIds t → UniqueIds (map f t)
UniqueIds-map f [] keeps u = tt
UniqueIds-map f (r ∷ t) keeps u =
    (rw (keeps r) (All-ne-map f r.id t keeps u.0), UniqueIds-map f t keeps u.1)

-- A WHERE clause that fixes the key.
abbrev pub FixesId : ℕ → (Row → Bool) → Type 0
FixesId id p = (r : Row) → p r ≡ true → r.id ≡ id

affected-none :
    (id : ℕ) (p : Row → Bool) (t : Table) → FixesId id p → All (λ s. s.id ≢ id) t → affected p t ≡ 0
affected-none id p [] fixes h = refl
affected-none id p (r ∷ t) fixes h = ground (arith, fixes r, affected-none id p t fixes h.1, h.0)

abbrev pub count_of : (Row → Bool) → Option Row → ℕ
count_of p none = 0
count_of p (some r) = if p r then 1 else 0

-- A statement whose WHERE clause fixes the key touches the row under that key, if it passes, and
-- no other.
pub affected-eq :
    (id : ℕ) (p : Row → Bool) (t : Table)
    → FixesId id p
    → UniqueIds t
    → affected p t ≡ count_of p (find_row id t)
unfolding find_row
affected-eq id p [] fixes u = refl
affected-eq id p (r ∷ t) fixes u = elim (Bool-cases (r.id == id)) [
  | inl e ↦
      let same = (==_iff r.id id).0 e in
      ground (arith, affected-none r.id p t (λ s h. fixes s h ∙ sym same) u.0)
  | inr ne ↦ ground (arith, fixes r, affected-eq id p t fixes u.1)
]

-- Under a primary key, each row is the one that its key finds.
pub All-find_row : (t : Table) → UniqueIds t → All (λ s. find_row s.id t ≡ some s) t
unfolding find_row
All-find_row [] u = tt
All-find_row (r ∷ t) u = (
  rw (==_refl r.id),
  All-map (λ s. (s.id ≢ r.id) × (find_row s.id t ≡ some s)) (λ s. find_row s.id (r ∷ t) ≡ some s) t
      (λ s h. ground (arith, h))
      (All-both (λ s. s.id ≢ r.id) (λ s. find_row s.id t ≡ some s) t u.0 (All-find_row t u.1)),
)

affected-false : (t : Table) → affected (λ r. false) t ≡ 0
affected-false [] = refl
affected-false (r ∷ t) = affected-false t

affected-or :
    (p q : Row → Bool) (t : Table) → affected (λ r. p r || q r) t ≤ affected p t + affected q t
affected-or p q [] = omega arith
affected-or p q (r ∷ t) = ground (arith, affected-or p q t)

count_of_le : (p : Row → Bool) (o : Option Row) → count_of p o ≤ 1
count_of_le p none = omega arith
count_of_le p (some r) = ground arith

-- A WHERE clause on a list of keys touches no more rows than the list has keys.
pub affected-elem-le :
    (ids : List ℕ) (t : Table) → UniqueIds t → affected (λ r. elem r.id ids) t ≤ length ids
affected-elem-le [] t u = omega (arith, affected-false t)
affected-elem-le (k ∷ ids) t u = omega (
  arith,
  affected-or (λ r. r.id == k) (λ r. elem r.id ids) t,
  affected-eq k (λ r. r.id == k) t (λ r h. (==_iff r.id k).0 h) u,
  count_of_le (λ r. r.id == k) (find_row k t),
  affected-elem-le ids t u,
)
