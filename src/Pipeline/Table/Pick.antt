-- ===== src/Pipeline/Table/Pick.antt =====
-- What the subqueries choose: rows of the table that pass the WHERE clause, at most LIMIT of them.
use devsignal.Prelude.{
  ℕ, ◌≤◌, ◌≡◌, ◌≢◌, Bool, true, false, not, ◌&&◌, some, [], ◌∷◌, map, All, All-take, All-filter,
  All-map, length, take, filter, length-take-le, length-map, Bool-cases, false≢true, inl, inr, sym,
  ◌∙◌, arith, ◌==◌, ==_iff,
}
use devsignal.Pipeline.State.{State}
use devsignal.Pipeline.Row.{Row, elem, claimable}
use devsignal.Pipeline.Table.{Table, find_row, pick, insert_row, order_by, by_next_attempt}
use devsignal.Pipeline.Table.Lookup.{UniqueIds}

module _ {κ} (P : Row → Type κ) (before : Row → Row → Bool) where
  All-insert_row : (r : Row) (t : Table) → P r → All P t → All P (insert_row before r t)
  unfolding insert_row
  All-insert_row r [] p h = (p, tt)
  All-insert_row r (s ∷ t) p h = elim (Bool-cases (before r s)) [
    | inl e ↦ rw e (p, h)
    | inr e ↦ rw e (h.0, All-insert_row r t p h.1)
  ]

  pub All-order_by : (t : Table) → All P t → All P (order_by before t)
  unfolding order_by
  All-order_by [] h = tt
  All-order_by (r ∷ t) h = All-insert_row r (order_by before t) h.0 (All-order_by t h.1)

-- Some row of the list has the key, if the key is among those of the list.
elem-All {κ} :
    {Q : Type κ} (k : ℕ) (t : Table)
    → All (λ s. s.id ≡ k → Q) t
    → elem k (map (λ r. r.id) t) ≡ true
    → Q
elem-All k [] h e = absurd (false≢true e)
elem-All k (s ∷ t) h e = elim (Bool-cases (k == s.id)) [
  | inl same ↦ h.0 (sym ((==_iff k s.id).0 same))
  | inr ne ↦ elem-All k t h.1 (rw ne at e)
]

-- Under a primary key, the row that is found is the only one with its key.
All-found :
    (k : ℕ) (t : Table) (r : Row)
    → UniqueIds t
    → find_row k t ≡ some r
    → All (λ s. s.id ≡ k → s ≡ r) t
unfolding find_row
All-found k [] r u h = tt
All-found k (s ∷ t) r u h = elim (Bool-cases (s.id == k)) [
  | inl e ↦
      let found : s ≡ r = ground arith in
      (
        λ _. found,
        All-map (λ x. x.id ≢ s.id) (λ x. x.id ≡ k → x ≡ r) t
            (λ x ne same. absurd (ne (same ∙ sym ((==_iff s.id k).0 e)))) u.0,
      )
  | inr e ↦ (
    λ same. absurd (false≢true (sym e ∙ (==_iff s.id k).1 same)),
    All-found k t r u.1 (rw e at h),
  )
]

pub pick-claimable :
    (locked : ℕ → Bool) (now : ℕ) (state : State) (batch : ℕ) (t : Table) (k : ℕ) (r : Row)
    → UniqueIds t
    → find_row k t ≡ some r
    → elem k (pick locked now state batch t) ≡ true
    → (claimable now state r ≡ true) × (locked k ≡ false)
unfolding pick
pick-claimable locked now state batch t k r u h e =
    elem-All k chosen
      (All-take claims batch (order_by by_next_attempt (filter passes t)) (
        All-order_by claims by_next_attempt (filter passes t) (
          All-filter claims passes t (
            All-map (λ s. s.id ≡ k → s ≡ r) (λ s. passes s ≡ true → claims s) t reads
              (All-found k t r u h)))))
      e
  where
    passes : Row → Bool
    passes s = claimable now state s && not (locked s.id)

    claims : Row → Type 0
    claims s = s.id ≡ k → (claimable now state r ≡ true) × (locked k ≡ false)

    chosen : Table
    chosen = take batch (order_by by_next_attempt (filter passes t))

    reads : (s : Row) → (s.id ≡ k → s ≡ r) → passes s ≡ true → claims s
    reads s same p key = rw (← same key, ← key) (ground arith)

-- A claim takes at most LIMIT rows.
pub length-pick :
    (locked : ℕ → Bool) (now : ℕ) (state : State) (batch : ℕ) (t : Table)
    → length (pick locked now state batch t) ≤ batch
unfolding pick
length-pick locked now state batch t = rw (length-map (λ (r : Row). r.id)) (length-take-le batch _)
