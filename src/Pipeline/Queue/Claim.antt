-- ===== src/Pipeline/Queue/Claim.antt =====
-- `Claim`: what a worker is handed, and that nobody else is handed the same while the lease runs.
use devsignal.Prelude.{
  ℕ, ◌+◌, ◌≤◌, ◌≡◌, ◌≢◌, refl, Bool, true, false, false≢true, some, List, [], map, All, All-filter,
  All-map, All-of_map, length, length-map, filter, arith, sym, ◌∙◌, ap,
}
use devsignal.Pipeline.State.{State}
use devsignal.Pipeline.Row.{Row, elem, claimable, claim_row}
use devsignal.Pipeline.Row.Keys.{id-claim_row}
use devsignal.Pipeline.Table.{Table, find_row, pick, claim_batch}
use devsignal.Pipeline.Table.Lookup.{
  UniqueIds, UniqueIds-map, find_row-map, affected-elem-le, All-find_row,
}
use devsignal.Pipeline.Table.Pick.{pick-claimable, length-pick}
use devsignal.Pipeline.Queue.{
  Config, Item, Claimed, items, claim_failed, claim, pg_interval, to_item,
}

-- The items of a claim; a claim that failed has none.
abbrev pub claimed_items : Claimed → List Item
claimed_items (items its) = its
claimed_items claim_failed = []

-- The row under lease.
abbrev pub leased : ℕ → Row → Row
leased until r = record r { lease_until = some until; attempts = r.attempts + 1 }

-- What a claim made at `now` in `state` promises of an item, between the tables before and after.
pub record IsClaimed (cfg : Config) (now : ℕ) (state : State) (t t' : Table) (it : Item)
    : Type 0 where
  pub before : Row
  pub was_at : find_row it.id t ≡ some before
  pub was_claimable : claimable now state before ≡ true
  pub is_at : find_row it.id t' ≡ some (leased (now + pg_interval cfg.lease) before)
  pub same_version : it.version ≡ before.version
  pub same_state : it.state ≡ before.state
  pub counted : it.attempts ≡ before.attempts + 1

module _ (cfg : Config) (locked : ℕ → Bool) (now : ℕ) (state : State) (t : Table)
    (u : UniqueIds t) where
  ids : List ℕ
  ids = pick locked now state cfg.batch_size t

  until : ℕ
  until = now + pg_interval cfg.lease

  touch : Row → Row
  touch = claim_row ids (pg_interval cfg.lease) now

  claim-eq :
      claim cfg locked (record { now = now; up = true }) state t
      ≡ (map touch t, items (map to_item (filter (λ r. elem r.id ids) (map touch t))))
  unfolding claim claim_batch ids touch
  claim-eq = refl

  IsClaimed-row :
      (r : Row)
      → find_row r.id t ≡ some r
      → elem (touch r).id ids ≡ true
      → IsClaimed cfg now state t (map touch t) (to_item (touch r))
  unfolding to_item touch until
  IsClaimed-row r h e =
      let chosen : elem r.id ids ≡ true =
        rw (id-claim_row r ids (pg_interval cfg.lease) now) at e in
      let moved : touch r ≡ leased until r = unfold claim_row in rw chosen in
      rw moved (record {
        before = r;
        was_at = h;
        was_claimable =
            (pick-claimable locked now state cfg.batch_size t r.id r u h (unfold ids in chosen)).0;
        is_at =
            rw (find_row-map touch r.id t (λ s. id-claim_row s ids (pg_interval cfg.lease) now), h)
              (ap some moved);
        same_version = refl;
        same_state = refl;
        counted = refl;
      })

  All-IsClaimed :
      All
        (IsClaimed cfg now state t (map touch t))
        (map to_item (filter (λ r. elem r.id ids) (map touch t)))
  All-IsClaimed =
      All-of_map (IsClaimed cfg now state t (map touch t)) to_item
        (filter (λ r. elem r.id ids) (map touch t))
        (All-filter (λ r. IsClaimed cfg now state t (map touch t) (to_item r)) (λ r. elem r.id ids)
          (map touch t)
          (All-of_map _ touch t
            (All-map (λ s. find_row s.id t ≡ some s) _ t IsClaimed-row (All-find_row t u))))

  unique_after : UniqueIds (map touch t)
  unfolding touch
  unique_after = UniqueIds-map touch t (λ s. id-claim_row s ids (pg_interval cfg.lease) now) u

  pub UniqueIds-claim : UniqueIds (claim cfg locked (record { now = now; up = true }) state t).0
  UniqueIds-claim = rw claim-eq unique_after

  few_claimed : length (map to_item (filter (λ r. elem r.id ids) (map touch t))) ≤ cfg.batch_size
  unfolding ids
  few_claimed = rw (length-map to_item) (
      omega (
        arith,
        affected-elem-le ids (map touch t) unique_after,
        length-pick locked now state cfg.batch_size t,
      ))

  -- A claim through a running database hands out at most the batch size, and each item it hands out
  -- was claimable, is what its row now holds, with the attempt counted, and its row is under lease
  -- until the lease's length from now.
  pub claim_contract :
      let (t', c) = claim cfg locked (record { now = now; up = true }) state t in
      All (IsClaimed cfg now state t t') (claimed_items c)
      × (length (claimed_items c) ≤ cfg.batch_size)
  claim_contract = rw claim-eq (All-IsClaimed, few_claimed)

lease_holds :
    (until now' : ℕ) (state' : State) (r : Row)
    → now' ≤ until
    → claimable now' state' (leased until r) ≡ false
unfolding claimable
lease_holds until now' state' r h = ground arith

module _ (cfg : Config) (now now' : ℕ) (state state' : State) (t t' t'' : Table) where
  other_item :
      now' ≤ now + pg_interval cfg.lease
      → (it it' : Item) → IsClaimed cfg now state t t' it
      → IsClaimed cfg now' state' t' t'' it'
      → it'.id ≢ it.id
  other_item le it it' a b same =
      let until = now + pg_interval cfg.lease in
      let found : some (leased until a.before) ≡ some b.before =
        sym a.is_at ∙ ap (λ k. find_row k t') (sym same) ∙ b.was_at in
      let row : leased until a.before ≡ b.before = cc in
      false≢true (
        sym (lease_holds until now' state' a.before le)
        ∙ ap (claimable now' state') row
        ∙ b.was_claimable)

-- No two workers hold the same item: after a claim, a second claim, in any state and skipping
-- whatever rows, that comes before the first lease has run out hands out no item that the first
-- one handed out.
pub claim_exclusive :
    (cfg : Config) (locked locked' : ℕ → Bool) (now now' : ℕ) (state state' : State) (t : Table)
    → UniqueIds t
    → now' ≤ now + pg_interval cfg.lease
    → let (t', first) = claim cfg locked (record { now = now; up = true }) state t in
      let (t'', second) = claim cfg locked' (record { now = now'; up = true }) state' t' in
      All (λ it. All (λ it'. it'.id ≢ it.id) (claimed_items second)) (claimed_items first)
claim_exclusive cfg locked locked' now now' state state' t u before =
    let (t', first) = claim cfg locked (record { now = now; up = true }) state t in
    let (t'', second) = claim cfg locked' (record { now = now'; up = true }) state' t' in
    let others =
      (claim_contract cfg locked' now' state' t' (UniqueIds-claim cfg locked now state t u)).0 in
    All-map (IsClaimed cfg now state t t') _ (claimed_items first)
      (λ it a.
        All-map (IsClaimed cfg now' state' t' t'') _ (claimed_items second)
          (λ it'. other_item cfg now now' state state' t t' t'' before it it' a) others)
      (claim_contract cfg locked now state t u).0
