-- ===== src/Ingest/Ghost.antt =====
-- internal/ingest with internal/ghostrisk: how polls of one unchanged posting count as reposts. The
-- feed hands the column repost_count to the assessment as it stands.
use devsignal.Prelude.{
  ℕ, ◌+◌, ◌≤◌, ◌<◌, ◌≡◌, refl, ◌∙◌, some, Option, List, [], ◌∷◌, length, arith, lt→ltb,
}
use devsignal.Prelude.Int.{ℤ, pos}
use devsignal.GhostRisk.{Signals, high, assess}
use devsignal.GhostRisk.Bands.{assess_bands}
use devsignal.Ingest.Rows.{Opportunity, mark_seen}

-- Polls at these times that find the same content and the same claimed date.
unfoldable pub polled : Option ℕ → List ℕ → Opportunity → Opportunity
polled claimed [] o = o
polled claimed (now ∷ times) o = polled claimed times (mark_seen claimed now o)

polled_counts :
    (claimed baseline : ℕ) (times : List ℕ) (o : Opportunity)
    → baseline < claimed
    → o.source_posted_at_at_last_change ≡ some baseline
    → (polled (some claimed) times o).repost_count ≡ o.repost_count + length times
unfolding polled mark_seen
polled_counts claimed baseline [] o h e = omega arith
polled_counts claimed baseline (now ∷ times) o h e =
    let o' = mark_seen (some claimed) now o in
    polled_counts claimed baseline times o' h e ∙ rw (e, lt→ltb baseline claimed h) (omega arith)

-- One refresh of the claimed date is counted again at every poll. If the date that the source claims
-- is after the one it claimed at the last change of the content, then n polls that find this same
-- content and this same date add n to the number of reposts, though from the first of them on the
-- stored date is the claimed one; so 4 such polls put the posting in the highest band of ghost risk,
-- whatever the other signals are.
pub refresh_is_recounted :
    (claimed baseline : ℕ) (times : List ℕ) (o : Opportunity) (days_of : ℤ → ℤ) (g : Signals)
    (now : ℤ)
    → baseline < claimed
    → o.source_posted_at_at_last_change ≡ some baseline
    → let p = polled (some claimed) times o in
      (p.repost_count ≡ o.repost_count + length times)
      × ((t : ℕ) → (mark_seen (some claimed) t o).source_reported_posted_at ≡ some claimed)
      × (4 ≤ length times
          → g.repost_count ≡ pos p.repost_count
          → (assess days_of g now).band ≡ high)
unfolding mark_seen
refresh_is_recounted claimed baseline times o days_of g now h e =
    let count = polled_counts claimed baseline times o h e in
    (
      count,
      λ t. refl,
      (λ often same. (assess_bands days_of g now).1 (rw same (omega (arith, count)))),
    )
