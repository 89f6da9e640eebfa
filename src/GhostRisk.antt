-- ===== src/GhostRisk.antt =====
-- internal/ghostrisk: how likely a posting is not a real, open one. An int is an unbounded ℤ: the
-- products of a median with 3 and 6 stay far within int64 for the database's int32 medians.
-- `days_of` is what `int(d.Hours() / 24)` makes of a duration d in nanoseconds.
pub mod Bands
mod Examples
use Prim.Native.Nat.{min}
use devsignal.Prelude.{
  ℕ, zero, suc, ◌+◌, ◌-◌, ◌*◌, ◌/◌, ◌%◌, Bool, true, false, not, ◌||◌, List, [], ◌∷◌, ◌++◌, ltb,
  leb, ◌==◌, if◌then◌else◌, bytes, length,
}
use devsignal.Prelude.Int.{ℤ, pos, negsuc, ltb_ℤ, ◌-ℤ◌, ◌*ℤ◌}
use devsignal.Prelude.Text.{Text, has_prefix, drop}

pub data Band : Type 0 where
  normal : Band
  elevated : Band
  high : Band

-- Times are nanoseconds.
pub record Signals : Type 0 where
  pub first_seen_at : ℤ
  pub last_verified_at : ℤ
  pub repost_count : ℤ
  pub has_apply_method : Bool
  pub company_median_days_to_close : ℤ

pub record Reason : Type 0 where
  pub code : Text
  pub detail : Text

pub record Assessment : Type 0 where
  pub band : Band
  pub reasons : List Reason

abbrev pub repost_elevated : ℤ
repost_elevated = pos 2

abbrev pub repost_high : ℤ
repost_high = pos 4

abbrev pub stale_days : ℤ
stale_days = pos 60

abbrev pub very_stale_days : ℤ
very_stale_days = pos 120

abbrev pub median_multiple_elevated : ℤ
median_multiple_elevated = pos 3

abbrev pub median_multiple_high : ℤ
median_multiple_high = pos 6

-- `a >= b`
abbrev pub geb_ℤ : ℤ → ℤ → Bool
geb_ℤ a b = not (ltb_ℤ a b)

-- strconv.Itoa: the decimal digits; a number has at most as many as the fuel.
unfoldable pub digits_from : ℕ → ℕ → Text → Text
digits_from zero n s = s
digits_from (suc k) n s =
    let rest = digits_from k (n / 10) ((b'0' + n % 10) ∷ s) in
    if ltb n 10 then (b'0' + n) ∷ s else rest

unfoldable pub itoa : ℤ → Text
unfolding digits_from
itoa (pos n) = digits_from (suc n) n []
itoa (negsuc n) = b'-' ∷ digits_from (suc (suc n)) (suc n) []

-- strings.Replace(s, from, to, 1)
unfoldable pub replace : Text → Text → Text → Text
unfolding has_prefix drop
replace [] from to = if has_prefix [] from then to else []
replace (c ∷ s) from to =
    if has_prefix (c ∷ s) from then to ++ drop (length from) (c ∷ s) else c ∷ replace s from to

unfoldable pub plural : ℤ → Text → Text
unfolding replace itoa
plural n tmpl =
    let s = if ltb_ℤ n (pos 1) || ltb_ℤ (pos 1) n then bytes "s" else [] in
    replace (replace tmpl (bytes "%d") (itoa n)) (bytes "%s") s

unfoldable pub itoa1 : Text → ℤ → Text
unfolding replace itoa
itoa1 tmpl a = replace tmpl (bytes "%d") (itoa a)

unfoldable pub itoa2 : Text → ℤ → ℤ → Text
unfolding replace itoa
itoa2 tmpl a b = replace (replace tmpl (bytes "%d") (itoa a)) (bytes "%d") (itoa b)

unfoldable pub days_open : (ℤ → ℤ) → ℤ → ℤ → ℤ
unfolding ◌-ℤ◌
days_open days_of first_seen now =
    let d = days_of (now -ℤ first_seen) in if ltb_ℤ d (pos 0) then pos 0 else d

-- The score and the reasons so far.
pub record Score : Type 0 where
  pub score : ℕ
  pub reasons : List Reason

abbrev pub add : ℕ → Text → Text → Score → Score
add n code detail s = record {
  score = s.score + n;
  reasons = s.reasons ++ record { code = code; detail = detail } ∷ [];
}

abbrev pub refresh_template : Text
refresh_template =
    bytes "the source has refreshed this listing's date %d time%s without the content changing"

abbrev pub usual_template : Text
usual_template = bytes "open %d days; this company usually fills a role in about %d"

unfoldable pub score_reposts : Signals → Score → Score
unfolding plural
score_reposts g s =
    if geb_ℤ g.repost_count repost_high
    then add 3 (bytes "repeated_refresh") (plural g.repost_count refresh_template) s
    else if geb_ℤ g.repost_count repost_elevated
    then add 1 (bytes "refreshed") (plural g.repost_count refresh_template) s
    else s

unfoldable pub score_age : ℤ → ℤ → Score → Score
unfolding itoa1 itoa2 ◌*ℤ◌
score_age days median s =
    if ltb_ℤ (pos 0) median
    then (if geb_ℤ days (median *ℤ median_multiple_high)
        then add 2 (bytes "open_far_longer_than_usual") (itoa2 usual_template days median) s
        else if geb_ℤ days (median *ℤ median_multiple_elevated)
        then add 1 (bytes "open_longer_than_usual") (itoa2 usual_template days median) s
        else s)
    else if geb_ℤ days very_stale_days
    then add 2 (bytes "open_a_long_time")
        (itoa1 (bytes "open %d days, and we have no hiring-pace history for this company") days) s
    else if geb_ℤ days stale_days
    then add 1 (bytes "open_a_while") (itoa1 (bytes "open %d days") days) s
    else s

unfoldable pub score_apply : Bool → Score → Score
score_apply has_apply_method s =
    if not has_apply_method
    then add 1 (bytes "no_apply_route") (bytes "we could not resolve anywhere to actually apply") s
    else s

abbrev pub band_of : ℕ → Band
band_of score = if leb 3 score then high else if leb 1 score then elevated else normal

unfoldable pub scored : (ℤ → ℤ) → Signals → ℤ → Score
unfolding days_open score_reposts score_age score_apply
scored days_of g now = score_apply g.has_apply_method (
    score_age (days_open days_of g.first_seen_at now) g.company_median_days_to_close
      (score_reposts g (record { score = 0; reasons = [] })))

unfoldable pub assess : (ℤ → ℤ) → Signals → ℤ → Assessment
unfolding scored
assess days_of g now =
    let s = scored days_of g now in record { band = band_of s.score; reasons = s.reasons }
