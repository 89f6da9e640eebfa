-- ===== src/Ingest/Health/Policy.antt =====
-- When a source is marked as degraded, and when it is quarantined.
use devsignal.Prelude.{
  ℕ, ◌+◌, ◌≤◌, ◌≡◌, ◌⊎◌, refl, ap, ◌∙◌, true, false, false≢true, Bool, Option, none, some, inl, inr,
  Bool-cases, ◌==◌, ◌||◌, ◌&&◌, arith,
}
use devsignal.Prelude.Text.{Text}
use devsignal.Prelude.Search.{update, find-map, find-selects, update-yes, on_found}
use devsignal.SourceHealth.{
  Float64, Reason, Verdict, Status, healthy, degraded, unknown, should_quarantine,
}
use devsignal.Ingest.Run.{Result}
use devsignal.Ingest.Health.{
  Source, active, HealthDay, Registry, Up, on_source, has_source_id, clear_degraded, set_degraded,
  quarantine_degraded, get_source_by_id, quarantine_if, on_degraded, act_on, judge_today,
  evaluate_health, today_source_health, record_source_health, poll_counts, record_health, summarize,
}

-- What one poll may do to its source, as the comments of the code promise it.
pub data Judged (s : Source) : Source → Type 0 where
  not_judged : Judged s s
  cleared : Judged s (clear_degraded s)
  marked : (note : Text) → Judged s (set_degraded note s)
  suspended :
      (note : Text)
      → 2 ≤ s.consecutive_degraded
      → Judged s (quarantine_degraded note (set_degraded note s))

abbrev Finds : ℕ → Source → Registry → Type 0
Finds id s reg = get_source_by_id id reg ≡ some s

-- What becomes of the source under this id.
abbrev pub JudgedIn : ℕ → Source → Registry → Type 0
JudgedIn id s reg = (t : Source) × Finds id t reg × Judged s t

on_source-Finds :
    (id : ℕ) (f : Source → Source) (s : Source) (reg : Registry)
    → ((t : Source) → (f t).id ≡ t.id)
    → Finds id s reg
    → Finds id (f s) (on_source id f reg)
unfolding get_source_by_id
on_source-Finds id f s reg keeps h =
    let here = find-selects (has_source_id id) reg.sources s h in
    find-map (has_source_id id) (update (has_source_id id) f) reg.sources
      (λ t. same t (Bool-cases (t.id == id)))
    ∙ ap (on_found (update (has_source_id id) f)) h
    ∙ ap some (update-yes (has_source_id id) f s here)
  where
    same :
        (t : Source)
        → ((t.id == id) ≡ true) ⊎ ((t.id == id) ≡ false)
        → has_source_id id (update (has_source_id id) f t) ≡ has_source_id id t
    same t (inl e) = rw (e, keeps t) e
    same t (inr e) = rw e e

set_degraded_id : (note : Text) (s : Source) → (set_degraded note s).id ≡ s.id
unfolding set_degraded
set_degraded_id note s = refl

clear_degraded_id : (s : Source) → (clear_degraded s).id ≡ s.id
unfolding clear_degraded
clear_degraded_id s = ground arith

quarantine_degraded_id : (note : Text) (s : Source) → (quarantine_degraded note s).id ≡ s.id
unfolding quarantine_degraded
quarantine_degraded_id note s = ground arith

marked_twice :
    (note : Text) (s : Source)
    → should_quarantine (set_degraded note s).consecutive_degraded ≡ true
    → 2 ≤ s.consecutive_degraded
unfolding should_quarantine set_degraded
marked_twice note s h = ground arith

quarantine_if-Judged :
    (up : Up) (id : ℕ) (note : Text) (s : Source) (reg : Registry)
    → Finds id (set_degraded note s) reg
    → JudgedIn id s (quarantine_if up id note reg (some (set_degraded note s)))
unfolding quarantine_if
quarantine_if-Judged up id note s reg h =
    elim (Bool-cases (
      up.loading
      && should_quarantine (set_degraded note s).consecutive_degraded
      && up.quarantining)) [
        | inl e ↦ rw e (
          quarantine_degraded note (set_degraded note s),
          on_source-Finds id (quarantine_degraded note) (set_degraded note s) reg
              (quarantine_degraded_id note) h,
          suspended note (marked_twice note s (ground arith)),
        )
        | inr e ↦ rw e (set_degraded note s, h, marked note)
      ]

on_degraded-Judged :
    (up : Up) (id : ℕ) (note : Text) (s : Source) (reg : Registry)
    → Finds id s reg
    → JudgedIn id s (on_degraded up id note reg)
unfolding on_degraded
on_degraded-Judged up id note s reg h =
    let found = on_source-Finds id (set_degraded note) s reg (set_degraded_id note) h in
    elim (Bool-cases up.marking) [
      | inl e ↦
          rw (e, found)
            (quarantine_if-Judged up id note s (on_source id (set_degraded note) reg) found)
      | inr e ↦ rw e (s, h, not_judged)
    ]

module _ {F : Type 0} (d : Float64 F) (detail : Reason F → Text) (up : Up) (id today : ℕ)
    (s : Source) where
  act_on-Judged :
      (reg : Registry) (v : Verdict F) → Finds id s reg → JudgedIn id s (act_on detail up id reg v)
  unfolding act_on
  act_on-Judged reg v h = go v.status refl
    where
      go : (x : Status) → v.status ≡ x → JudgedIn id s (act_on detail up id reg v)
      go unknown e = rw (e, act_on) (s, h, not_judged)
      go degraded e = rw (e, act_on) (on_degraded-Judged up id (summarize detail v.reasons) s reg h)
      go healthy e = elim (Bool-cases up.clearing) [
        | inl f ↦
            rw (e, act_on, f)
              (
                clear_degraded s,
                on_source-Finds id clear_degraded s reg clear_degraded_id h,
                cleared,
              )
        | inr f ↦ rw (e, act_on, f) (s, h, not_judged)
      ]

  judge_today-Judged :
      (reg : Registry) (h : Option HealthDay)
      → Finds id s reg
      → JudgedIn id s (judge_today d detail up id today reg h)
  unfolding judge_today
  judge_today-Judged reg none f = (s, f, not_judged)
  judge_today-Judged reg (some h) f = elim (Bool-cases (up.today && up.baseline)) [
    | inl e ↦ rw e (act_on-Judged reg _ f)
    | inr e ↦ rw e (s, f, not_judged)
  ]

  evaluate_health-Judged :
      (reg : Registry) → Finds id s reg → JudgedIn id s (evaluate_health d detail up id today reg)
  unfolding evaluate_health
  evaluate_health-Judged reg h = judge_today-Judged reg (today_source_health id today reg) h

  -- A poll treats its source as the policy says: it leaves it, clears its degradation, marks it as
  -- degraded once more, or marks it and quarantines it, the last only if it was marked at least twice
  -- since it was last cleared. A poll that failed or found nothing modified leaves it. This holds
  -- whichever statements the database runs, for every wording of the reasons and every arithmetic
  -- of the rates.
  pub health_policy :
      (res : Result) (failed : Bool) (reg : Registry)
      → get_source_by_id id reg ≡ some s
      → let reg' = record_health d detail up id today res failed reg in
        JudgedIn id s reg'
        × ((failed || res.not_modified) ≡ true → get_source_by_id id reg' ≡ some s)
  unfolding record_health record_source_health get_source_by_id
  health_policy res failed reg h =
      let reg' = record_source_health (poll_counts id today res failed) reg in
      elim (Bool-cases up.recording) [
        | inl e ↦ elim (Bool-cases (failed || res.not_modified)) [
          | inl f ↦ rw (e, f) ((s, h, not_judged), λ _. h)
          | inr f ↦ rw (e, f) (evaluate_health-Judged reg' h, λ no. absurd (false≢true no))
        ]
        | inr e ↦ rw e ((s, h, not_judged), λ _. h)
      ]

Judged-once :
    (s t : Source)
    → Judged s t
    → s.status ≡ active
    → s.consecutive_degraded ≤ 1
    → (t.status ≡ active) × (t.consecutive_degraded ≤ s.consecutive_degraded + 1)
unfolding clear_degraded set_degraded
Judged-once s t not_judged h k = (h, omega arith)
Judged-once s t cleared h k = ground arith
Judged-once s t (marked note) h k = (h, omega arith)
Judged-once s t (suspended note often) h k = absurd (omega arith)

still_active :
    {F : Type 0} (d : Float64 F) (detail : Reason F → Text) (up : Up) (id today : ℕ) (res : Result)
    (failed : Bool) (s : Source) (reg : Registry)
    → get_source_by_id id reg ≡ some s
    → s.status ≡ active
    → s.consecutive_degraded ≤ 1
    → (t : Source) × (get_source_by_id id (record_health d detail up id today res failed reg)
        ≡ some t)
      × (t.status ≡ active)
      × (t.consecutive_degraded ≤ s.consecutive_degraded + 1)
still_active d detail up id today res failed s reg h a k =
    let ((t, found, judged), _) = health_policy d detail up id today s res failed reg h in
    let (on, few) = Judged-once s t judged a k in (t, found, on, few)

-- Two polls never take a source offline: after two polls of an active source that was not marked,
-- on any days and with any results, the source is active.
pub two_polls_keep_source :
    {F : Type 0} (d : Float64 F) (detail : Reason F → Text) (up up' : Up) (id today later : ℕ)
    (res res' : Result) (failed failed' : Bool) (s : Source) (reg : Registry)
    → get_source_by_id id reg ≡ some s
    → s.status ≡ active
    → s.consecutive_degraded ≡ 0
    → (t : Source) × (get_source_by_id id (
          record_health d detail up' id later res' failed'
            (record_health d detail up id today res failed reg))
        ≡ some t)
      × (t.status ≡ active)
two_polls_keep_source d detail up up' id today later res res' failed failed' s reg h a z =
    let (t, found, on, few) =
      still_active d detail up id today res failed s reg h a (omega arith) in
    let (u, found', on', _) =
      still_active d detail up' id later res' failed' t
        (record_health d detail up id today res failed reg) found on (omega arith) in
    (u, found', on')
