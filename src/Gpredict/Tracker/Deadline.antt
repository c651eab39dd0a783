-- ===== src/Gpredict/Tracker/Deadline.antt =====
-- When a pass whose bearings have stopped is over, on a kernel that runs the silence work at most so
-- much too late (gpredict/src/gpredict.c).
use kfsw_modules.Prelude.{
  ℕ, ◌+◌, ◌*◌, ◌≤◌, ◌<◌, ◌≡◌, ◌≢◌, ◌⊎◌, inl, inr, refl, sym, ap, ◌∙◌, true, false, Option, none,
  some, List, [], ◌∷◌, arith, u32_max,
}
use kfsw_modules.Gpredict.Config.{Config}
use kfsw_modules.Gpredict.Machine.{State}
use kfsw_modules.Gpredict.Tracker.{
  Bearing, Tracker, pass_is_live, is_live, silence_work_handler, bearing, within_travel,
}
use kfsw_modules.Gpredict.Tracker.Steps
use kfsw_modules.Gpredict.Tracker.Quiet.{Quiet, call_at, quiet-Same, quiet-over}
use kfsw_modules.Gpredict.Tracker.Silence.{bearing-IsFollowing, wake_tracking, wake_holding}

pub data Event : Type 0 where
  quiet : Quiet → Event
  wake : Event

-- The kernel's part: the time at which the queued work is due.
pub record Timed : Type 0 where
  pub tracker : Tracker
  pub due : ℕ

wake-over :
    (c : Config) (now : ℕ) (t : Tracker)
    → pass_is_live t ≡ false
    → pass_is_live (silence_work_handler c now t) ≡ false
unfolding silence_work_handler
wake-over c now t h = ground arith

module _ (c : Config) where
  -- k_work_reschedule at `now`, if the handler asked for it.
  abbrev due_after : ℕ → Option ℕ → ℕ → ℕ
  due_after now none due = due
  due_after now (some delay) due = now + delay

  unfoldable pub step : ℕ → Event → Timed → Timed
  step now (quiet k) x = record x { tracker = Steps.step c (call_at now k) x.tracker }
  step now wake x =
      let t = silence_work_handler c now x.tracker in
      record { tracker = t; due = due_after now t.silence_work x.due }

  unfoldable pub run : List (ℕ × Event) → Timed → Timed
  run [] x = x
  run ((now, event) ∷ rest) x = run rest (step now event x)

  -- What is queued has not waited more than `late` beyond its time.
  abbrev pub Served : ℕ → ℕ → Timed → Type 0
  Served late now x = x.tracker.silence_work ≢ none → now ≤ x.due + late

  abbrev pub Allowed : ℕ → Event → Timed → Type 0
  Allowed now (quiet k) x = Unit
  Allowed now wake x = (x.tracker.silence_work ≢ none) × (x.due ≤ now)

  -- The clock never goes back, and the kernel runs the work when it is queued and due, at most `late`
  -- after that.
  unfoldable pub Timely : ℕ → ℕ → List (ℕ × Event) → Timed → ℕ → Type 0
  Timely late start [] x end = (start ≤ end) × Served late end x
  Timely late start ((now, event) ∷ rest) x end =
      (start ≤ now)
      × Served late now x
      × Allowed now event x
      × Timely late now rest (step now event x) end

  -- A pass whose last bearing arrived at `seen`: it is over, or the work that leads it on is queued
  -- for its time.
  record Waits (seen grace : ℕ) (t : Tracker) : Type 0 where
    at : t.last_bearing_ms ≡ seen
    heard : t.bearing_seen ≡ true
    grace_ms : t.status.grace_ms ≡ grace
    queued : t.silence_work ≢ none

  abbrev OnTime : ℕ → ℕ → ℕ → Timed → Type 0
  OnTime seen grace late x =
      (pass_is_live x.tracker ≡ false)
      ⊎ (Waits seen grace x.tracker
          × (((x.tracker.status.state ≡ State.tracking) × (x.due ≡ seen + grace))
              ⊎ ((x.tracker.status.state ≡ State.holding)
                  × (seen + grace ≤ x.due)
                  × (x.due ≤ seen + 2 * grace + late))))

  quiet-OnTime :
      (seen grace late now : ℕ) (k : Quiet) (x : Timed)
      → OnTime seen grace late x
      → OnTime seen grace late (step now (quiet k) x)
  unfolding step
  quiet-OnTime seen grace late now k x (inl over) = inl (quiet-over c now k x.tracker over)
  quiet-OnTime seen grace late now k x (inr (waits, phase)) = elim (quiet-Same c now k x.tracker) [
    | inl over ↦ inl over
    | inr same ↦ inr (
      record {
        at = same.at ∙ waits.at;
        heard = same.heard ∙ waits.heard;
        grace_ms = same.grace ∙ waits.grace_ms;
        queued = λ h. waits.queued (sym same.queued ∙ h);
      },
      elim phase [
        | inl (tracking, due) ↦ inl (same.state ∙ tracking, due)
        | inr (holding, early, soon) ↦ inr (same.state ∙ holding, early, soon)
      ],
    )
  ]

  over_in_parking : (t : Tracker) → t.status.state ≡ State.parking → pass_is_live t ≡ false
  unfolding pass_is_live
  over_in_parking t h = ap is_live h

  wake-OnTime :
      (seen grace late now : ℕ) (x : Timed)
      → grace ≤ u32_max
      → x.due ≤ now
      → Served late now x
      → OnTime seen grace late x
      → OnTime seen grace late (step now wake x)
  unfolding step
  wake-OnTime seen grace late now x fits due served (inl over) =
      inl (wake-over c now x.tracker over)
  wake-OnTime seen grace late now x fits due served (inr (waits, inl (tracking, timed))) =
      let t = x.tracker in
      let (moved, holding, queued, _) =
        wake_tracking c seen now t waits.at waits.heard (omega (arith, waits.grace_ms))
          (omega (arith, waits.grace_ms)) tracking in
      let timed' : due_after now (silence_work_handler c now t).silence_work x.due ≡ now + grace =
        ap (λ w. due_after now w x.due) queued ∙ ap (λ g. now + g) waits.grace_ms in
      inr (
        record {
          at = moved.at;
          heard = moved.heard;
          grace_ms = moved.grace ∙ waits.grace_ms;
          queued = λ h. absurd (cc (queued, h));
        },
        inr (
          holding,
          omega (arith, timed', timed),
          omega (arith, timed', timed, served waits.queued),
        ),
      )
  wake-OnTime seen grace late now x fits due served (inr (waits, inr (holding, early, soon))) =
      let t = x.tracker in
      let (_, parking, _, _) =
        wake_holding c seen now t waits.at waits.heard (omega (arith, waits.grace_ms))
          (omega (arith, waits.grace_ms)) holding in
      inl (over_in_parking _ parking)

  step-OnTime :
      (seen grace late now : ℕ) (event : Event) (x : Timed)
      → grace ≤ u32_max
      → Served late now x
      → Allowed now event x
      → OnTime seen grace late x
      → OnTime seen grace late (step now event x)
  step-OnTime seen grace late now (quiet k) x fits served allowed h =
      quiet-OnTime seen grace late now k x h
  step-OnTime seen grace late now wake x fits served (queued, due) h =
      wake-OnTime seen grace late now x fits due served h

  run-OnTime :
      (seen grace late start end : ℕ) (events : List (ℕ × Event)) (x : Timed)
      → grace ≤ u32_max
      → Timely late start events x end
      → OnTime seen grace late x
      → Served late end (run events x) × OnTime seen grace late (run events x)
  unfolding run Timely
  run-OnTime seen grace late start end [] x fits (later, served) h = (served, h)
  run-OnTime seen grace late start end ((now, event) ∷ rest) x fits (later, served, allowed, timely)
        h =
      run-OnTime seen grace late now end rest (step now event x) fits timely
        (step-OnTime seen grace late now event x fits served allowed h)

bearing-grace_ms :
    (c : Config) (now : ℕ) (b : Bearing) (t : Tracker)
    → (bearing c now (some b) t).0.status.grace_ms ≡ t.status.grace_ms
unfolding bearing
bearing-grace_ms c now b t = ground arith

-- A pass is over two grace periods after its last bearing. The bearing is accepted at `seen`, in any
-- state but parking and fault, and queues the silence work; from then on no bearing is accepted and
-- the grace period stays, but bearings may be refused, the status read, and the rotator and the
-- operator may do what they like; the clock never goes back and the kernel runs the work when it is
-- queued and due, never more than `late` after that. Then, when two grace periods and twice that
-- delay have passed, the tracker neither tracks nor holds.
pub run-ends :
    (c : Config) (seen late end : ℕ) (b : Bearing) (t : Tracker) (events : List (ℕ × Event))
    → within_travel c b ≡ true
    → t.status.state ≢ State.parking
    → t.status.state ≢ State.fault
    → t.status.grace_ms ≤ u32_max
    → let x : Timed = record {
      tracker = (bearing c seen (some b) t).0;
      due = seen + t.status.grace_ms;
    } in
      Timely c late seen events x end
      → seen + 2 * t.status.grace_ms + 2 * late < end
      → pass_is_live (run c events x).tracker ≡ false
run-ends c seen late end b t events inside parking fault fits timely passed =
    let (_, following, queued, _) = bearing-IsFollowing c seen b t inside parking fault fits in
    let x : Timed = record {
      tracker = (bearing c seen (some b) t).0;
      due = seen + t.status.grace_ms;
    } in
    let waits : Waits c seen t.status.grace_ms x.tracker = record {
      at = following.at;
      heard = following.heard;
      grace_ms = bearing-grace_ms c seen b t;
      queued = λ h. absurd (cc (queued, h));
    } in
    let (served, ended) =
      run-OnTime c seen t.status.grace_ms late seen end events x fits timely
        (inr (waits, inl (following.state, refl))) in
    elim ended [
      | inl over ↦ over
      | inr (still, inl (_, due)) ↦ absurd (omega (arith, due, served still.queued))
      | inr (still, inr (_, _, soon)) ↦ absurd (omega (arith, soon, served still.queued))
    ]
