-- ===== src/Gpredict/Tracker/Faults.antt =====
-- The fault state and the operator's ways out of it (gpredict/src/gpredict.c).
use kfsw_modules.Prelude.{
  ℕ, ◌≡◌, Bool, true, false, not, ◌&&◌, none, some, List, [], ◌∷◌, arith, saturating_inc,
}
use kfsw_modules.Errno.{ok, err, eperm, ealready, eio}
use kfsw_modules.Gpredict.Config.{Config}
use kfsw_modules.Gpredict.Machine.{State, Event}
use kfsw_modules.Gpredict.Tracker.{Tracker, Bearing, apply_event, bearing, park, clear, state_eq}
use kfsw_modules.Gpredict.Tracker.Steps.{
  Call, starts, offers, refuses, tunes, parks, clears, reads, sets_grace, wakes, rotator_parked,
  rotator_failed, resets, step, run,
}

-- The calls that may leave the fault state: an operator's clear, and the reset of the module.
abbrev pub leaves_fault : Call → Bool
leaves_fault clears = true
leaves_fault resets = true
leaves_fault _ = false

abbrev pub none_leaves : List Call → Bool
none_leaves [] = true
none_leaves (k ∷ ks) = not (leaves_fault k) && none_leaves ks

-- What a fault keeps while it lasts.
pub record IsLatched (from t : Tracker) : Type 0 where
  pub state : t.status.state ≡ State.fault
  pub begun : t.initialized ≡ true
  pub azimuth : t.status.azimuth_mdeg ≡ from.status.azimuth_mdeg
  pub elevation : t.status.elevation_mdeg ≡ from.status.elevation_mdeg
  pub bearings : t.status.bearings ≡ from.status.bearings
  pub passes : t.status.passes_ended ≡ from.status.passes_ended
  pub faults : t.status.faults ≡ from.status.faults

pub step-IsLatched :
    (c : Config) (k : Call) (from t : Tracker)
    → leaves_fault k ≡ false
    → IsLatched from t
    → IsLatched from (step c k t)
unfolding step
step-IsLatched c starts from t n h = ground arith
step-IsLatched c (offers now none) from t n h = ground arith
step-IsLatched c (offers now (some b)) from t n h = ground arith
step-IsLatched c (refuses b e) from t n h = ground arith
step-IsLatched c (tunes hz) from t n h = ground arith
step-IsLatched c parks from t n h = ground arith
step-IsLatched c clears from t n h = cc
step-IsLatched c (reads now true) from t n h = ground arith
step-IsLatched c (reads now false) from t n h = ground arith
step-IsLatched c (sets_grace ms) from t n h = ground arith
step-IsLatched c (wakes now) from t n h = ground arith
step-IsLatched c rotator_parked from t n h = ground arith
step-IsLatched c rotator_failed from t n h = ground arith
step-IsLatched c resets from t n h = cc

-- While an initialized tracker is in fault, no calls but an operator's clear and the module's reset
-- leave that state, and none moves the commanded bearing, accepts a bearing, ends a pass or counts
-- the fault again.
pub run-IsLatched :
    (c : Config) (ks : List Call) (from t : Tracker)
    → none_leaves ks ≡ true
    → IsLatched from t
    → IsLatched from (run c ks t)
unfolding run
run-IsLatched c [] from t n h = h
run-IsLatched c (k ∷ ks) from t n h =
    run-IsLatched c ks from (step c k t) (ground arith) (step-IsLatched c k from t (ground arith) h)

-- A rotator's failure, reported in any state but fault, is one more fault with -EIO; a bearing is
-- then refused with -EPERM, and so is a park command, and both leave the tracker in fault; a clear
-- parks it, after which there is nothing left to clear.
pub failure_then_clear :
    (c : Config) (t : Tracker) (now : ℕ) (b : Bearing)
    → state_eq t.status.state State.fault ≡ false
    → let failed = apply_event c Event.fault t in
      (failed.status.state ≡ State.fault)
      × (failed.status.faults ≡ saturating_inc t.status.faults)
      × (failed.status.last_error ≡ err eio)
      × ((bearing c now (some b) failed).1 ≡ err eperm)
      × ((bearing c now (some b) failed).0.status.state ≡ State.fault)
      × ((park c failed).1 ≡ err eperm)
      × ((park c failed).0.status.state ≡ State.fault)
      × ((clear c failed).1 ≡ ok)
      × ((clear c failed).0.status.state ≡ State.parked)
      × ((clear c (clear c failed).0).1 ≡ err ealready)
unfolding bearing park clear
failure_then_clear c t now b h = ground arith
