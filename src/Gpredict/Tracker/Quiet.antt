-- ===== src/Gpredict/Tracker/Quiet.antt =====
-- The calls of the tracker that leave a pass to its silence, and what they do to it
-- (gpredict/src/gpredict.c).
use kfsw_modules.Prelude.{ℕ, ◌≡◌, ◌⊎◌, Bool, true, false, arith}
use kfsw_modules.Errno.{Errno}
use kfsw_modules.Gpredict.Config.{Config}
use kfsw_modules.Gpredict.Tracker.{Bearing, Tracker, pass_is_live}
use kfsw_modules.Gpredict.Tracker.Steps

-- What may reach the tracker when no bearing is accepted and the grace period stays.
pub data Quiet : Type 0 where
  refuses : Bearing → Errno → Quiet
  tunes : ℕ → Quiet
  reads : Bool → Quiet
  starts parks clears rotator_parked rotator_failed resets : Quiet

abbrev pub call_at : ℕ → Quiet → Steps.Call
call_at now (refuses b e) = Steps.refuses b e
call_at now (tunes hz) = Steps.tunes hz
call_at now (reads dest) = Steps.reads now dest
call_at now starts = Steps.starts
call_at now parks = Steps.parks
call_at now clears = Steps.clears
call_at now rotator_parked = Steps.rotator_parked
call_at now rotator_failed = Steps.rotator_failed
call_at now resets = Steps.resets

-- What stays of a pass while the call does not end it.
pub record Same (t t' : Tracker) : Type 0 where
  pub state : t'.status.state ≡ t.status.state
  pub at : t'.last_bearing_ms ≡ t.last_bearing_ms
  pub heard : t'.bearing_seen ≡ t.bearing_seen
  pub grace : t'.status.grace_ms ≡ t.status.grace_ms
  pub queued : t'.silence_work ≡ t.silence_work

pub quiet-Same :
    (c : Config) (now : ℕ) (k : Quiet) (t : Tracker)
    → (pass_is_live (Steps.step c (call_at now k) t) ≡ false)
      ⊎ Same t (Steps.step c (call_at now k) t)
unfolding Steps.step
quiet-Same c now (refuses b e) t = ground arith
quiet-Same c now (tunes hz) t = ground arith
quiet-Same c now (reads true) t = ground arith
quiet-Same c now (reads false) t = ground arith
quiet-Same c now starts t = ground arith
quiet-Same c now parks t = ground arith
quiet-Same c now clears t = ground arith
quiet-Same c now rotator_parked t = ground arith
quiet-Same c now rotator_failed t = ground arith
quiet-Same c now resets t = ground arith

pub quiet-over :
    (c : Config) (now : ℕ) (k : Quiet) (t : Tracker)
    → pass_is_live t ≡ false
    → pass_is_live (Steps.step c (call_at now k) t) ≡ false
unfolding Steps.step
quiet-over c now (refuses b e) t h = ground arith
quiet-over c now (tunes hz) t h = ground arith
quiet-over c now (reads true) t h = ground arith
quiet-over c now (reads false) t h = ground arith
quiet-over c now starts t h = ground arith
quiet-over c now parks t h = ground arith
quiet-over c now clears t h = ground arith
quiet-over c now rotator_parked t h = ground arith
quiet-over c now rotator_failed t h = ground arith
quiet-over c now resets t h = ground arith
