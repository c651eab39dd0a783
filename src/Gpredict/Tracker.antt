-- ===== src/Gpredict/Tracker.antt =====
-- The tracker of gpredict/src/gpredict.c. A function that runs under `tracker_lock` is one step on
-- the record of the file's static variables. `now` is what kfsw_time_monotonic_ms() returns in the
-- call, and a NULL pointer argument is `none`. A call of k_work_reschedule leaves its delay in
-- `silence_work`, where `none` says that the work is not pending.
pub mod Core
pub mod Steps
pub mod Invariant
pub mod Silence
pub mod Quiet
pub mod Deadline
pub mod Faults
pub mod Refusals
pub mod Chronicle
unfoldable pub use Core.*
use kfsw_modules.Prelude.{
  ℕ, ◌-◌, ◌≤◌, Bool, true, false, not, ◌&&◌, ◌||◌, Option, none, some, List, [], ◌∷◌, ltb, leb,
  ◌==◌, if◌then◌else◌, saturating_inc, clamp32,
}
use kfsw_modules.Prelude.Int.{ℤ, pos, leb_ℤ}
use kfsw_modules.Errno.{Ret, ok, err, Errno, einval, eperm, eio, ealready, erange}
use kfsw_modules.Gpredict.Config.{
  Config, mdeg, grace_min_ms, grace_max_ms, azimuth_min_mdeg, azimuth_max_mdeg, elevation_min_mdeg,
  elevation_max_mdeg,
}
use kfsw_modules.Gpredict.Machine.{State, Event, next, state_value}

unfoldable pub reset : Config → Tracker → Tracker
reset c t = record t {
  status = parked_status c;
  last_bearing_ms = 0;
  bearing_seen = false;
  initialized = true;
  refusing = false;
  silence_work = none;
}

-- The code writes the line about the start after it has released the lock, so that another call may
-- log first; here it is written in the same step.
unfoldable pub init : Config → Tracker → Tracker × Ret
unfolding reset
init c t =
    if t.initialized then (t, ok) else (record (reset c t) { log = LogLine.started ∷ t.log }, ok)

unfoldable pub within_travel : Config → Bearing → Bool
within_travel c b =
    leb_ℤ (azimuth_min_mdeg c) b.azimuth_mdeg
    && leb_ℤ b.azimuth_mdeg (azimuth_max_mdeg c)
    && leb_ℤ (elevation_min_mdeg c) b.elevation_mdeg
    && leb_ℤ b.elevation_mdeg (elevation_max_mdeg c)

-- gpredict_refuse_bearing is this under the lock.
unfoldable pub refuse : Bearing → Errno → Tracker → Tracker
refuse b e t = record t {
  status = record t.status { refusals = saturating_inc t.status.refusals; last_error = err e };
  log = if t.refusing then t.log else LogLine.refused b e ∷ t.log;
  refusing = true;
}

-- The part of kfsw_gpredict_bearing that an accepted bearing reaches.
unfoldable pub accept : Config → ℕ → Bearing → Tracker → Tracker
unfolding apply_event
accept c now b t =
    let t' = apply_event c Event.bearing (record t {
      log = if t.refusing then LogLine.accepting ∷ t.log else t.log;
      refusing = false;
      status = record t.status {
        azimuth_mdeg = b.azimuth_mdeg;
        elevation_mdeg = b.elevation_mdeg;
        bearings = saturating_inc t.status.bearings;
      };
      last_bearing_ms = now;
      bearing_seen = true;
    }) in
    record t' { silence_work = some t'.status.grace_ms }

unfoldable pub bearing : Config → ℕ → Option Bearing → Tracker → Tracker × Ret
unfolding within_travel refuse accept
bearing c now none t = (t, err einval)
bearing c now (some b) t =
    if is_fault t.status.state
    then (refuse b eperm t, err eperm)
    else if not (within_travel c b)
    then (refuse b einval t, err einval)
    else (accept c now b t, ok)

unfoldable pub frequency : ℕ → Tracker → Tracker × Ret
frequency hz t =
    if hz == 0
    then (record t { status = record t.status { last_error = err einval } }, err einval)
    else (record t { status = record t.status { frequency_hz = hz } }, ok)

unfoldable pub park : Config → Tracker → Tracker × Ret
unfolding apply_event
park c t =
    if is_fault t.status.state
    then (record t { status = record t.status { last_error = err eperm } }, err eperm)
    else (apply_event c Event.park_commanded t, ok)

unfoldable pub clear : Config → Tracker → Tracker × Ret
unfolding apply_event
clear c t =
    if is_fault t.status.state then (apply_event c Event.cleared t, ok) else (t, err ealready)

-- The status is copied out; `false` is a NULL destination.
unfoldable pub get_status : ℕ → Bool → Tracker → Tracker × Ret × Option Status
unfolding silence_now
get_status now true t =
    let t' = record t { status = record t.status { silence_ms = silence_now now t } } in
    (t', ok, some t'.status)
get_status now false t = (t, err einval, none)

unfoldable pub grace_validate : ℕ → Ret
grace_validate grace_ms =
    if ltb grace_ms grace_min_ms || ltb grace_max_ms grace_ms then err erange else ok

unfoldable pub grace_set : ℕ → Tracker → Tracker
unfolding pass_is_live
grace_set grace_ms t =
    let t' = record t { status = record t.status { grace_ms = grace_ms } } in
    if pass_is_live t' then record t' { silence_work = some grace_ms } else t'

-- The delay after which the check runs again.
abbrev again : ℕ → ℕ → ℕ
again waited grace = if ltb waited grace then grace - waited else grace

unfoldable pub silence_check : Config → ℕ → Tracker → Tracker
unfolding apply_event silence_now pass_is_live
silence_check c now t =
    let waited = silence_now now t in
    let t' =
      if pass_is_live t && leb t.status.grace_ms waited then apply_event c Event.silence t else t in
    if pass_is_live t'
    then record t' { silence_work = some (again waited t'.status.grace_ms) }
    else t'

-- silence_work_handler: the queue takes the item off before it runs the handler.
unfoldable pub silence_work_handler : Config → ℕ → Tracker → Tracker
unfolding silence_check
silence_work_handler c now t = silence_check c now (record t { silence_work = none })

-- gpredict_test_set_counters
pub test_set_counters : ℕ → Tracker → Tracker
test_set_counters value t = record t {
  status = record t.status {
    bearings = value;
    refusals = value;
    passes_ended = value;
    faults = value;
  };
}
