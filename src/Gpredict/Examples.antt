-- ===== src/Gpredict/Examples.antt =====
-- Pass tracking at concrete inputs: the default configuration of gpredict/Kconfig, one pass that
-- ends, a fault, and a profile that holds its own frequency.
use kfsw_modules.Prelude.{◌≡◌, refl, none, some, List, [], ◌∷◌, arith, saturating_inc}
use kfsw_modules.Prelude.Int.{pos, negsuc}
use kfsw_modules.Errno.{ok, err, einval, eio, eperm, ealready}
use kfsw_modules.Gpredict.Config.{Config, IsBuildable}
use kfsw_modules.Gpredict.Machine.{State, Event}
use kfsw_modules.Gpredict.Tracker
use kfsw_modules.Gpredict.Tracker.{
  Bearing, Tracker, within_travel, bearing, silence_work_handler, apply_event, park, clear,
}
use kfsw_modules.Gpredict.Tracker.Steps.{
  Call, starts, offers, parks, wakes, sets_grace, rotator_parked, rotator_failed, run,
}
use kfsw_modules.Gpredict.Tracker.Chronicle.{IsTold, run-IsTold}
use kfsw_modules.Gpredict.Tracker.Silence.{IsFollowing, bearing-IsFollowing, pass_ends}
use kfsw_modules.Gpredict.Tracker.Faults.{failure_then_clear}
use kfsw_modules.Gpredict.Tracker.Refusals.{bearing_refused}

abbrev pub station : Config
station = record {
  grace_ms = 5000;
  park_azimuth_deg = 0;
  park_elevation_deg = 0;
  azimuth_min_deg = 0;
  azimuth_max_deg = 360;
  elevation_min_deg = 0;
  elevation_max_deg = 90;
  profiles = 3;
}

abbrev pub rising : Bearing
rising = record { azimuth_mdeg = pos 120000; elevation_mdeg = pos 4500 }

abbrev below : Bearing
below = record { azimuth_mdeg = pos 120000; elevation_mdeg = negsuc 0 }

station-IsBuildable : IsBuildable station
station-IsBuildable = omega arith

abbrev evening : List Call
evening =
    starts
    ∷ offers 1000 (some rising)
    ∷ offers 1100 (some below)
    ∷ wakes 6000
    ∷ wakes 11000
    ∷ rotator_parked
    ∷ []

abbrev parked_after : Tracker
parked_after = run station evening (Tracker.boot station)

evening_ends : parked_after.status.state ≡ State.parked
unfolding run Tracker.boot Tracker.Steps.step
evening_ends = refl

run-IsTold_example : IsTold parked_after
run-IsTold_example = run-IsTold station evening refl

abbrev pub started : Tracker
started = (Tracker.init station (Tracker.boot station)).0

rising_accepted :
    ((bearing station 1000 (some rising) started).1 ≡ ok)
    × IsFollowing 1000 (bearing station 1000 (some rising) started).0
    × ((bearing station 1000 (some rising) started).0.silence_work ≡ some started.status.grace_ms)
    × ((bearing station 1000 (some rising) started).0.status.passes_ended
        ≡ started.status.passes_ended)
unfolding Tracker.init Tracker.boot within_travel
rising_accepted =
    bearing-IsFollowing station 1000 rising started refl (ground arith) (ground arith) (omega arith)

abbrev pub following : Tracker
following = (bearing station 1000 (some rising) started).0

pub following-IsFollowing : IsFollowing 1000 following
following-IsFollowing = rising_accepted.1

following-grace : following.status.grace_ms ≡ 5000
unfolding bearing Tracker.init Tracker.boot
following-grace = refl

pass_ends_example :
    let held = silence_work_handler station 6000 following in
    let done = silence_work_handler station 11000 held in
    (held.status.state ≡ State.holding)
    × (held.silence_work ≡ some following.status.grace_ms)
    × (held.status.passes_ended ≡ following.status.passes_ended)
    × (done.status.state ≡ State.parking)
    × (done.silence_work ≡ none)
    × (done.status.passes_ended ≡ saturating_inc following.status.passes_ended)
    × (done.status.azimuth_mdeg ≡ following.status.azimuth_mdeg)
    × (done.status.elevation_mdeg ≡ following.status.elevation_mdeg)
pass_ends_example =
    pass_ends station 1000 6000 11000 following following-IsFollowing
      (omega (arith, following-grace)) (omega arith)

abbrev failed : Tracker
failed = apply_event station Event.fault started

failure_then_clear_example :
    (failed.status.state ≡ State.fault)
    × (failed.status.faults ≡ saturating_inc started.status.faults)
    × (failed.status.last_error ≡ err eio)
    × ((bearing station 1000 (some rising) failed).1 ≡ err eperm)
    × ((bearing station 1000 (some rising) failed).0.status.state ≡ State.fault)
    × ((park station failed).1 ≡ err eperm)
    × ((park station failed).0.status.state ≡ State.fault)
    × ((clear station failed).1 ≡ ok)
    × ((clear station failed).0.status.state ≡ State.parked)
    × ((clear station (clear station failed).0).1 ≡ err ealready)
unfolding Tracker.init Tracker.boot
failure_then_clear_example = failure_then_clear station started 1000 rising refl

bearing_refused_example :
    let t' = (bearing station 1000 (some below) started).0 in
    (t'.status ≡ record started.status {
      refusals = saturating_inc started.status.refusals;
      last_error = err einval;
    })
    × (t'.last_bearing_ms ≡ started.last_bearing_ms)
    × (t'.bearing_seen ≡ started.bearing_seen)
    × (t'.silence_work ≡ started.silence_work)
unfolding bearing Tracker.init Tracker.boot
bearing_refused_example = bearing_refused station 1000 below started einval refl
