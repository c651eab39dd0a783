-- ===== src/Gpredict/SystemExamples.antt =====
-- Pass tracking as a whole at a concrete run: a profile, a pass, a shorter grace period and a park
-- command.
use kfsw_modules.Prelude.{◌≡◌, refl, true, some, List, [], ◌∷◌, arith, replicate}
use kfsw_modules.Gpredict.Config.{IsBuildable}
use kfsw_modules.Gpredict.Machine.{State}
use kfsw_modules.Gpredict.Tracker.Steps
use kfsw_modules.Gpredict.Tracker
use kfsw_modules.Gpredict.Tracker.{parked_status, park}
use kfsw_modules.Gpredict.Profiles.{profile_valid}
use kfsw_modules.Gpredict.Commands.Outcomes.{handle}
use kfsw_modules.Gpredict.Profiles
use kfsw_modules.Gpredict.Profiles.Invariant
use kfsw_modules.Gpredict.Commands.Outcomes
use kfsw_modules.Gpredict.Table.{cleared_slots}
use kfsw_modules.Gpredict.Table.Samplers.{
  Variables, TrackerField, Sampler, sampled, validate_grace, grace_changed,
}
use kfsw_modules.Gpredict.System.{Call, run}
use kfsw_modules.Gpredict.System
use kfsw_modules.Gpredict.System.Calls.{all_calls, run-all_calls}
use kfsw_modules.Gpredict.Tracker.Faults.{IsLatched}
use kfsw_modules.Gpredict.System.Latch.{run_any-IsLatched}
use kfsw_modules.Gpredict.System.Sound.{IsSound, run-IsSound}
use kfsw_modules.Gpredict.ProfileExamples.{station, southern, south}

abbrev variables : Variables
variables = record { tracker = parked_status station; slots = cleared_slots (replicate 16 0) }

abbrev day : List Call
day =
    System.tracker Steps.starts
    ∷ System.profiles (Invariant.defines 1 (some southern))
    ∷ System.command (Outcomes.selects 1)
    ∷ System.profiles (Invariant.judges 1000 (some south))
    ∷ System.write_grace 800
    ∷ System.read 1500 (Sampler.tracker TrackerField.silence_ms) variables
    ∷ System.tracker (Steps.wakes 1800)
    ∷ System.command (Outcomes.parks 2000)
    ∷ []

station-IsBuildable : IsBuildable station
station-IsBuildable = omega arith

run-all_calls_example :
    (run station day (Profiles.boot station)).tracker
    ≡ Steps.run station
        (all_calls station day (Profiles.boot station))
        (Profiles.boot station).tracker
run-all_calls_example = run-all_calls station day (Profiles.boot station)

-- The seven calls that the tracker sees of that day, the park command's read among them.
day_calls :
    all_calls station day (Profiles.boot station)
    ≡ Steps.starts
      ∷ Steps.offers 1000 (some south)
      ∷ Steps.sets_grace 800
      ∷ Steps.reads 1500 true
      ∷ Steps.wakes 1800
      ∷ Steps.parks
      ∷ Steps.reads 2000 true
      ∷ []
unfolding all_calls run System.step handle park Steps.step sampled validate_grace grace_changed
    Invariant.step Profiles.boot profile_valid Tracker.boot
day_calls = refl

run-IsSound_example : IsSound station (run station day (Profiles.boot station))
run-IsSound_example = run-IsSound station day station-IsBuildable

day_ends : (run station day (Profiles.boot station)).tracker.status.state ≡ State.parking
unfolding run System.step handle park Steps.step sampled validate_grace grace_changed Invariant.step
    Profiles.boot profile_valid Tracker.boot
day_ends = refl

-- A pass that a failure of the rotator has ended.
abbrev broken : Profiles.Node
broken =
    run station
      (System.tracker Steps.starts
        ∷ System.profiles (Invariant.defines 1 (some southern))
        ∷ System.command (Outcomes.selects 1)
        ∷ System.tracker Steps.rotator_failed
        ∷ [])
      (Profiles.boot station)

broken-IsLatched : IsLatched broken.tracker broken.tracker
unfolding run System.step handle Steps.step Profiles.boot Tracker.boot Invariant.step
    Tracker.apply_event profile_valid
broken-IsLatched = record {
  state = refl;
  begun = refl;
  azimuth = refl;
  elevation = refl;
  bearings = refl;
  passes = refl;
  faults = refl;
}

-- What an operator may try before the clear.
abbrev attempts : List Call
attempts =
    System.profiles (Invariant.judges 1000 (some south))
    ∷ System.command (Outcomes.parks 2000)
    ∷ System.tracker Steps.rotator_parked
    ∷ System.write_grace 800
    ∷ System.read 2500 (Sampler.tracker TrackerField.silence_ms) variables
    ∷ System.command (Outcomes.enables 1 0)
    ∷ []

run_any-IsLatched_example : IsLatched broken.tracker (run station attempts broken).tracker
run_any-IsLatched_example =
    run_any-IsLatched station attempts broken.tracker broken refl broken-IsLatched
