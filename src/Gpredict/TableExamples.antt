-- ===== src/Gpredict/TableExamples.antt =====
-- The entries of the table of pass tracking and the registered commands at concrete inputs.
use kfsw_modules.Prelude.{
  ℕ, ◌≡◌, refl, none, some, [], ◌∷◌, arith, saturating_inc, replicate, length,
}
use kfsw_modules.Errno.{Ret}
use kfsw_modules.Gpredict.Machine.{State}
use kfsw_modules.Gpredict.Tracker.{silence_work_handler, parked_status}
use kfsw_modules.Gpredict.Profiles.{Node}
use kfsw_modules.Gpredict.Commands.{CommandResult}
use kfsw_modules.Gpredict.Commands.Registry.{u32, Answered, Handler, invoke, registered-Answered}
use kfsw_modules.Gpredict.Table.{cleared_slots}
use kfsw_modules.Gpredict.Table.Samplers.{
  Variables, number, TrackerField, SlotField, Sampler, sampled, validate_grace, grace_changed,
}
use kfsw_modules.Gpredict.Table.Writes.{reads, with_silence, reads-keep, grace_written}
use kfsw_modules.Gpredict.Examples.{following, following-IsFollowing}
use kfsw_modules.Gpredict.ProfileExamples.{station, node}

abbrev variables : Variables
variables = record { tracker = parked_status station; slots = cleared_slots (replicate 16 0) }

abbrev tracking : Node
tracking = record node { tracker = following }

reads-keep_example :
    (ms : ℕ) × ((reads station
        ((2000, Sampler.tracker TrackerField.silence_ms)
          ∷ (2000, Sampler.slots SlotField.profile_name)
          ∷ (3000, Sampler.tracker TrackerField.state)
          ∷ [])
        tracking
        variables).0
      ≡ with_silence ms tracking)
reads-keep_example =
    reads-keep station
      ((2000, Sampler.tracker TrackerField.silence_ms)
        ∷ (2000, Sampler.slots SlotField.profile_name)
        ∷ (3000, Sampler.tracker TrackerField.state)
        ∷ [])
      tracking variables

grace_written_example :
    let n' = grace_changed 800 tracking in
    let held = silence_work_handler station 1900 n'.tracker in
    let done = silence_work_handler station 2700 held in
    ((sampled station 1500 (Sampler.tracker TrackerField.grace_ms) n' variables).2 ≡ number 800)
    × (n'.tracker.silence_work ≡ some 800)
    × (held.status.state ≡ State.holding)
    × (held.silence_work ≡ some 800)
    × (done.status.state ≡ State.parking)
    × (done.silence_work ≡ none)
    × (done.status.passes_ended ≡ saturating_inc tracking.tracker.status.passes_ended)
unfolding validate_grace
grace_written_example =
    grace_written station 1000 800 1500 1900 2700 tracking variables following-IsFollowing refl
      (omega arith) (omega arith)

registered-Answered_example :
    (length (u32 ∷ u32 ∷ []) ≡ 2)
    × (r : Node × CommandResult × Ret) × (invoke station 1000 Handler.enable (1 ∷ 0 ∷ []) node
        ≡ some r)
    × Answered node r
registered-Answered_example = registered-Answered station 1000 1 _ (1 ∷ 0 ∷ []) node refl refl
