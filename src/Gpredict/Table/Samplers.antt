-- ===== src/Gpredict/Table/Samplers.antt =====
-- The functions behind the entries of gpredict/parameters/gpredict_table.c: those that fill a value
-- when it is read, and those that a written grace period reaches.
use kfsw_modules.Prelude.{ℕ, List}
use kfsw_modules.Prelude.Int.{ℤ}
use kfsw_modules.Errno.{Ret}
use kfsw_modules.Gpredict.Config.{Config}
use kfsw_modules.Gpredict.Machine.{state_value}
use kfsw_modules.Gpredict.Tracker.{Status, grace_validate, grace_set}
use kfsw_modules.Gpredict.Profiles.{Node}
use kfsw_modules.Gpredict.Table.{Slots, sample_tracker, sample_slots}

-- The static variables: those with the fields of the status, and those of the slots.
pub record Variables : Type 0 where
  pub tracker : Status
  pub slots : Slots

-- What a sample function leaves behind `value`: an unsigned number, a signed one, a result code in
-- an int32_t, or the bytes of a text.
pub data Value : Type 0 where
  number : ℕ → Value
  signed : ℤ → Value
  code : Ret → Value
  text : List ℕ → Value

-- The arguments of GPREDICT_SAMPLE.
pub data TrackerField : Type 0 where
  state azimuth_mdeg elevation_mdeg actual_azimuth_mdeg actual_elevation_mdeg : TrackerField
  frequency_hz silence_ms grace_ms bearings refusals passes_ended faults last_error : TrackerField

-- The arguments of PROFILE_SAMPLE, and sample_profile_name.
pub data SlotField : Type 0 where
  profile policy profiles profiles_on catalogue profile_name : SlotField

pub data Sampler : Type 0 where
  tracker : TrackerField → Sampler
  slots : SlotField → Sampler

tracker_value : TrackerField → Status → Value
tracker_value TrackerField.state s = number (state_value s.state)
tracker_value TrackerField.azimuth_mdeg s = signed s.azimuth_mdeg
tracker_value TrackerField.elevation_mdeg s = signed s.elevation_mdeg
tracker_value TrackerField.actual_azimuth_mdeg s = signed s.actual_azimuth_mdeg
tracker_value TrackerField.actual_elevation_mdeg s = signed s.actual_elevation_mdeg
tracker_value TrackerField.frequency_hz s = number s.frequency_hz
tracker_value TrackerField.silence_ms s = number s.silence_ms
tracker_value TrackerField.grace_ms s = number s.grace_ms
tracker_value TrackerField.bearings s = number s.bearings
tracker_value TrackerField.refusals s = number s.refusals
tracker_value TrackerField.passes_ended s = number s.passes_ended
tracker_value TrackerField.faults s = number s.faults
tracker_value TrackerField.last_error s = code s.last_error

slot_value : SlotField → Slots → Value
slot_value SlotField.profile s = number s.profile
slot_value SlotField.policy s = number s.policy
slot_value SlotField.profiles s = number s.profiles
slot_value SlotField.profiles_on s = number s.profiles_on
slot_value SlotField.catalogue s = number s.catalogue
slot_value SlotField.profile_name s = text s.profile_name

-- A sample function at time `now`. That of the name leaves it where `value` points already.
unfoldable pub sampled : Config → ℕ → Sampler → Node → Variables → Node × Variables × Value
unfolding sample_tracker tracker_value slot_value
sampled c now (Sampler.tracker field) n v =
    let (t, status) = sample_tracker now n.tracker v.tracker in
    (record n { tracker = t }, record v { tracker = status }, tracker_value field status)
sampled c now (Sampler.slots field) n v =
    let filled = sample_slots c n v.slots.profile_name in
    (n, record v { slots = filled }, slot_value field filled)

-- validate_grace
unfoldable pub validate_grace : ℕ → Ret
unfolding grace_validate
validate_grace value = grace_validate value

-- grace_changed
unfoldable pub grace_changed : ℕ → Node → Node
unfolding grace_set
grace_changed value n = record n { tracker = grace_set value n.tracker }
