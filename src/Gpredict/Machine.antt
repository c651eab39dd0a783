-- ===== src/Gpredict/Machine.antt =====
-- The pure state machine of gpredict/src/gpredict.c: `kfsw_gpredict_next` over the enums of
-- gpredict/include/kfsw/modules/gpredict.h.
pub mod Laws
use Prim.Native.String.{String}
use kfsw_modules.Prelude.{ℕ, zero, suc, Option, none, some}

pub data State : Type 0 where
  parked tracking holding parking fault : State

pub data Event : Type 0 where
  bearing silence parked park_commanded fault cleared : Event

-- The enums' values.
abbrev pub state_value : State → ℕ
state_value State.parked = 0
state_value State.tracking = 1
state_value State.holding = 2
state_value State.parking = 3
state_value State.fault = 4

abbrev pub event_value : Event → ℕ
event_value Event.bearing = 0
event_value Event.silence = 1
event_value Event.parked = 2
event_value Event.park_commanded = 3
event_value Event.fault = 4
event_value Event.cleared = 5

-- The cases of the two nested switches.
unfoldable pub next : State → Event → State
next State.parked Event.bearing = State.tracking
next State.parked Event.silence = State.parked
next State.parked Event.parked = State.parked
next State.parked Event.cleared = State.parked
next State.parked Event.park_commanded = State.parking
next State.parked Event.fault = State.fault
next State.tracking Event.bearing = State.tracking
next State.tracking Event.parked = State.tracking
next State.tracking Event.cleared = State.tracking
next State.tracking Event.silence = State.holding
next State.tracking Event.park_commanded = State.parking
next State.tracking Event.fault = State.fault
next State.holding Event.bearing = State.tracking
next State.holding Event.silence = State.parking
next State.holding Event.park_commanded = State.parking
next State.holding Event.parked = State.holding
next State.holding Event.cleared = State.holding
next State.holding Event.fault = State.fault
next State.parking Event.bearing = State.parking
next State.parking Event.silence = State.parking
next State.parking Event.park_commanded = State.parking
next State.parking Event.cleared = State.parking
next State.parking Event.parked = State.parked
next State.parking Event.fault = State.fault
next State.fault Event.cleared = State.parked
next State.fault Event.bearing = State.fault
next State.fault Event.silence = State.fault
next State.fault Event.parked = State.fault
next State.fault Event.park_commanded = State.fault
next State.fault Event.fault = State.fault

-- A value that the state enum defines.
abbrev pub state_of : ℕ → Option State
state_of zero = some State.parked
state_of (suc zero) = some State.tracking
state_of (suc (suc zero)) = some State.holding
state_of (suc (suc (suc zero))) = some State.parking
state_of (suc (suc (suc (suc zero)))) = some State.fault
state_of (suc (suc (suc (suc (suc _))))) = none

-- A value that the event enum defines.
abbrev pub event_of : ℕ → Option Event
event_of zero = some Event.bearing
event_of (suc zero) = some Event.silence
event_of (suc (suc zero)) = some Event.parked
event_of (suc (suc (suc zero))) = some Event.park_commanded
event_of (suc (suc (suc (suc zero)))) = some Event.fault
event_of (suc (suc (suc (suc (suc zero))))) = some Event.cleared
event_of (suc (suc (suc (suc (suc (suc _)))))) = none

abbrev pub decided : Option State → Option Event → State
decided (some s) (some e) = next s e
decided _ _ = State.fault

-- `kfsw_gpredict_next` at any values the C types can hold: what falls out of the switches is fault.
unfoldable pub next_value : ℕ → ℕ → ℕ
unfolding next
next_value s e = state_value (decided (state_of s) (event_of e))

unfoldable pub state_name : State → String
state_name State.parked = "parked"
state_name State.tracking = "tracking"
state_name State.holding = "holding"
state_name State.parking = "parking"
state_name State.fault = "fault"
