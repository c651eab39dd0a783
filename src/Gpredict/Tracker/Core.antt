-- ===== src/Gpredict/Tracker/Core.antt =====
-- The state of the tracker of gpredict/src/gpredict.c, its log, and apply_event(), which every event of
-- the state machine goes through.
use kfsw_modules.Prelude.{
  ℕ, ◌-◌, Bool, true, false, Option, none, List, [], ◌∷◌, ltb, ◌==◌, if◌then◌else◌, saturating_inc,
  clamp32,
}
use kfsw_modules.Prelude.Int.{ℤ, pos}
use kfsw_modules.Errno.{Ret, ok, err, Errno, eio}
use kfsw_modules.Gpredict.Config.{Config, mdeg}
use kfsw_modules.Gpredict.Machine.{State, Event, next, state_value}

-- struct kfsw_gpredict_bearing
pub record Bearing : Type 0 where
  pub azimuth_mdeg : ℤ
  pub elevation_mdeg : ℤ

-- struct kfsw_gpredict_status
pub record Status : Type 0 where
  pub state : State
  pub azimuth_mdeg : ℤ
  pub elevation_mdeg : ℤ
  pub actual_azimuth_mdeg : ℤ
  pub actual_elevation_mdeg : ℤ
  pub frequency_hz : ℕ
  pub silence_ms : ℕ
  pub grace_ms : ℕ
  pub bearings : ℕ
  pub refusals : ℕ
  pub passes_ended : ℕ
  pub faults : ℕ
  pub last_error : Ret

-- The log lines of the file, by their arguments.
pub data LogLine : Type 0 where
  moved : State → State → LogLine
  started : LogLine
  refused : Bearing → Errno → LogLine
  accepting : LogLine

-- The static variables, and the log with its newest line first.
pub record Tracker : Type 0 where
  pub status : Status
  pub last_bearing_ms : ℕ
  pub bearing_seen : Bool
  pub initialized : Bool
  pub refusing : Bool
  pub silence_work : Option ℕ
  pub log : List LogLine

abbrev pub is_live : State → Bool
is_live State.tracking = true
is_live State.holding = true
is_live _ = false

unfoldable pub pass_is_live : Tracker → Bool
pass_is_live t = is_live t.status.state

unfoldable pub silence_now : ℕ → Tracker → ℕ
silence_now now t =
    if t.bearing_seen
    then clamp32 (if ltb t.last_bearing_ms now then now - t.last_bearing_ms else 0)
    else 0

abbrev pub state_eq : State → State → Bool
state_eq a b = state_value a == state_value b

abbrev pub is_fault : State → Bool
is_fault s = state_eq s State.fault

-- `tracker` and the other variables as reset() leaves them.
abbrev pub parked_status : Config → Status
parked_status c = record {
  state = State.parked;
  azimuth_mdeg = pos 0;
  elevation_mdeg = pos 0;
  actual_azimuth_mdeg = pos 0;
  actual_elevation_mdeg = pos 0;
  frequency_hz = 0;
  silence_ms = 0;
  grace_ms = c.grace_ms;
  bearings = 0;
  refusals = 0;
  passes_ended = 0;
  faults = 0;
  last_error = ok;
}

-- The static initialisers.
unfoldable pub boot : Config → Tracker
boot c = record {
  status = parked_status c;
  last_bearing_ms = 0;
  bearing_seen = false;
  initialized = false;
  refusing = false;
  silence_work = none;
  log = [];
}

-- `event == KFSW_GPREDICT_EVENT_PARKED`: the report that carries its own bearing.
report_park : Config → Event → Status → Status
report_park c Event.parked s = record s {
  actual_azimuth_mdeg = mdeg c.park_azimuth_deg;
  actual_elevation_mdeg = mdeg c.park_elevation_deg;
}
report_park c _ s = s

count_fault : State → Status → Status
count_fault to s =
    if is_fault to then record s { faults = saturating_inc s.faults; last_error = err eio } else s

count_pass_end : State → Event → Status → Status
count_pass_end State.holding Event.silence s = record s {
  passes_ended = saturating_inc s.passes_ended;
}
count_pass_end _ _ s = s

-- `apply_event` after the test `next == previous`.
move : State → State → Event → Tracker → Tracker
unfolding count_fault count_pass_end
move previous to e t = record t {
  status = count_pass_end previous e (count_fault to (record t.status { state = to }));
  log = LogLine.moved previous to ∷ t.log;
}

unfoldable pub apply_event : Config → Event → Tracker → Tracker
unfolding report_park move next
apply_event c e t =
    let previous = t.status.state in
    let to = next previous e in
    let t' = record t { status = report_park c e t.status } in
    if state_eq to previous then t' else move previous to e t'
