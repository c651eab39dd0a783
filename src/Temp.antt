-- ===== src/Temp.antt =====
-- The temperature example: temperature-sensor-example/src/temperature_sensor_example.c, the sensor read
-- of temperature_sensor_example_sensor.c and the parameter table. A function that runs under
-- `cache_lock` is one step on the record of the static variables. Milliseconds are 64-bit counts.
pub mod Cache
pub mod Values
mod Examples
use Prim.Native.String.{String}
use kfsw_modules.Prelude.{
  ℕ, zero, suc, ◌+◌, ◌-◌, ◌*◌, ◌/◌, ◌%◌, ◌^◌, Bool, true, false, not, ◌&&◌, ◌||◌, Option, none,
  some, List, [], ◌∷◌, ltb, if◌then◌else◌, saturating_inc,
}
use kfsw_modules.Prelude.Int.{ℤ, pos, negsuc, pos_part, neg_part, ◌+ℤ◌, scale, tdiv}
use kfsw_modules.Errno.{Errno, Ret, ok, err, eacces, einval}
use kfsw_modules.Params.{
  Definition, DefinitionSet, ParamType, Flag, read_only, live, sample, u8, u32, i32,
}

-- CONFIG_KFSW_TEMP_EXAMPLE_SENSOR, _PERIOD_MS and _MAX_AGE_MS
pub record Config : Type 0 where
  pub sensor : Bool
  pub period_ms : ℕ
  pub max_age_ms : ℕ

-- KFSW_TEMP_EXAMPLE_INVALID_MILLI_C: INT32_MIN
abbrev pub invalid_milli_c : ℤ
invalid_milli_c = negsuc 2147483647

-- struct kfsw_temp_example_reading
pub record Reading : Type 0 where
  pub milli_c : ℤ
  pub samples : ℕ
  pub failures : ℕ
  pub last_uptime_ms : ℕ
  pub valid : Bool

-- What sample_once() logs.
pub data LogLine : Type 0 where
  read_failed : Errno → LogLine
  readings_back : LogLine

-- The static variables with `failing` of sample_once(), the log, newest line first, and the delay of
-- the poll work item if it is queued.
pub record State : Type 0 where
  pub cached : Reading
  pub initialized : Bool
  pub last_success_ms : ℕ
  pub failing : Bool
  pub log : List LogLine
  pub poll : Option ℕ

unfoldable pub boot : State
boot = record {
  cached = record {
    milli_c = invalid_milli_c;
    samples = 0;
    failures = 0;
    last_uptime_ms = 0;
    valid = false;
  };
  initialized = false;
  last_success_ms = 0;
  failing = false;
  log = [];
  poll = none;
}

-- kfsw_temp_example_store
unfoldable pub store : ℤ → ℕ → State → State
store milli_c monotonic_ms s = record s {
  cached = record s.cached {
    milli_c = milli_c;
    last_uptime_ms = monotonic_ms % 2 ^ 32;
    valid = true;
    samples = saturating_inc s.cached.samples;
  };
  last_success_ms = monotonic_ms;
}

-- kfsw_temp_example_store_failure
unfoldable pub store_failure : State → State
store_failure s = record s {
  cached = record s.cached {
    milli_c = invalid_milli_c;
    valid = false;
    failures = saturating_inc s.cached.failures;
  };
}

-- What kfsw_temp_example_sensor_read() yields.
pub data Sampled : Type 0 where
  value : ℤ → Sampled
  failed : Errno → Sampled

channel_value : Ret → ℤ → ℤ → Sampled
channel_value (err e) val1 val2 = failed e
channel_value ok val1 val2 = value (scale 1000 val1 +ℤ tdiv val2 1000)

-- kfsw_temp_example_sensor_read on the results of sensor_sample_fetch_chan and sensor_channel_get and
-- the two parts that the latter fills; `false` is a NULL destination. The products fit 32 bits for
-- the temperatures that a die can have.
unfoldable pub sensor_read : Bool → Ret → Ret → ℤ → ℤ → Sampled
unfolding channel_value
sensor_read false fetched got val1 val2 = failed einval
sensor_read true (err e) got val1 val2 = failed e
sensor_read true ok got val1 val2 = channel_value got val1 val2

-- sample_once at a time
unfoldable pub sample_once : Sampled → ℕ → State → State × Ret
unfolding store store_failure
sample_once (failed e) now s = (
  record (store_failure s) {
    log = if not s.failing then read_failed e ∷ s.log else s.log;
    failing = true;
  },
  err e,
)
sample_once (value milli_c) now s = (
  record (store milli_c now s) {
    log = if s.failing then readings_back ∷ s.log else s.log;
    failing = false;
  },
  ok,
)

unfoldable pub poll_work_handler : Config → Sampled → ℕ → State → State
unfolding sample_once
poll_work_handler c sampled now s = record (sample_once sampled now s).0 { poll = some c.period_ms }

-- kfsw_temp_example_init, on whether device_is_ready() finds the sensor
unfoldable pub init : Config → Bool → State → State × Ret
init c ready s =
    if s.initialized
    then (s, ok)
    else if not c.sensor
    then (record s { initialized = true }, ok)
    else if not ready
    then (s, err eacces)
    else (record s { initialized = true; poll = some 0 }, ok)

-- `now < last_success_ms || now - last_success_ms > MAX_AGE_MS`
abbrev pub is_stale : Config → ℕ → ℕ → Bool
is_stale c now last = ltb now last || ltb c.max_age_ms (now - last)

-- kfsw_temp_example_get; `false` is a NULL destination.
unfoldable pub get : Config → Bool → ℕ → State → Ret × Option Reading
get c false now s = (err einval, none)
get c true now s = if not s.initialized then (err eacces, none) else (
  ok,
  some (
      if s.cached.valid && is_stale c now s.last_success_ms
      then record s.cached { valid = false; milli_c = invalid_milli_c }
      else s.cached),
)

-- The sign, the whole degrees and the thousandths that the shell prints.
pub record Printed : Type 0 where
  pub negative : Bool
  pub whole : ℕ
  pub thousandths : ℕ

unfoldable pub printed : ℤ → Printed
printed milli_c =
    let magnitude = pos_part milli_c + neg_part milli_c in
    record {
      negative = ltb 0 (neg_part milli_c);
      whole = magnitude / 1000;
      thousandths = magnitude % 1000;
    }

-- The variables of the parameter table.
pub record Sample : Type 0 where
  pub milli_c : ℤ
  pub samples : ℕ
  pub failures : ℕ
  pub last_uptime_ms : ℕ
  pub valid : ℕ

-- sample_reading
unfoldable pub sample_reading : Ret × Option Reading → Sample → Sample
sample_reading (ok, some r) t = record {
  milli_c = r.milli_c;
  samples = r.samples;
  failures = r.failures;
  last_uptime_ms = r.last_uptime_ms;
  valid = if r.valid then 1 else 0;
}
sample_reading _ t = t

abbrev entry : ℕ → ParamType → List Flag → String → Definition
entry offset type flags name = record {
  offset = offset;
  type = type;
  flags = flags;
  name = name;
  callbacks = sample ∷ [];
}

-- kfsw_temp_example_param_definitions
abbrev pub definition_set : DefinitionSet
definition_set = record {
  table = 51;
  name = "temp_example";
  definitions =
      entry 0 i32 (read_only ∷ live ∷ []) "temp_mcu_mc"
      ∷ entry 4 u32 (read_only ∷ []) "temp_samples"
      ∷ entry 8 u32 (read_only ∷ []) "temp_failures"
      ∷ entry 12 u32 (read_only ∷ []) "temp_last_ms"
      ∷ entry 16 u8 (read_only ∷ []) "temp_valid"
      ∷ [];
}
