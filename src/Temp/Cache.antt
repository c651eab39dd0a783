-- ===== src/Temp/Cache.antt =====
-- What a reader of the cache sees after any number of polls (`sample_once` and
-- `kfsw_temp_example_get` of temperature-sensor-example/src/temperature_sensor_example.c).
use kfsw_modules.Prelude.{
  ℕ, ◌+◌, ◌≤◌, ◌≡◌, refl, ap, ◌∙◌, Bool, true, false, not, ◌&&◌, Option, none, some, List, [], ◌∷◌,
  arith, if◌then◌else◌, u32_max, clamp32, if_false,
}
use kfsw_modules.Prelude.Int.{ℤ}
use kfsw_modules.Errno.{ok}
use kfsw_modules.Temp.{
  Config, Reading, State, LogLine, read_failed, readings_back, Sampled, value, failed, get,
  is_stale, invalid_milli_c, poll_work_handler,
}

-- The polls, each with its time, on the state.
unfoldable pub polls : Config → List (Sampled × ℕ) → State → State
polls c [] s = s
polls c ((sampled, now) ∷ rest) s = polls c rest (poll_work_handler c sampled now s)

-- The reading of the last poll, if it did not fail, and its time; `before` if there was no poll.
abbrev pub latest : Option (ℤ × ℕ) → List (Sampled × ℕ) → Option (ℤ × ℕ)
latest before [] = before
latest before ((value v, now) ∷ rest) = latest (some (v, now)) rest
latest before ((failed e, now) ∷ rest) = latest none rest

abbrev pub successes : List (Sampled × ℕ) → ℕ
successes [] = 0
successes ((value v, now) ∷ rest) = 1 + successes rest
successes ((failed e, now) ∷ rest) = successes rest

abbrev pub errors : List (Sampled × ℕ) → ℕ
errors [] = 0
errors ((value v, now) ∷ rest) = errors rest
errors ((failed e, now) ∷ rest) = 1 + errors rest

-- The polls that fail after one that did not.
abbrev pub outages : Bool → List (Sampled × ℕ) → ℕ
outages failing [] = 0
outages failing ((value v, now) ∷ rest) = outages false rest
outages failing ((failed e, now) ∷ rest) = (if failing then 0 else 1) + outages true rest

abbrev pub warnings : List LogLine → ℕ
warnings [] = 0
warnings (read_failed e ∷ rest) = 1 + warnings rest
warnings (readings_back ∷ rest) = warnings rest

-- The cache holds this reading, or none.
abbrev Holds : Option (ℤ × ℕ) → State → Type 0
Holds none s = (s.cached.valid ≡ false) × (s.cached.milli_c ≡ invalid_milli_c)
Holds (some (v, t)) s = (s.cached.valid ≡ true) × (s.cached.milli_c ≡ v) × (s.last_success_ms ≡ t)

-- What get() makes of the latest reading at a time.
abbrev pub shown : Config → ℕ → Option (ℤ × ℕ) → Bool × ℤ
shown c now none = (false, invalid_milli_c)
shown c now (some (v, t)) = if is_stale c now t then (false, invalid_milli_c) else (true, v)

abbrev seen : Config → ℕ → State → Reading
seen c now s =
    if s.cached.valid && is_stale c now s.last_success_ms
    then record s.cached { valid = false; milli_c = invalid_milli_c }
    else s.cached

get-seen :
    (c : Config) (now : ℕ) (s : State)
    → s.initialized ≡ true
    → get c true now s ≡ (ok, some (seen c now s))
unfolding get
get-seen c now s i = if_false _ _ _ (ap not i)

module _ (c : Config) where
  polls-Holds :
      (ps : List (Sampled × ℕ)) (before : Option (ℤ × ℕ)) (s : State)
      → s.initialized ≡ true
      → Holds before s
      → Holds (latest before ps) (polls c ps s) × ((polls c ps s).initialized ≡ true)
  unfolding polls poll_work_handler
  polls-Holds [] before s i h = (h, i)
  polls-Holds ((value v, now) ∷ rest) before s i h =
      polls-Holds rest (some (v, now)) (poll_work_handler c (value v) now s) i (refl, refl, refl)
  polls-Holds ((failed e, now) ∷ rest) before s i h =
      polls-Holds rest none (poll_work_handler c (failed e) now s) i (refl, refl)

  polls-counts :
      (ps : List (Sampled × ℕ)) (s : State)
      → s.cached.samples ≤ u32_max
      → s.cached.failures ≤ u32_max
      → ((polls c ps s).cached.samples ≡ clamp32 (s.cached.samples + successes ps))
        × ((polls c ps s).cached.failures ≡ clamp32 (s.cached.failures + errors ps))
  unfolding polls poll_work_handler
  polls-counts [] s a b = ground arith
  polls-counts ((value v, now) ∷ rest) s a b =
      ground (arith, polls-counts rest (poll_work_handler c (value v) now s))
  polls-counts ((failed e, now) ∷ rest) s a b =
      ground (arith, polls-counts rest (poll_work_handler c (failed e) now s))

  get-Holds :
      (o : Option (ℤ × ℕ)) (now : ℕ) (s : State)
      → s.initialized ≡ true
      → Holds o s
      → (r : Reading) × (get c true now s ≡ (ok, some r))
        × ((r.valid, r.milli_c) ≡ shown c now o)
        × (r.samples ≡ s.cached.samples)
        × (r.failures ≡ s.cached.failures)
  get-Holds none now s i h =
      (seen c now s, get-seen c now s i, ground arith, ground arith, ground arith)
  get-Holds (some (v, t)) now s i h =
      (seen c now s, get-seen c now s i, ground arith, ground arith, ground arith)

clamp32_zero : (m n : ℕ) → m ≡ 0 → clamp32 (m + n) ≡ clamp32 n
clamp32_zero m n h = ground arith

-- Whatever the polls were, a reader of the started module is shown the reading of the last poll, and
-- as valid only if that poll did not fail and is not older than the maximum age nor in the future;
-- otherwise the value is the one that stands for none. The counts are those of the polls, and stay at
-- the largest 32-bit number.
pub get-polls :
    (c : Config) (ps : List (Sampled × ℕ)) (now : ℕ) (s : State)
    → s.initialized ≡ true
    → s.cached.valid ≡ false
    → s.cached.milli_c ≡ invalid_milli_c
    → s.cached.samples ≡ 0
    → s.cached.failures ≡ 0
    → (r : Reading) × (get c true now (polls c ps s) ≡ (ok, some r))
      × ((r.valid, r.milli_c) ≡ shown c now (latest none ps))
      × (r.samples ≡ clamp32 (successes ps))
      × (r.failures ≡ clamp32 (errors ps))
get-polls c ps now s i v m a b =
    let (held, started) = polls-Holds c ps none s i (v, m) in
    let (samples, failures) = polls-counts c ps s (omega arith) (omega arith) in
    let (r, e, same, n, k) = get-Holds c (latest none ps) now (polls c ps s) started held in
    (
      r,
      e,
      same,
      n ∙ samples ∙ clamp32_zero s.cached.samples (successes ps) a,
      k ∙ failures ∙ clamp32_zero s.cached.failures (errors ps) b,
    )

-- A failing sensor is reported once for each outage and not once for each poll.
pub warnings-polls :
    (c : Config) (ps : List (Sampled × ℕ)) (s : State)
    → warnings (polls c ps s).log ≡ outages s.failing ps + warnings s.log
unfolding polls poll_work_handler
warnings-polls c [] s = omega arith
warnings-polls c ((value v, now) ∷ rest) s =
    ground (arith, warnings-polls c rest (poll_work_handler c (value v) now s))
warnings-polls c ((failed e, now) ∷ rest) s =
    ground (arith, warnings-polls c rest (poll_work_handler c (failed e) now s))
