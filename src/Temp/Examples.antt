-- ===== src/Temp/Examples.antt =====
-- The temperature example at concrete inputs.
use kfsw_modules.Prelude.{ℕ, ◌+◌, ◌≤◌, ◌≡◌, inr, refl, true, some, List, [], ◌∷◌, arith}
use kfsw_modules.Prelude.Int.{ℤ, pos, negsuc, pos_part, neg_part}
use kfsw_modules.Errno.{ok, eio}
use kfsw_modules.Temp.{Config, Reading, State, Sampled, value, failed, boot, get, sensor_read}
use kfsw_modules.Temp.Values.{sensor_read_exact}
use kfsw_modules.Temp.Cache.{polls, shown, get-polls}

abbrev config : Config
config = record { sensor = true; period_ms = 1000; max_age_ms = 3000 }

abbrev started : State
started = record boot { initialized = true }

-- Half a degree below zero, two failures, and 21.5 degrees.
abbrev history : List (Sampled × ℕ)
history =
    (value (negsuc 499), 1000)
    ∷ (failed eio, 2000)
    ∷ (failed eio, 3000)
    ∷ (value (pos 21500), 4000)
    ∷ []

get-polls_example :
    (r : Reading) × (get config true 5000 (polls config history started) ≡ (ok, some r))
    × ((r.valid, r.milli_c) ≡ shown config 5000 (some (pos 21500, 4000)))
    × (r.samples ≡ 2)
    × (r.failures ≡ 2)
unfolding boot
get-polls_example = get-polls config history 5000 started refl refl refl refl refl

-- -0.5 degrees: no whole degrees and -500000 millionths.
sensor_read_exact_example :
    (milli_c : ℤ) × (sensor_read true ok ok (pos 0) (negsuc 499999) ≡ value milli_c)
    × (pos_part milli_c ≡ 0)
    × (neg_part milli_c ≡ 500)
    × (pos_part milli_c + neg_part milli_c ≤ 2147483647)
sensor_read_exact_example =
    sensor_read_exact (pos 0) (negsuc 499999) (inr (refl, refl)) (omega arith) (omega arith)
