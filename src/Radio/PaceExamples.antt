-- ===== src/Radio/PaceExamples.antt =====
-- Requests of a session at a concrete run: three calls in 1.1 seconds, of which two ask.
use kfsw_modules.Prelude.{ℕ, ◌+◌, ◌-◌, ◌*◌, ◌≤◌, ◌≡◌, refl, List, [], ◌∷◌, arith}
use kfsw_modules.Radio.Bench.{bench}
use kfsw_modules.Radio.Link.{Env}
use kfsw_modules.Radio.Control.{boot}
use kfsw_modules.Radio.Handshake.{connect}
use kfsw_modules.Radio.Frames.{encode}
use kfsw_modules.Radio.Examples.{ground_side, env, idle, telecommand}
use kfsw_modules.Radio.Pace.{requests}
use kfsw_modules.Radio.Pace.Bound.{Traffic, connects, encodes, step, run, requests_paced}

abbrev at_time : ℕ → Env
at_time now = record env { now = now }

abbrev traffic : List (Env × Traffic)
traffic =
    (at_time 5000, connects)
    ∷ (at_time 5400, encodes telecommand)
    ∷ (at_time 6100, encodes telecommand)
    ∷ []

two_requests : requests (run ground_side bench traffic idle).sent ≡ 2
unfolding run step encode connect boot
two_requests = refl

requests_paced_example :
    1000 * requests (run ground_side bench traffic idle).sent
    ≤ 1000 * requests idle.sent + 1000 + (6100 - 5000)
requests_paced_example = requests_paced ground_side bench 5000 6100 traffic idle (omega arith)
