-- ===== src/Gpredict/DeadlineExamples.antt =====
-- The end of a pass on a kernel that is up to 10 ms late, at a concrete run.
use kfsw_modules.Prelude.{ℕ, ◌≡◌, refl, true, false, some, List, [], ◌∷◌, arith}
use kfsw_modules.Errno.{einval}
use kfsw_modules.Gpredict.Tracker
use kfsw_modules.Gpredict.Tracker.{bearing, pass_is_live, within_travel, silence_work_handler}
use kfsw_modules.Gpredict.Tracker.Steps
use kfsw_modules.Gpredict.Tracker.Quiet.{refuses, reads}
use kfsw_modules.Gpredict.Tracker.Deadline
use kfsw_modules.Gpredict.Tracker.Deadline.{Event, quiet, wake, Timed, Timely, run, run-ends}
use kfsw_modules.Gpredict.Examples.{station, rising, started}

abbrev seen_once : Timed
seen_once = record { tracker = (bearing station 1000 (some rising) started).0; due = 6000 }

abbrev silence : List (ℕ × Event)
silence =
    (3000, quiet (refuses rising einval))
    ∷ (6002, wake)
    ∷ (7000, quiet (reads true))
    ∷ (11008, wake)
    ∷ []

silence-Timely : Timely station 10 1000 silence seen_once 12000
unfolding Timely Deadline.step bearing within_travel silence_work_handler Steps.step Tracker.init
    Tracker.boot
silence-Timely = (
  omega arith,
  (λ _. omega arith),
  tt,
  (
    omega arith,
    (λ _. omega arith),
    ((λ h. absurd (cc)), omega arith),
    (
      omega arith,
      (λ _. omega arith),
      tt,
      (
        omega arith,
        (λ _. omega arith),
        ((λ h. absurd (cc)), omega arith),
        (omega arith, λ h. absurd (h refl)),
      ),
    ),
  ),
)

run-ends_example : pass_is_live (run station silence seen_once).tracker ≡ false
unfolding Tracker.init Tracker.boot within_travel
run-ends_example =
    run-ends station 1000 10 12000 rising started silence refl (ground arith) (ground arith)
      (omega arith) silence-Timely (omega arith)
