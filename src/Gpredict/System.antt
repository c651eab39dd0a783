-- ===== src/Gpredict/System.antt =====
-- The whole of pass tracking as the rest of the node sees it: the calls of the tracker, the profiles,
-- the commands and the parameter table (gpredict/), in any order.
pub mod Refinement
pub mod Sound
pub mod Latch
pub mod Calls
use kfsw_modules.Prelude.{ℕ, List, [], ◌∷◌, if◌then◌else◌}
use kfsw_modules.Errno.{is_ok}
use kfsw_modules.Gpredict.Config.{Config}
use kfsw_modules.Gpredict.Tracker.{Tracker}
use kfsw_modules.Gpredict.Tracker.Steps
use kfsw_modules.Gpredict.Profiles.{Node}
use kfsw_modules.Gpredict.Profiles.Invariant
use kfsw_modules.Gpredict.Commands.Outcomes.{Command, handle}
use kfsw_modules.Gpredict.Table.Samplers.{
  Sampler, Variables, sampled, validate_grace, grace_changed,
}

pub data Call : Type 0 where
  tracker : Steps.Call → Call
  profiles : Invariant.Call → Call
  command : Command → Call
  read : ℕ → Sampler → Variables → Call
  write_grace : ℕ → Call

-- The parameter service calls grace_changed() on a value that validate_grace() accepted.
unfoldable pub step : Config → Call → Node → Node
step c (tracker k) n = record n { tracker = Steps.step c k n.tracker }
step c (profiles k) n = Invariant.step c k n
step c (command k) n = (handle c k n).0
step c (read now s v) n = (sampled c now s n v).0
step c (write_grace ms) n = if is_ok (validate_grace ms) then grace_changed ms n else n

unfoldable pub run : Config → List Call → Node → Node
run c [] n = n
run c (k ∷ ks) n = run c ks (step c k n)
