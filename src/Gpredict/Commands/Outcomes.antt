-- ===== src/Gpredict/Commands/Outcomes.antt =====
-- The operator commands (gpredict/src/gpredict_commands.c) do what they report.
use kfsw_modules.Prelude.{ℕ, ◌≡◌, ◌≢◌, ◌↔◌, ◌⊎◌, true, some, arith, if◌then◌else◌}
use kfsw_modules.Errno.{Ret, ok}
use kfsw_modules.Gpredict.Config.{Config}
use kfsw_modules.Gpredict.Machine.{State}
use kfsw_modules.Gpredict.Tracker
use kfsw_modules.Gpredict.Profiles.{Node, slot, slot_defined}
use kfsw_modules.Gpredict.Commands.{
  CommandStatus, CommandResult, done, command_select, command_enable, command_park, command_clear,
}

-- The four commands, by their arguments and the time at which they read the clock.
pub data Command : Type 0 where
  selects : ℕ → Command
  enables : ℕ → ℕ → Command
  parks : ℕ → Command
  clears : ℕ → Command

unfoldable pub handle : Config → Command → Node → Node × CommandResult × Ret
unfolding command_select command_enable command_park command_clear
handle c (selects value) n = command_select value n
handle c (enables value flag) n = command_enable value flag n
handle c (parks now) n = command_park c now n
handle c (clears now) n = command_clear c now n

-- Every command returns 0 exactly when its result says that it was done.
pub handle-ok_iff :
    (c : Config) (k : Command) (n : Node)
    → ((handle c k n).2 ≡ ok) ↔ ((handle c k n).1.status ≡ done)
unfolding handle
handle-ok_iff c (selects value) n = (λ h. ground arith, λ h. ground arith)
handle-ok_iff c (enables value flag) n = (λ h. ground arith, λ h. ground arith)
handle-ok_iff c (parks now) n = (λ h. ground arith, λ h. ground arith)
handle-ok_iff c (clears now) n = (λ h. ground arith, λ h. ground arith)

-- A select command changes the selection to the slot that its argument names and nothing else, or
-- it changes nothing: an argument past 255 is not narrowed to some other slot.
pub command_select_exact :
    (value : ℕ) (n : Node)
    → ((command_select value n).2 ≡ ok)
        × ((command_select value n).0 ≡ record n { selected = some value })
        × (slot_defined value n ≡ true)
        × ((slot value n).enabled ≡ true)
      ⊎ ((command_select value n).2 ≢ ok) × ((command_select value n).0 ≡ n)
unfolding command_select
command_select_exact value n = ground arith

-- A park command takes a tracker that is in no fault to parking, and is denied in fault; a clear
-- command takes a tracker in fault to parked, and is answered busy otherwise.
pub park_and_clear :
    (c : Config) (now : ℕ) (n : Node)
    → let in_fault = Tracker.state_eq n.tracker.status.state State.fault in
      let (p, rp, _) = command_park c now n in
      let (q, rq, _) = command_clear c now n in
      (p.tracker.status.state ≡ (if in_fault then State.fault else State.parking))
      × (rp.status ≡ (if in_fault then CommandStatus.denied else done))
      × (q.tracker.status.state ≡ (if in_fault then State.parked else n.tracker.status.state))
      × (rq.status ≡ (if in_fault then done else CommandStatus.busy))
unfolding command_park command_clear Tracker.park Tracker.clear Tracker.get_status
park_and_clear c now n = ground arith
