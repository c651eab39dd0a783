-- ===== src/Gpredict/System/Sound.antt =====
-- What holds of pass tracking as a whole (gpredict/) between two calls.
use kfsw_modules.Prelude.{ℕ, ◌≡◌, ◌⊎◌, inl, inr, List, [], ◌∷◌, arith, ◌%◌, ◌==◌}
use kfsw_modules.Gpredict.Config.{Config, IsBuildable}
use kfsw_modules.Gpredict.Tracker
use kfsw_modules.Gpredict.Tracker.Steps
use kfsw_modules.Gpredict.Tracker.Invariant.{Inv, run-Inv}
use kfsw_modules.Gpredict.Profiles
use kfsw_modules.Gpredict.Profiles.{Node, slot, slot_defined}
use kfsw_modules.Gpredict.Profiles.Invariant
use kfsw_modules.Gpredict.Profiles.Invariant.{IsConsistent, step-IsConsistent, boot-IsConsistent}
use kfsw_modules.Gpredict.Commands.{command_select, command_enable, command_park, command_clear}
use kfsw_modules.Gpredict.Commands.Outcomes.{Command, selects, enables, parks, clears, handle}
use kfsw_modules.Gpredict.Table.Samplers.{grace_changed}
use kfsw_modules.Gpredict.Table.Writes.{with_silence, sampled-silence}
use kfsw_modules.Gpredict.System.{Call, tracker, profiles, command, read, write_grace, step, run}
use kfsw_modules.Gpredict.System.Refinement.{run-ByTracker}

-- The tracker plays no part in it.
IsConsistent-tracker :
    (c : Config) (t : Tracker.Tracker) (n : Node)
    → IsConsistent c n
    → IsConsistent c (record n { tracker = t })
unfolding slot_defined
IsConsistent-tracker c t n h = record {
  sized = h.sized;
  valid = h.valid;
  chosen_defined = h.chosen_defined;
  chosen_enabled = h.chosen_enabled;
}

command_select-select :
    (value : ℕ) (n : Node)
    → ((command_select value n).0 ≡ n)
      ⊎ ((command_select value n).0 ≡ (Profiles.select (value % 256) n).0)
unfolding command_select
command_select-select value n = ground arith

command_enable-enable :
    (value flag : ℕ) (n : Node)
    → ((command_enable value flag n).0 ≡ n)
      ⊎ ((command_enable value flag n).0 ≡ (Profiles.enable (value % 256) (flag == 1) n).0)
unfolding command_enable
command_enable-enable value flag n = ground arith

command_park-slots :
    (c : Config) (now : ℕ) (n : Node)
    → (command_park c now n).0 ≡ record n { tracker = (command_park c now n).0.tracker }
unfolding command_park
command_park-slots c now n = ground arith

command_clear-slots :
    (c : Config) (now : ℕ) (n : Node)
    → (command_clear c now n).0 ≡ record n { tracker = (command_clear c now n).0.tracker }
unfolding command_clear
command_clear-slots c now n = ground arith

write_grace-slots :
    (c : Config) (ms : ℕ) (n : Node)
    → step c (write_grace ms) n ≡ record n { tracker = (step c (write_grace ms) n).tracker }
unfolding step grace_changed
write_grace-slots c ms n = ground arith

command-IsConsistent :
    (c : Config) (k : Command) (n : Node) → IsConsistent c n → IsConsistent c (handle c k n).0
unfolding handle
command-IsConsistent c (selects value) n h = elim (command_select-select value n) [
  | inl e ↦ rw e h
  | inr e ↦
      rw e (unfold Invariant.step in step-IsConsistent c (Invariant.selects (value % 256)) n h)
]
command-IsConsistent c (enables value flag) n h = elim (command_enable-enable value flag n) [
  | inl e ↦ rw e h
  | inr e ↦ rw e (
      unfold Invariant.step in
      step-IsConsistent c (Invariant.enables (value % 256) (flag == 1)) n h)
]
command-IsConsistent c (parks now) n h =
    rw (command_park-slots c now n) (IsConsistent-tracker c _ n h)
command-IsConsistent c (clears now) n h =
    rw (command_clear-slots c now n) (IsConsistent-tracker c _ n h)

boot_run-Inv :
    (c : Config) (ts : List Steps.Call)
    → IsBuildable c
    → Inv c (Steps.run c ts (Profiles.boot c).tracker)
unfolding Profiles.boot
boot_run-Inv c ts b = run-Inv c ts b

step_any-IsConsistent :
    (c : Config) (k : Call) (n : Node) → IsConsistent c n → IsConsistent c (step c k n)
unfolding step
step_any-IsConsistent c (tracker k) n h = IsConsistent-tracker c _ n h
step_any-IsConsistent c (profiles k) n h = step-IsConsistent c k n h
step_any-IsConsistent c (command k) n h = command-IsConsistent c k n h
step_any-IsConsistent c (read now s v) n h =
    let (ms, e) = sampled-silence c now s n v in
    rw e (IsConsistent-tracker c (with_silence ms n).tracker n h)
step_any-IsConsistent c (write_grace ms) n h =
    rw (write_grace-slots c ms n) (IsConsistent-tracker c (step c (write_grace ms) n).tracker n h)

run_any-IsConsistent :
    (c : Config) (ks : List Call) (n : Node) → IsConsistent c n → IsConsistent c (run c ks n)
unfolding run
run_any-IsConsistent c [] n h = h
run_any-IsConsistent c (k ∷ ks) n h =
    run_any-IsConsistent c ks (step c k n) (step_any-IsConsistent c k n h)

-- Pass tracking between two calls: the tracker, and the slots with their selection.
pub record IsSound (c : Config) (n : Node) : Type 0 where
  pub tracker : Inv c n.tracker
  pub slots : IsConsistent c n

-- From power-on, with a configuration that passes the build assertions, whatever reaches pass tracking
-- in whatever order, commands, profiles, the parameter table, bearings, the silence work and the
-- rotator's reports: the counters fit 32 bits, no more passes have ended than bearings were
-- accepted, the grace period is one that an operator could set, a live pass has seen a bearing and
-- has its silence work pending, and the last accepted bearing is inside the travel; the number of
-- slots stays the configured one, a slot that holds a profile holds a valid one, and the selected
-- slot holds an enabled profile.
pub run-IsSound :
    (c : Config) (ks : List Call) → IsBuildable c → IsSound c (run c ks (Profiles.boot c))
run-IsSound c ks b =
    let (ts, e) = run-ByTracker c ks (Profiles.boot c) in
    record {
      tracker = rw e (boot_run-Inv c ts b);
      slots = run_any-IsConsistent c ks (Profiles.boot c) (boot-IsConsistent c);
    }
