-- ===== src/Gpredict/System/Calls.antt =====
-- Which calls of the tracker stand behind a call of pass tracking (gpredict/src/gpredict_profiles.c,
-- gpredict_commands.c and parameters/gpredict_table.c), told from the state that the call finds.
use kfsw_modules.Prelude.{
  ℕ, ◌≡◌, refl, ap, sym, ◌∙◌, true, Option, none, some, List, [], ◌∷◌, ◌++◌, arith, if◌then◌else◌,
}
use kfsw_modules.Errno.{einval}
use kfsw_modules.Gpredict.Config.{Config}
use kfsw_modules.Gpredict.Tracker.{Bearing, is_fault}
use kfsw_modules.Gpredict.Tracker.Steps
use kfsw_modules.Gpredict.Profiles.{Node, slot, within_profile}
use kfsw_modules.Gpredict.Profiles.Invariant
use kfsw_modules.Gpredict.Commands.{command_park, command_clear}
use kfsw_modules.Gpredict.Commands.Outcomes.{Command, selects, enables, parks, clears, handle}
use kfsw_modules.Gpredict.Table.Samplers.{Sampler}
use kfsw_modules.Gpredict.System.{Call, tracker, profiles, command, read, write_grace, step, run}
use kfsw_modules.Gpredict.System.Refinement.{
  defines-tracker, selects-tracker, enables-tracker, command_select-tracker, command_enable-tracker,
  judges_nothing-tracker, sampled-tracker, sampled_slots-tracker, write_grace-tracker, run-append,
}

-- A bearing reaches the tracker if the selected profile allows it, and is refused there if not.
abbrev judged_calls : ℕ → Bearing → Option ℕ → Node → List Steps.Call
judged_calls now b none n = []
judged_calls now b (some s) n =
    if within_profile (slot s n) b
    then Steps.offers now (some b) ∷ []
    else Steps.refuses b einval ∷ []

abbrev profiles_calls : Invariant.Call → Node → List Steps.Call
profiles_calls (Invariant.judges now (some b)) n = judged_calls now b n.selected n
profiles_calls _ n = []

-- A command that is carried out reads the status for its answer; one that is refused does not.
abbrev command_calls : Command → Node → List Steps.Call
command_calls (parks now) n =
    if is_fault n.tracker.status.state
    then Steps.parks ∷ []
    else Steps.parks ∷ Steps.reads now true ∷ []
command_calls (clears now) n =
    if is_fault n.tracker.status.state
    then Steps.clears ∷ Steps.reads now true ∷ []
    else Steps.clears ∷ []
command_calls _ n = []

abbrev pub tracker_calls : Call → Node → List Steps.Call
tracker_calls (tracker k) n = k ∷ []
tracker_calls (profiles k) n = profiles_calls k n
tracker_calls (command k) n = command_calls k n
tracker_calls (read now (Sampler.tracker field) v) n = Steps.reads now true ∷ []
tracker_calls (read now (Sampler.slots field) v) n = []
tracker_calls (write_grace ms) n = Steps.sets_grace ms ∷ []

-- The calls of the tracker along a run.
unfoldable pub all_calls : Config → List Call → Node → List Steps.Call
all_calls c [] n = []
all_calls c (k ∷ ks) n = tracker_calls k n ++ all_calls c ks (step c k n)

judged-calls :
    (c : Config) (now : ℕ) (b : Bearing) (n : Node)
    → (Invariant.step c (Invariant.judges now (some b)) n).tracker
      ≡ Steps.run c (judged_calls now b n.selected n) n.tracker
unfolding Invariant.step Steps.run Steps.step
judged-calls c now b n = ground arith

park-calls :
    (c : Config) (now : ℕ) (n : Node)
    → (command_park c now n).0.tracker ≡ Steps.run c (command_calls (parks now) n) n.tracker
unfolding command_park Steps.run Steps.step
park-calls c now n = ground arith

clear-calls :
    (c : Config) (now : ℕ) (n : Node)
    → (command_clear c now n).0.tracker ≡ Steps.run c (command_calls (clears now) n) n.tracker
unfolding command_clear Steps.run Steps.step
clear-calls c now n = ground arith

profiles-calls :
    (c : Config) (k : Invariant.Call) (n : Node)
    → (Invariant.step c k n).tracker ≡ Steps.run c (profiles_calls k n) n.tracker
unfolding Steps.run
profiles-calls c (Invariant.defines i p) n = defines-tracker c i p n
profiles-calls c (Invariant.selects i) n = selects-tracker c i n
profiles-calls c (Invariant.enables i e) n = enables-tracker c i e n
profiles-calls c (Invariant.judges now none) n = judges_nothing-tracker c now n
profiles-calls c (Invariant.judges now (some b)) n = judged-calls c now b n

command-calls :
    (c : Config) (k : Command) (n : Node)
    → (handle c k n).0.tracker ≡ Steps.run c (command_calls k n) n.tracker
unfolding Steps.run handle
command-calls c (selects value) n = command_select-tracker value n
command-calls c (enables value flag) n = command_enable-tracker value flag n
command-calls c (parks now) n = park-calls c now n
command-calls c (clears now) n = clear-calls c now n

step-calls :
    (c : Config) (k : Call) (n : Node)
    → (step c k n).tracker ≡ Steps.run c (tracker_calls k n) n.tracker
unfolding Steps.run Steps.step step
step-calls c (tracker k) n = refl
step-calls c (profiles k) n = profiles-calls c k n
step-calls c (command k) n = command-calls c k n
step-calls c (read now (Sampler.tracker field) v) n = sampled-tracker c now field n v
step-calls c (read now (Sampler.slots field) v) n = sampled_slots-tracker c now field n v
step-calls c (write_grace ms) n = write_grace-tracker c ms n

-- Whatever calls reach pass tracking, in any order, its tracker goes exactly the way of the calls
-- that `all_calls` tells. A call of the tracker is that call. A bearing for the profiles is offered to the tracker if the selected slot
-- allows it, is refused there with -EINVAL if that slot does not, and does nothing where no slot is
-- selected or no bearing is given. The park and the clear command are the tracker's own, followed by
-- one read of the status exactly if the tracker does not refuse them, which it does in fault and out
-- of it respectively. A read of a tracker entry of the table is one read of the status, and a
-- written grace period is set if it is valid. To define, select or enable a slot, and to read an
-- entry of the slots, touches nothing of the tracker.
pub run-all_calls :
    (c : Config) (ks : List Call) (n : Node)
    → (run c ks n).tracker ≡ Steps.run c (all_calls c ks n) n.tracker
unfolding run all_calls Steps.run
run-all_calls c [] n = refl
run-all_calls c (k ∷ ks) n =
    let rest = all_calls c ks (step c k n) in
    run-all_calls c ks (step c k n)
    ∙ ap (Steps.run c rest) (step-calls c k n)
    ∙ sym (run-append c (tracker_calls k n) rest n.tracker)
