-- ===== src/Gpredict/System/Latch.antt =====
-- The fault state seen from outside: what reaches it through the commands, the profiles and the
-- parameter table (gpredict/src/gpredict_profiles.c, gpredict_commands.c and
-- parameters/gpredict_table.c).
use kfsw_modules.Prelude.{
  ◌≡◌, refl, Bool, true, false, not, ◌&&◌, none, some, inl, inr, List, [], ◌∷◌, arith,
}
use kfsw_modules.Errno.{einval}
use kfsw_modules.Gpredict.Config.{Config}
use kfsw_modules.Gpredict.Tracker.{Tracker}
use kfsw_modules.Gpredict.Tracker.Steps
use kfsw_modules.Gpredict.Tracker.Faults.{IsLatched, leaves_fault, step-IsLatched}
use kfsw_modules.Gpredict.Profiles.{Node}
use kfsw_modules.Gpredict.Profiles.Invariant
use kfsw_modules.Gpredict.Commands.Outcomes.{Command, selects, enables, parks, clears, handle}
use kfsw_modules.Gpredict.Table.Samplers.{Sampler}
use kfsw_modules.Gpredict.System.{Call, tracker, profiles, command, read, write_grace, step, run}
use kfsw_modules.Gpredict.System.Refinement.{
  judges-tracker, defines-tracker, selects-tracker, enables-tracker, command_select-tracker,
  command_enable-tracker, command_park-tracker, judges_nothing-tracker, sampled-tracker,
  sampled_slots-tracker, write_grace-tracker,
}

-- The clear command, and the calls of the tracker that clear or reset it.
abbrev pub clears_fault : Call → Bool
clears_fault (tracker k) = leaves_fault k
clears_fault (command (clears now)) = true
clears_fault _ = false

abbrev pub none_clears : List Call → Bool
none_clears [] = true
none_clears (k ∷ ks) = not (clears_fault k) && none_clears ks

-- A call of the tracker that leaves the fault state to others, seen in the node.
kept :
    (c : Config) (k : Steps.Call) (from t t' : Tracker)
    → leaves_fault k ≡ false
    → t' ≡ Steps.step c k t
    → IsLatched from t
    → IsLatched from t'
kept c k from t t' n e h = rw e (step-IsLatched c k from t n h)

same : (from t t' : Tracker) → t' ≡ t → IsLatched from t → IsLatched from t'
same from t t' e h = rw e h

profiles-IsLatched :
    (c : Config) (k : Invariant.Call) (from : Tracker) (n : Node)
    → IsLatched from n.tracker
    → IsLatched from (Invariant.step c k n).tracker
unfolding Steps.step
profiles-IsLatched c (Invariant.defines i p) from n h = same from _ _ (defines-tracker c i p n) h
profiles-IsLatched c (Invariant.selects i) from n h = same from _ _ (selects-tracker c i n) h
profiles-IsLatched c (Invariant.enables i e) from n h = same from _ _ (enables-tracker c i e n) h
profiles-IsLatched c (Invariant.judges now none) from n h =
    same from _ _ (judges_nothing-tracker c now n) h
profiles-IsLatched c (Invariant.judges now (some b)) from n h = elim (judges-tracker c now b n) [
  | inl e ↦ same from _ _ e h
  | inr (inl e) ↦ kept c (Steps.refuses b einval) from n.tracker _ refl e h
  | inr (inr e) ↦ kept c (Steps.offers now (some b)) from n.tracker _ refl e h
]

command-IsLatched :
    (c : Config) (k : Command) (from : Tracker) (n : Node)
    → clears_fault (command k) ≡ false
    → IsLatched from n.tracker
    → IsLatched from (handle c k n).0.tracker
unfolding Steps.step handle
command-IsLatched c (selects value) from n k h = same from _ _ (command_select-tracker value n) h
command-IsLatched c (enables value flag) from n k h =
    same from _ _ (command_enable-tracker value flag n) h
command-IsLatched c (parks now) from n k h =
    let parked = step-IsLatched c Steps.parks from n.tracker refl h in
    elim (command_park-tracker c now n) [
      | inl e ↦ same from _ _ e parked
      | inr e ↦ kept c (Steps.reads now true) from _ _ refl e parked
    ]
command-IsLatched c (clears now) from n k h = absurd (cc)

step_any-IsLatched :
    (c : Config) (k : Call) (from : Tracker) (n : Node)
    → clears_fault k ≡ false
    → IsLatched from n.tracker
    → IsLatched from (step c k n).tracker
unfolding step Steps.step
step_any-IsLatched c (tracker k) from n stays h = step-IsLatched c k from n.tracker stays h
step_any-IsLatched c (profiles k) from n stays h = profiles-IsLatched c k from n h
step_any-IsLatched c (command k) from n stays h = command-IsLatched c k from n stays h
step_any-IsLatched c (read now (Sampler.tracker field) v) from n stays h =
    kept c (Steps.reads now true) from n.tracker _ refl (sampled-tracker c now field n v) h
step_any-IsLatched c (read now (Sampler.slots field) v) from n stays h =
    same from _ _ (sampled_slots-tracker c now field n v) h
step_any-IsLatched c (write_grace ms) from n stays h =
    kept c (Steps.sets_grace ms) from n.tracker _ refl (write_grace-tracker c ms n) h

-- While an initialized tracker is in fault, nothing that reaches pass tracking leads out of it but an
-- operator's clear, as a command or a call, and the module's reset: no other command, no profile, no
-- bearing inside or outside the chosen slot, no write or read of the parameter table, no report of
-- the rotator. Nor does any of these move the commanded bearing, accept a bearing, end a pass or
-- count the fault again.
pub run_any-IsLatched :
    (c : Config) (ks : List Call) (from : Tracker) (n : Node)
    → none_clears ks ≡ true
    → IsLatched from n.tracker
    → IsLatched from (run c ks n).tracker
unfolding run
run_any-IsLatched c [] from n stays h = h
run_any-IsLatched c (k ∷ ks) from n stays h =
    run_any-IsLatched c ks from (step c k n) (ground arith)
      (step_any-IsLatched c k from n (ground arith) h)
