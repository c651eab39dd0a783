-- ===== src/Gpredict/System/Refinement.antt =====
-- All of pass tracking does to its tracker and to its profiles only what their own functions do
-- (gpredict/src/gpredict_profiles.c, gpredict_commands.c and parameters/gpredict_table.c).
use kfsw_modules.Prelude.{
  ℕ, ◌≡◌, ◌⊎◌, inl, inr, refl, ap, sym, ◌∙◌, Bool, true, Option, none, some, List, [], ◌∷◌, ◌++◌,
  arith,
}
use kfsw_modules.Errno.{einval}
use kfsw_modules.Gpredict.Config.{Config}
use kfsw_modules.Gpredict.Tracker
use kfsw_modules.Gpredict.Tracker.{Tracker, Bearing}
use kfsw_modules.Gpredict.Tracker.Steps
use kfsw_modules.Gpredict.Profiles
use kfsw_modules.Gpredict.Profiles.{Node, slot}
use kfsw_modules.Gpredict.Profiles.Invariant
use kfsw_modules.Gpredict.Profiles.Invariant.{IsConsistent}
use kfsw_modules.Gpredict.Commands.{command_select, command_enable, command_park, command_clear}
use kfsw_modules.Gpredict.Commands.Outcomes.{Command, selects, enables, parks, clears, handle}
use kfsw_modules.Gpredict.Table.{sample_tracker}
use kfsw_modules.Gpredict.Table.Samplers.{
  TrackerField, SlotField, Sampler, Variables, sampled, validate_grace, grace_changed,
}
use kfsw_modules.Gpredict.System.{Call, tracker, profiles, command, read, write_grace, step, run}

-- At most one call of the tracker does what the call of the node did to it.
abbrev pub ByTracker : Config → Tracker → Tracker → Type 0
ByTracker c t t' = (ks : List Steps.Call) × (t' ≡ Steps.run c ks t)

pub judges-tracker :
    (c : Config) (now : ℕ) (b : Bearing) (n : Node)
    → let t' = (Invariant.step c (Invariant.judges now (some b)) n).tracker in
      (t' ≡ n.tracker)
      ⊎ ((t' ≡ Tracker.refuse b einval n.tracker)
          ⊎ (t' ≡ (Tracker.bearing c now (some b) n.tracker).0))
unfolding Invariant.step
judges-tracker c now b n = ground arith

pub defines-tracker :
    (c : Config) (i : ℕ) (p : Option Profiles.Profile) (n : Node)
    → (Invariant.step c (Invariant.defines i p) n).tracker ≡ n.tracker
unfolding Invariant.step Profiles.define
defines-tracker c i p n = ground arith

pub selects-tracker :
    (c : Config) (i : ℕ) (n : Node) → (Invariant.step c (Invariant.selects i) n).tracker ≡ n.tracker
unfolding Invariant.step Profiles.select
selects-tracker c i n = ground arith

pub enables-tracker :
    (c : Config) (i : ℕ) (e : Bool) (n : Node)
    → (Invariant.step c (Invariant.enables i e) n).tracker ≡ n.tracker
unfolding Invariant.step Profiles.enable
enables-tracker c i e n = ground arith

pub command_select-tracker : (value : ℕ) (n : Node) → (command_select value n).0.tracker ≡ n.tracker
unfolding command_select
command_select-tracker value n = ground arith

pub command_enable-tracker :
    (value flag : ℕ) (n : Node) → (command_enable value flag n).0.tracker ≡ n.tracker
unfolding command_enable
command_enable-tracker value flag n = ground arith

pub command_park-tracker :
    (c : Config) (now : ℕ) (n : Node)
    → let t' = (command_park c now n).0.tracker in
      let parked = (Tracker.park c n.tracker).0 in
      (t' ≡ parked) ⊎ (t' ≡ (Tracker.get_status now true parked).0)
unfolding command_park
command_park-tracker c now n = ground arith

command_clear-tracker :
    (c : Config) (now : ℕ) (n : Node)
    → let t' = (command_clear c now n).0.tracker in
      let cleared = (Tracker.clear c n.tracker).0 in
      (t' ≡ cleared) ⊎ (t' ≡ (Tracker.get_status now true cleared).0)
unfolding command_clear
command_clear-tracker c now n = ground arith

pub judges_nothing-tracker :
    (c : Config) (now : ℕ) (n : Node)
    → (Invariant.step c (Invariant.judges now none) n).tracker ≡ n.tracker
unfolding Invariant.step
judges_nothing-tracker c now n = refl

pub sampled-tracker :
    (c : Config) (now : ℕ) (field : TrackerField) (n : Node) (v : Variables)
    → (sampled c now (Sampler.tracker field) n v).0.tracker
      ≡ (Tracker.get_status now true n.tracker).0
unfolding sampled sample_tracker
sampled-tracker c now field n v = refl

pub sampled_slots-tracker :
    (c : Config) (now : ℕ) (field : SlotField) (n : Node) (v : Variables)
    → (sampled c now (Sampler.slots field) n v).0.tracker ≡ n.tracker
unfolding sampled
sampled_slots-tracker c now field n v = refl

pub write_grace-tracker :
    (c : Config) (ms : ℕ) (n : Node)
    → (step c (write_grace ms) n).tracker ≡ Steps.step c (Steps.sets_grace ms) n.tracker
unfolding step Steps.step validate_grace grace_changed
write_grace-tracker c ms n = ground arith

profiles-ByTracker :
    (c : Config) (k : Invariant.Call) (n : Node)
    → ByTracker c n.tracker (Invariant.step c k n).tracker
unfolding Steps.run Steps.step
profiles-ByTracker c (Invariant.defines i p) n = ([], defines-tracker c i p n)
profiles-ByTracker c (Invariant.selects i) n = ([], selects-tracker c i n)
profiles-ByTracker c (Invariant.enables i e) n = ([], enables-tracker c i e n)
profiles-ByTracker c (Invariant.judges now none) n = ([], judges_nothing-tracker c now n)
profiles-ByTracker c (Invariant.judges now (some b)) n = elim (judges-tracker c now b n) [
  | inl h ↦ ([], h)
  | inr (inl h) ↦ (Steps.refuses b einval ∷ [], h)
  | inr (inr h) ↦ (Steps.offers now (some b) ∷ [], h)
]

command-ByTracker :
    (c : Config) (k : Command) (n : Node) → ByTracker c n.tracker (handle c k n).0.tracker
unfolding Steps.run Steps.step handle
command-ByTracker c (selects value) n = ([], command_select-tracker value n)
command-ByTracker c (enables value flag) n = ([], command_enable-tracker value flag n)
command-ByTracker c (parks now) n = elim (command_park-tracker c now n) [
  | inl h ↦ (Steps.parks ∷ [], h)
  | inr h ↦ (Steps.parks ∷ Steps.reads now true ∷ [], h)
]
command-ByTracker c (clears now) n = elim (command_clear-tracker c now n) [
  | inl h ↦ (Steps.clears ∷ [], h)
  | inr h ↦ (Steps.clears ∷ Steps.reads now true ∷ [], h)
]

step-ByTracker : (c : Config) (k : Call) (n : Node) → ByTracker c n.tracker (step c k n).tracker
unfolding Steps.run Steps.step step
step-ByTracker c (tracker k) n = (k ∷ [], refl)
step-ByTracker c (profiles k) n = profiles-ByTracker c k n
step-ByTracker c (command k) n = command-ByTracker c k n
step-ByTracker c (read now (Sampler.tracker field) v) n =
    (Steps.reads now true ∷ [], sampled-tracker c now field n v)
step-ByTracker c (read now (Sampler.slots field) v) n = ([], sampled_slots-tracker c now field n v)
step-ByTracker c (write_grace ms) n = (Steps.sets_grace ms ∷ [], write_grace-tracker c ms n)

pub run-append :
    (c : Config) (ks ls : List Steps.Call) (t : Tracker)
    → Steps.run c (ks ++ ls) t ≡ Steps.run c ls (Steps.run c ks t)
unfolding Steps.run
run-append c [] ls t = refl
run-append c (k ∷ ks) ls t = run-append c ks ls (Steps.step c k t)

-- What holds of the tracker over all its calls holds of it inside the node.
pub run-ByTracker :
    (c : Config) (ks : List Call) (n : Node) → ByTracker c n.tracker (run c ks n).tracker
unfolding run Steps.run
run-ByTracker c [] n = ([], refl)
run-ByTracker c (k ∷ ks) n =
    let (first, e) = step-ByTracker c k n in
    let (rest, f) = run-ByTracker c ks (step c k n) in
    (first ++ rest, f ∙ ap (Steps.run c rest) e ∙ sym (run-append c first rest n.tracker))
