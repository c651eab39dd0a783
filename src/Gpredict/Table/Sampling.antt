-- ===== src/Gpredict/Table/Sampling.antt =====
-- What the sampled parameters show of the profile slots (gpredict/parameters/gpredict_table.c).
use kfsw_modules.Prelude.{
  ℕ, zero, suc, ◌+◌, ◌≤◌, ◌<◌, ◌≡◌, refl, true, Option, none, some, List, arith, if◌then◌else◌,
  ◌&&◌, ◌∙◌,
}
use native.Mathlib.Decide.{dec_lt}
use kfsw_modules.Gpredict.Config.{Config}
use kfsw_modules.Gpredict.Profiles.{Profile, Node, slot, slot_defined, get}
use kfsw_modules.Gpredict.Profiles.Invariant.{IsConsistent}
use kfsw_modules.Gpredict.Table.{Slots, gp_none, count_slot, scan, cleared_slots, sample_slots}

-- The variables show profile `p` in slot `s`.
pub record Shows (s : ℕ) (p : Profile) (g : Slots) : Type 0 where
  pub profile : g.profile ≡ s
  pub policy : g.policy ≡ p.policy
  pub catalogue : g.catalogue ≡ p.catalogue
  pub profile_name : g.profile_name ≡ p.name

-- The slots from `index` on that hold a profile.
abbrev pub defined_from : Node → ℕ → ℕ → ℕ
defined_from n zero index = 0
defined_from n (suc left) index =
    let rest = defined_from n left (index + 1) in if slot_defined index n then suc rest else rest

module _ (n : Node) (s : ℕ) where
  count_slot-keeps :
      (index : ℕ) (g : Slots)
      → s < index
      → Shows s (slot s n) g
      → Shows s (slot s n) (count_slot (some s) index (get index true n) g)
  unfolding count_slot get
  count_slot-keeps index g h shown = ground arith

  count_slot-Shows :
      (g : Slots)
      → slot_defined s n ≡ true
      → Shows s (slot s n) (count_slot (some s) s (get s true n) g)
  unfolding count_slot get
  count_slot-Shows g h = ground arith

  scan-keeps :
      (left index : ℕ) (g : Slots)
      → s < index
      → Shows s (slot s n) g
      → Shows s (slot s n) (scan (some s) n left index g)
  unfolding scan
  scan-keeps zero index g h shown = shown
  scan-keeps (suc left) index g h shown =
      scan-keeps left (index + 1) (count_slot (some s) index (get index true n) g) (omega arith)
        (count_slot-keeps index g h shown)

  scan-Shows :
      (left index : ℕ) (g : Slots)
      → index ≤ s
      → s < index + left
      → slot_defined s n ≡ true
      → Shows s (slot s n) (scan (some s) n left index g)
  unfolding scan
  scan-Shows zero index g a b d = absurd (omega arith)
  scan-Shows (suc left) index g a b d = elim (dec_lt index s) [
    | yes p ↦
        scan-Shows left (index + 1) (count_slot (some s) index (get index true n) g) (omega arith)
          (omega arith) d
    | no p ↦
        let e : index ≡ s = omega arith in
        rw e (
          scan-keeps left (s + 1) (count_slot (some s) s (get s true n) g) (omega arith)
            (count_slot-Shows g d))
  ]

-- With a profile selected, the sampled parameters show that slot's number, policy, catalogue number
-- and name.
pub sample_slots-selected :
    (c : Config) (n : Node) (s : ℕ) (old_name : List ℕ)
    → IsConsistent c n
    → n.selected ≡ some s
    → Shows s (slot s n) (sample_slots c n old_name)
unfolding sample_slots
sample_slots-selected c n s old_name inv sel = rw sel (
    scan-Shows n s c.profiles 0 (cleared_slots old_name) (omega arith)
      (ground (arith, inv.chosen_defined s sel, inv.sized)) (inv.chosen_defined s sel))

-- The slots from `index` on that hold an enabled profile.
abbrev pub enabled_from : Node → ℕ → ℕ → ℕ
enabled_from n zero index = 0
enabled_from n (suc left) index =
    let rest = enabled_from n left (index + 1) in
    if slot_defined index n && (slot index n).enabled then suc rest else rest

-- The variables that hold the reserved values while nothing is selected.
pub record ShowsNone (g : Slots) : Type 0 where
  pub profile : g.profile ≡ gp_none
  pub policy : g.policy ≡ gp_none
  pub catalogue : g.catalogue ≡ 0

module _ (n : Node) (sel : Option ℕ) where
  count_slot-profiles :
      (index : ℕ) (g : Slots)
      → g.profiles < 255
      → (count_slot sel index (get index true n) g).profiles
        ≡ (if slot_defined index n then suc g.profiles else g.profiles)
  unfolding count_slot get
  count_slot-profiles index g h = ground arith

  count_slot-profiles_on :
      (index : ℕ) (g : Slots)
      → g.profiles_on < 255
      → (count_slot sel index (get index true n) g).profiles_on ≡ (
          if slot_defined index n && (slot index n).enabled
          then suc g.profiles_on
          else g.profiles_on)
  unfolding count_slot get
  count_slot-profiles_on index g h = ground arith

  scan-profiles :
      (left index : ℕ) (g : Slots)
      → g.profiles + left ≤ 255
      → (scan sel n left index g).profiles ≡ g.profiles + defined_from n left index
  unfolding scan
  scan-profiles zero index g h = omega arith
  scan-profiles (suc left) index g h = ground (
    arith,
    count_slot-profiles index g,
    scan-profiles left (index + 1) (count_slot sel index (get index true n) g),
  )

  scan-profiles_on :
      (left index : ℕ) (g : Slots)
      → g.profiles_on + left ≤ 255
      → (scan sel n left index g).profiles_on ≡ g.profiles_on + enabled_from n left index
  unfolding scan
  scan-profiles_on zero index g h = omega arith
  scan-profiles_on (suc left) index g h = ground (
    arith,
    count_slot-profiles_on index g,
    scan-profiles_on left (index + 1) (count_slot sel index (get index true n) g),
  )

scan-ShowsNone :
    (n : Node) (left index : ℕ) (g : Slots) → ShowsNone g → ShowsNone (scan none n left index g)
unfolding scan
scan-ShowsNone n zero index g h = h
scan-ShowsNone n (suc left) index g h =
    scan-ShowsNone n left (index + 1) (count_slot none index (get index true n) g)
      (unfold count_slot get in ground arith)

-- With nothing selected, the sampled parameters hold the reserved values.
pub sample_slots-unselected :
    (c : Config) (n : Node) (old_name : List ℕ)
    → n.selected ≡ none
    → ShowsNone (sample_slots c n old_name)
unfolding sample_slots
sample_slots-unselected c n old_name sel = rw sel (
    scan-ShowsNone n c.profiles 0 (cleared_slots old_name)
      (record { profile = refl; policy = refl; catalogue = refl }))

-- For at most 255 slots (the build allows 8) the sampled counts are exact: the slots that hold a
-- profile, and those among them whose profile is enabled.
pub sample_slots-counts :
    (c : Config) (n : Node) (old_name : List ℕ)
    → c.profiles ≤ 255
    → ((sample_slots c n old_name).profiles ≡ defined_from n c.profiles 0)
      × ((sample_slots c n old_name).profiles_on ≡ enabled_from n c.profiles 0)
unfolding sample_slots
sample_slots-counts c n old_name h = (
  scan-profiles n n.selected c.profiles 0 (cleared_slots old_name) (omega arith) ∙ omega arith,
  scan-profiles_on n n.selected c.profiles 0 (cleared_slots old_name) (omega arith) ∙ omega arith,
)
