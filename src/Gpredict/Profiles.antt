-- ===== src/Gpredict/Profiles.antt =====
-- The spacecraft profiles of gpredict/src/gpredict_profiles.c. A function that runs under
-- `profile_lock` is one step on the slots, the selection and the tracker that it calls with the
-- lock held. The log lines of this file are left out; no variable depends on them.
pub mod Invariant
pub mod Rules
use kfsw_modules.Prelude.{
  ℕ, zero, suc, Bool, true, false, not, ◌&&◌, ◌||◌, Option, none, some, List, [], ◌∷◌, ltb, leb,
  ◌==◌, if◌then◌else◌, length, get_or, set, replicate,
}
use kfsw_modules.Prelude.Int.{ℤ, pos, leb_ℤ}
use kfsw_modules.Errno.{Ret, ok, err, einval, enoent, enospc, eperm, ebusy}
use kfsw_modules.Gpredict.Config.{
  Config, azimuth_min_mdeg, azimuth_max_mdeg, elevation_min_mdeg, elevation_max_mdeg,
}
use kfsw_modules.Gpredict.Tracker
use kfsw_modules.Gpredict.Tracker.{Bearing, Tracker, refuse}

-- enum kfsw_gpredict_frequency_policy
abbrev pub policy_follow : ℕ
policy_follow = 0

abbrev pub policy_hold : ℕ
policy_hold = 1

abbrev pub policy_ignore : ℕ
policy_ignore = 2

-- KFSW_GPREDICT_PROFILE_NAME_MAX
abbrev pub name_max : ℕ
name_max = 16

-- struct kfsw_gpredict_profile. `name` holds the bytes of the array.
pub record Profile : Type 0 where
  pub name : List ℕ
  pub catalogue : ℕ
  pub azimuth_min_mdeg : ℤ
  pub azimuth_max_mdeg : ℤ
  pub elevation_min_mdeg : ℤ
  pub elevation_max_mdeg : ℤ
  pub frequency_hz : ℕ
  pub policy : ℕ
  pub enabled : Bool

-- The static variables, with `selected` a slot or -ENOENT (`none`), and the tracker.
pub record Node : Type 0 where
  pub profiles : List Profile
  pub selected : Option ℕ
  pub tracker : Tracker

-- A slot of zero bytes.
abbrev pub empty_slot : Profile
empty_slot = record {
  name = replicate name_max 0;
  catalogue = 0;
  azimuth_min_mdeg = pos 0;
  azimuth_max_mdeg = pos 0;
  elevation_min_mdeg = pos 0;
  elevation_max_mdeg = pos 0;
  frequency_hz = 0;
  policy = 0;
  enabled = false;
}

-- The static initialisers, which gpredict_test_profiles_reset restores for the slots.
unfoldable pub boot : Config → Node
boot c = record {
  profiles = replicate c.profiles empty_slot;
  selected = none;
  tracker = Tracker.boot c;
}

-- gpredict_test_profiles_reset
unfoldable pub profiles_reset : Config → Node → Node
profiles_reset c n = record n { profiles = replicate c.profiles empty_slot; selected = none }

-- kfsw_gpredict_profile_selected
abbrev pub profile_selected : Node → Option ℕ
profile_selected n = n.selected

-- `profiles[index]`, read only where the index is in range.
unfoldable pub slot : ℕ → Node → Profile
slot index n = get_or n.profiles index empty_slot

-- `name[0] != '\0'`
abbrev is_named : List ℕ → Bool
is_named [] = false
is_named (x ∷ xs) = not (x == 0)

unfoldable pub slot_defined : ℕ → Node → Bool
unfolding slot
slot_defined index n = ltb index (length n.profiles) && is_named (slot index n).name

unfoldable pub travel_fits : Config → Profile → Bool
travel_fits c p =
    leb_ℤ p.azimuth_min_mdeg p.azimuth_max_mdeg
    && leb_ℤ p.elevation_min_mdeg p.elevation_max_mdeg
    && leb_ℤ (azimuth_min_mdeg c) p.azimuth_min_mdeg
    && leb_ℤ p.azimuth_max_mdeg (azimuth_max_mdeg c)
    && leb_ℤ (elevation_min_mdeg c) p.elevation_min_mdeg
    && leb_ℤ p.elevation_max_mdeg (elevation_max_mdeg c)

-- memchr(name, '\0', size) != NULL
unfoldable pub has_terminator : List ℕ → Bool
has_terminator [] = false
has_terminator (x ∷ xs) = x == 0 || has_terminator xs

unfoldable pub profile_valid : Config → Profile → Bool
unfolding travel_fits has_terminator
profile_valid c p =
    if not (has_terminator p.name) || not (is_named p.name)
    then false
    else if not (travel_fits c p)
    then false
    else if ltb policy_ignore p.policy
    then false
    else not (p.policy == policy_hold) || not (p.frequency_hz == 0)

unfoldable pub within_profile : Profile → Bearing → Bool
within_profile p b =
    leb_ℤ p.azimuth_min_mdeg b.azimuth_mdeg
    && leb_ℤ b.azimuth_mdeg p.azimuth_max_mdeg
    && leb_ℤ p.elevation_min_mdeg b.elevation_mdeg
    && leb_ℤ b.elevation_mdeg p.elevation_max_mdeg

-- `selected == (int)index`
abbrev pub is_selected : Option ℕ → ℕ → Bool
is_selected none index = false
is_selected (some s) index = s == index

unfoldable pub define : Config → ℕ → Option Profile → Node → Node × Ret
define c index none n = (n, err einval)
define c index (some p) n =
    if leb (length n.profiles) index
    then (n, err enospc)
    else if not (profile_valid c p)
    then (n, err einval)
    else (
      record n {
        profiles = set n.profiles index p;
        selected = if is_selected n.selected index && not p.enabled then none else n.selected;
      },
      ok,
    )

unfoldable pub select : ℕ → Node → Node × Ret
unfolding slot_defined
select index n =
    if not (slot_defined index n)
    then (n, err enoent)
    else if not (slot index n).enabled
    then (n, err eperm)
    else (record n { selected = some index }, ok)

unfoldable pub enable : ℕ → Bool → Node → Node × Ret
unfolding slot_defined
enable index enabled n =
    if not (slot_defined index n)
    then (n, err enoent)
    else if not enabled && is_selected n.selected index
    then (n, err ebusy)
    else (
      record n { profiles = set n.profiles index (record (slot index n) { enabled = enabled }) },
      ok,
    )

-- The profile is copied out; `false` is a NULL destination.
unfoldable pub get : ℕ → Bool → Node → Ret × Option Profile
unfolding slot_defined
get index false n = (err einval, none)
get index true n =
    if not (slot_defined index n) then (err enoent, none) else (ok, some (slot index n))

-- kfsw_gpredict_profile_bearing with its bearing and the lock: `selected < 0` is `none`.
judge : Config → ℕ → Bearing → Option ℕ → Node → Node × Ret
unfolding slot within_profile
judge c now b none n = (n, err enoent)
judge c now b (some s) n =
    if not (within_profile (slot s n) b)
    then (record n { tracker = refuse b einval n.tracker }, err einval)
    else let (t, result) = Tracker.bearing c now (some b) n.tracker in
      (record n { tracker = t }, result)

unfoldable pub bearing : Config → ℕ → Option Bearing → Node → Node × Ret
unfolding judge
bearing c now none n = (n, err einval)
bearing c now (some b) n = judge c now b n.selected n

-- What a profile's policy sends for an offer.
abbrev policy_send : Profile → ℕ → ℕ
policy_send p offered =
    if p.policy == policy_follow
    then offered
    else if p.policy == policy_hold
    then p.frequency_hz
    else 0

-- kfsw_gpredict_profile_frequency after its guards.
decide_frequency : ℕ → Option ℕ → Node → Ret × Option ℕ
unfolding slot
decide_frequency offered none n = (err enoent, some 0)
decide_frequency offered (some s) n = (ok, some (policy_send (slot s n) offered))

-- The result and what `*send` holds, `none` for a NULL destination (`false`).
unfoldable pub frequency : ℕ → Bool → Node → Ret × Option ℕ
unfolding decide_frequency
frequency offered false n = (err einval, none)
frequency offered true n =
    if offered == 0 then (err einval, some 0) else decide_frequency offered n.selected n
