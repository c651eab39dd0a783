-- ===== src/Gpredict/Profiles/Rules.antt =====
-- What a selected profile decides (gpredict/src/gpredict_profiles.c): which bearings reach the
-- tracker and which frequency is sent to the radio.
use kfsw_modules.Prelude.{
  ℕ, ◌≡◌, ◌≢◌, refl, ◌↔◌, true, false, none, some, arith, saturating_inc, sym, ◌∙◌, Bool-cases, ◌⊎◌,
  if◌then◌else◌, ◌==◌, ◌&&◌, not, length-set, get_or-set, inl, inr,
}
use kfsw_modules.Prelude.Int.{◌≤ℤ◌}
use kfsw_modules.Errno.{ok, err, einval, eperm, ebusy}
use kfsw_modules.Gpredict.Config.{Config}
use kfsw_modules.Gpredict.Machine.{State}
use kfsw_modules.Gpredict.Tracker
use kfsw_modules.Gpredict.Tracker.{Bearing, Tracker, within_travel, refuse}
use kfsw_modules.Gpredict.Tracker.Refusals.{InTravel, bearing-ok_iff}
use kfsw_modules.Gpredict.Profiles.{
  Profile, Node, slot, slot_defined, profile_valid, within_profile, define, select, enable, get,
  bearing, frequency, policy_follow, policy_hold, policy_ignore, judge, is_selected, empty_slot,
}
use kfsw_modules.Gpredict.Profiles.Invariant.{IsConsistent}

-- The travel that a profile allows, with its bounds included.
pub record InProfile (p : Profile) (b : Bearing) : Type 0 where
  pub azimuth_low : p.azimuth_min_mdeg ≤ℤ b.azimuth_mdeg
  pub azimuth_high : b.azimuth_mdeg ≤ℤ p.azimuth_max_mdeg
  pub elevation_low : p.elevation_min_mdeg ≤ℤ b.elevation_mdeg
  pub elevation_high : b.elevation_mdeg ≤ℤ p.elevation_max_mdeg

within_profile_iff : (p : Profile) (b : Bearing) → (within_profile p b ≡ true) ↔ InProfile p b
unfolding within_profile
within_profile_iff p b = (λ h. ground arith, λ h. ground arith)

-- A profile narrows the travel of the rotator and never widens it: a bearing in a valid profile's
-- travel is in the rotator's.
pub profile_narrows :
    (c : Config) (p : Profile) (b : Bearing)
    → profile_valid c p ≡ true
    → InProfile p b
    → InTravel c b
unfolding profile_valid
profile_narrows c p b v h = ground arith

module _ (c : Config) (now : ℕ) (b : Bearing) (n : Node) (s : ℕ) (sel : n.selected ≡ some s) where
  bearing_inside :
      within_profile (slot s n) b ≡ true
      → (bearing c now (some b) n).1 ≡ (Tracker.bearing c now (some b) n.tracker).1
  unfolding bearing
  bearing_inside h = rw (sel, judge) (rw (h, judge))

  bearing_outside :
      within_profile (slot s n) b ≡ false
      → bearing c now (some b) n ≡ (record n { tracker = refuse b einval n.tracker }, err einval)
  unfolding bearing
  bearing_outside h = rw (sel, judge) (rw (h, judge))

-- With a profile selected, the proxy's bearing is taken exactly when it lies in that profile's
-- travel and the tracker is not in fault.
pub judged_ok_iff :
    (c : Config) (now : ℕ) (b : Bearing) (n : Node) (s : ℕ)
    → IsConsistent c n
    → n.selected ≡ some s
    → ((bearing c now (some b) n).1 ≡ ok)
      ↔ (InProfile (slot s n) b × (n.tracker.status.state ≢ State.fault))
judged_ok_iff c now b n s inv sel = (
  λ h. elim (Bool-cases (within_profile (slot s n) b)) [
    | inl inside ↦ (
      (within_profile_iff (slot s n) b).0 inside,
      ((bearing-ok_iff c now b n.tracker).0 (sym (bearing_inside c now b n s sel inside) ∙ h)).0,
    )
    | inr outside ↦ absurd (cc (bearing_outside c now b n s sel outside))
  ],
  λ h.
      let inside = (within_profile_iff (slot s n) b).1 h.0 in
      bearing_inside c now b n s sel inside
      ∙ (bearing-ok_iff c now b n.tracker).1
          (h.1, profile_narrows c (slot s n) b (inv.valid s (inv.chosen_defined s sel)) h.0),
)

-- A bearing that the selected profile refuses counts as one refusal of the tracker's with -EINVAL,
-- and changes no state, no slot and no selection.
pub judged_outside :
    (c : Config) (now : ℕ) (b : Bearing) (n : Node) (s : ℕ)
    → n.selected ≡ some s
    → within_profile (slot s n) b ≡ false
    → let (n', result) = bearing c now (some b) n in
      (result ≡ err einval)
      × (n'.tracker.status ≡ record n.tracker.status {
        refusals = saturating_inc n.tracker.status.refusals;
        last_error = err einval;
      })
      × (n'.tracker.silence_work ≡ n.tracker.silence_work)
      × (n'.profiles ≡ n.profiles)
      × (n'.selected ≡ n.selected)
unfolding refuse
judged_outside c now b n s sel out =
    rw (bearing_outside c now b n s sel out) (refl, refl, refl, refl, refl)

-- What is sent to the radio is decided by the selected profile's policy: the offer under FOLLOW, the
-- profile's own frequency, which is not zero, under HOLD, and nothing under IGNORE.
pub frequency_by_policy :
    (c : Config) (offered : ℕ) (n : Node) (s : ℕ)
    → IsConsistent c n
    → n.selected ≡ some s
    → offered ≢ 0
    → ((frequency offered true n).0 ≡ ok)
      × (((slot s n).policy ≡ policy_follow) × ((frequency offered true n).1 ≡ some offered)
          ⊎ (((slot s n).policy ≡ policy_hold)
              × ((frequency offered true n).1 ≡ some (slot s n).frequency_hz)
              × ((slot s n).frequency_hz ≢ 0))
          ⊎ (((slot s n).policy ≡ policy_ignore) × ((frequency offered true n).1 ≡ some 0)))
unfolding frequency profile_valid
frequency_by_policy c offered n s inv sel pos =
    ground (arith, inv.valid s (inv.chosen_defined s sel))

-- Without a decision nothing is forwarded: for a zero offer or with no profile selected, the result
-- is an error and the destination holds zero, and a NULL destination is an error.
pub frequency_undecided :
    (offered : ℕ) (n : Node)
    → (offered ≡ 0) ⊎ (n.selected ≡ none)
    → ((frequency offered true n).0 ≢ ok)
      × ((frequency offered true n).1 ≡ some 0)
      × (frequency offered false n ≡ (err einval, none))
unfolding frequency
frequency_undecided offered n h = ground arith

-- A profile that was defined is read back as it was given, no other slot has changed, and if it is
-- the selected one but disabled then nothing is selected any more.
pub get-define :
    (c : Config) (i j : ℕ) (p : Profile) (n : Node)
    → (define c i (some p) n).1 ≡ ok
    → let n' = (define c i (some p) n).0 in
      (get i true n' ≡ (ok, some p))
      × (get j true n' ≡ (if i == j then (ok, some p) else get j true n))
      × (n'.selected ≡ (if is_selected n.selected i && not p.enabled then none else n.selected))
      × (n'.tracker ≡ n.tracker)
unfolding define get profile_valid
get-define c i j p n h = (
  ground (arith, length-set n.profiles i p, get_or-set n.profiles i i p empty_slot),
  ground (arith, length-set n.profiles i p, get_or-set n.profiles i j p empty_slot),
  ground arith,
  ground arith,
)

-- A disabled profile cannot be selected and the selected profile cannot be disabled: the first is
-- refused with -EPERM, the second with -EBUSY, and neither changes anything.
pub selected_stays_enabled :
    (i : ℕ) (n : Node)
    → slot_defined i n ≡ true
    → let chosen = record n { selected = some i } in
      (enable i false chosen ≡ (chosen, err ebusy))
      × (select i n ≡ (if (slot i n).enabled then (chosen, ok) else (n, err eperm)))
unfolding enable select
selected_stays_enabled i n h = ground arith
