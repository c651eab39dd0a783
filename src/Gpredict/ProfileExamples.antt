-- ===== src/Gpredict/ProfileExamples.antt =====
-- The profiles, the commands and the sampled parameters at concrete inputs.
use kfsw_modules.Prelude.{◌≡◌, ◌≢◌, refl, ◌↔◌, true, false, some, List, [], ◌∷◌, replicate}
use kfsw_modules.Prelude.Int.{pos}
use kfsw_modules.Errno.{ok}
use kfsw_modules.Gpredict.Config.{Config}
use kfsw_modules.Gpredict.Machine.{State}
use kfsw_modules.Gpredict.Tracker.{Bearing}
use kfsw_modules.Gpredict.Profiles
use kfsw_modules.Gpredict.Profiles.{
  Profile, Node, slot, slot_defined, profile_valid, within_profile, define, select, enable, get,
  frequency, is_selected, policy_follow, policy_hold, policy_ignore,
}
use kfsw_modules.Gpredict.Profiles.Invariant
use kfsw_modules.Gpredict.Profiles.Invariant.{
  IsConsistent, run, run-IsConsistent, defines, selects, judges, Call,
}
use kfsw_modules.Gpredict.Profiles.Rules.{InProfile, judged_ok_iff}

abbrev pub station : Config
station = record {
  grace_ms = 5000;
  park_azimuth_deg = 0;
  park_elevation_deg = 0;
  azimuth_min_deg = 0;
  azimuth_max_deg = 360;
  elevation_min_deg = 0;
  elevation_max_deg = 90;
  profiles = 3;
}

-- "SAT", which may look at the southern sky only and is heard on one frequency.
abbrev pub southern : Profile
southern = record {
  name = 83 ∷ 65 ∷ 84 ∷ replicate 13 0;
  catalogue = 25544;
  azimuth_min_mdeg = pos 90000;
  azimuth_max_mdeg = pos 270000;
  elevation_min_mdeg = pos 5000;
  elevation_max_mdeg = pos 90000;
  frequency_hz = 145800000;
  policy = policy_hold;
  enabled = true;
}

abbrev pub south : Bearing
south = record { azimuth_mdeg = pos 180000; elevation_mdeg = pos 30000 }

abbrev north : Bearing
north = record { azimuth_mdeg = pos 10000; elevation_mdeg = pos 30000 }

abbrev calls : List Call
calls = defines 1 (some southern) ∷ selects 1 ∷ []

abbrev pub node : Node
node = run station calls (Profiles.boot station)

node-IsConsistent : IsConsistent station node
node-IsConsistent = run-IsConsistent station calls

node-selected : node.selected ≡ some 1
unfolding run Invariant.step Profiles.boot profile_valid
node-selected = refl

node-slot : slot 1 node ≡ southern
unfolding run Invariant.step Profiles.boot profile_valid slot
node-slot = refl

judged_ok_iff_example :
    ((Profiles.bearing station 1000 (some south) node).1 ≡ ok)
    ↔ (InProfile (slot 1 node) south × (node.tracker.status.state ≢ State.fault))
judged_ok_iff_example = judged_ok_iff station 1000 south node 1 node-IsConsistent node-selected

north_outside : within_profile (slot 1 node) north ≡ false
unfolding within_profile
north_outside = rw node-slot refl
