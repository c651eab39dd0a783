-- ===== src/Gpredict/Table.antt =====
-- The parameter table of pass tracking: gpredict/parameters/gpredict_table.c.
pub mod Sampling
pub mod Samplers
pub mod Writes
use Prim.Native.String.{String}
use kfsw_modules.Prelude.{
  ℕ, zero, suc, ◌+◌, ◌%◌, Bool, true, false, Option, none, some, List, [], ◌∷◌, ◌==◌, if◌then◌else◌,
  u8_max,
}
use kfsw_modules.Prelude.Int.{ℤ}
use kfsw_modules.Errno.{Ret, ok, err}
use kfsw_modules.Params.{
  Definition, DefinitionSet, Flag, read_only, live, configuration, Callback, validate, changed,
  sample, ParamType, u8, u32, i32, u64, string,
}
use kfsw_modules.Gpredict.Config.{Config}
use kfsw_modules.Gpredict.Tracker
use kfsw_modules.Gpredict.Tracker.{Tracker, Status}
use kfsw_modules.Gpredict.Profiles.{Profile, Node, get, is_selected, profile_selected, name_max}

-- The variables that sample_slots() fills.
pub record Slots : Type 0 where
  pub profile : ℕ
  pub policy : ℕ
  pub profiles : ℕ
  pub profiles_on : ℕ
  pub catalogue : ℕ
  pub profile_name : List ℕ

-- GP_NONE
abbrev pub gp_none : ℕ
gp_none = u8_max

-- What one round of the loop does with the profile that it read from the slot.
unfoldable pub count_slot : Option ℕ → ℕ → Ret × Option Profile → Slots → Slots
count_slot selected index (ok, some p) g =
    let g' = record g {
      profiles = (g.profiles + 1) % 256;
      profiles_on = if p.enabled then (g.profiles_on + 1) % 256 else g.profiles_on;
    } in
    if is_selected selected index
    then record g' {
      profile = index;
      policy = p.policy;
      catalogue = p.catalogue;
      profile_name = p.name;
    }
    else g'
count_slot selected index _ g = g

-- The loop, with the rounds that are left and the slot that comes next.
unfoldable pub scan : Option ℕ → Node → ℕ → ℕ → Slots → Slots
scan selected n zero index g = g
scan selected n (suc left) index g =
    scan selected n left (index + 1) (count_slot selected index (get index true n) g)

-- `gp_profile_name[0] = '\0'`
abbrev clear_first : List ℕ → List ℕ
clear_first [] = []
clear_first (x ∷ xs) = 0 ∷ xs

-- The variables before the loop.
abbrev pub cleared_slots : List ℕ → Slots
cleared_slots old_name = record {
  profile = gp_none;
  policy = gp_none;
  profiles = 0;
  profiles_on = 0;
  catalogue = 0;
  profile_name = clear_first old_name;
}

-- sample_slots(), on the name that the last sample left: only its first byte is cleared.
unfoldable pub sample_slots : Config → Node → List ℕ → Slots
unfolding scan count_slot get
sample_slots c n old_name = scan (profile_selected n) n c.profiles 0 (cleared_slots old_name)

abbrev copied : Status → Option Status → Status
copied old (some s) = s
copied old none = old

-- sample_tracker(): the variables are the fields of the status that it reads.
unfoldable pub sample_tracker : ℕ → Tracker → Status → Tracker × Status
sample_tracker now t old =
    let (t', result, status) = Tracker.get_status now true t in (t', copied old status)

abbrev watch : List Flag
watch = read_only ∷ live ∷ []

abbrev reading : List Flag
reading = read_only ∷ []

abbrev sampled : List Callback
sampled = sample ∷ []

abbrev entry : ℕ → ParamType → List Flag → String → Definition
entry offset type flags name = record {
  offset = offset;
  type = type;
  flags = flags;
  name = name;
  callbacks = sampled;
}

-- kfsw_gpredict_param_definitions
abbrev pub definition_set : DefinitionSet
definition_set = record {
  table = 52;
  name = "gpredict";
  definitions =
      entry 0x00 u8 watch "gp_state"
      ∷ entry 0x04 i32 watch "gp_az_mdeg"
      ∷ entry 0x08 i32 watch "gp_el_mdeg"
      ∷ entry 0x0c i32 watch "gp_actual_az_mdeg"
      ∷ entry 0x10 i32 watch "gp_actual_el_mdeg"
      ∷ entry 0x18 u64 watch "gp_frequency_hz"
      ∷ entry 0x20 u32 watch "gp_silence_ms"
      ∷ (record {
        offset = 0x24;
        type = u32;
        flags = configuration ∷ [];
        name = "gp_grace_ms";
        callbacks = validate ∷ changed ∷ sample ∷ [];
      })
      ∷ entry 0x28 u32 reading "gp_bearings"
      ∷ entry 0x2c u32 reading "gp_refusals"
      ∷ entry 0x30 u32 reading "gp_passes_ended"
      ∷ entry 0x34 u32 reading "gp_faults"
      ∷ entry 0x38 i32 reading "gp_last_error"
      ∷ entry 0x3c u8 watch "gp_profile"
      ∷ entry 0x3d u8 watch "gp_policy"
      ∷ entry 0x3e u8 reading "gp_profiles"
      ∷ entry 0x3f u8 reading "gp_profiles_on"
      ∷ entry 0x40 u32 watch "gp_catalogue"
      ∷ entry 0x44 (string name_max) watch "gp_profile_name"
      ∷ [];
}
