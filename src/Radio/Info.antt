-- ===== src/Radio/Info.antt =====
-- The radio's identity and its parameter table: kfsw_radio_uhf_get_info of radio-uhf/src/radio_uhf.c,
-- radio-uhf/holybro/src and radio-uhf/parameters/radio_uhf_table.c.
use Prim.Native.String.{String}
use kfsw_modules.Prelude.{
  ℕ, zero, suc, ◌-◌, Bool, true, false, Option, none, some, List, [], ◌∷◌, ◌++◌, if◌then◌else◌, ltb,
  ◌≡◌, arith, take, length, ◌==◌,
}
use kfsw_modules.Errno.{Ret, ok, err, einval}
use kfsw_modules.Params.{
  Definition, DefinitionSet, ParamType, Flag, Callback, read_only, system_info, configuration,
  local_only, validate, changed, sample, u8, u32, i32, string,
}

-- struct kfsw_radio_uhf_implementation; a text is its bytes without the terminator.
pub record Implementation : Type 0 where
  pub name : List ℕ
  pub expected_hardware : List ℕ
  pub expected_serial_baud : ℕ
  pub expected_hardware_flow_control : Bool

-- KFSW_RADIO_UHF_LINK_UNKNOWN, the one state that the module sets
pub data LinkState : Type 0 where
  link_unknown : LinkState

-- struct kfsw_radio_uhf_info
pub record Info : Type 0 where
  pub implementation : List ℕ
  pub expected_hardware : List ℕ
  pub expected_serial_baud : ℕ
  pub expected_hardware_flow_control : Bool
  pub hardware_status_available : Bool
  pub link_state : LinkState

-- kfsw_radio_uhf_get_info; `false` is a NULL destination.
unfoldable pub get_info : Implementation → Bool → Ret × Option Info
get_info i false = (err einval, none)
get_info i true = (
  ok,
  some (record {
    implementation = i.name;
    expected_hardware = i.expected_hardware;
    expected_serial_baud = i.expected_serial_baud;
    expected_hardware_flow_control = i.expected_hardware_flow_control;
    hardware_status_available = false;
    link_state = link_unknown;
  }),
)

-- KFSW_RADIO_UHF_NAME_SIZE
abbrev pub name_size : ℕ
name_size = 24

-- The loop of copy_name() on the rest of the destination, with the bytes that are left in it.
unfoldable pub copy_rest : ℕ → List ℕ → List ℕ → List ℕ
copy_rest room source [] = []
copy_rest room [] (d ∷ rest) = 0 ∷ rest
copy_rest room (c ∷ source) (d ∷ rest) =
    let copied = copy_rest (room - 1) source rest in if ltb 1 room then c ∷ copied else 0 ∷ rest

abbrev source_bytes : Option (List ℕ) → List ℕ
source_bytes none = []
source_bytes (some bytes) = bytes

-- copy_name; `none` is a NULL source.
unfoldable pub copy_name : List ℕ → Option (List ℕ) → List ℕ
unfolding copy_rest
copy_name destination source = copy_rest name_size (source_bytes source) destination

-- The text in front of the first zero byte.
abbrev pub text_of : List ℕ → List ℕ
text_of [] = []
text_of (c ∷ rest) = if c == 0 then [] else c ∷ text_of rest

-- The bytes of a text, none of which ends it.
abbrev pub is_text : List ℕ → Bool
is_text [] = true
is_text (c ∷ rest) = if c == 0 then false else is_text rest

copy_rest-fits :
    (room : ℕ) (source destination : List ℕ)
    → length destination ≡ suc room
    → is_text source ≡ true
    → (length (copy_rest (suc room) source destination) ≡ suc room)
      × (text_of (copy_rest (suc room) source destination) ≡ take room source)
unfolding copy_rest
copy_rest-fits room source [] h t = absurd (omega arith)
copy_rest-fits zero [] (d ∷ rest) h t = ground arith
copy_rest-fits (suc room) [] (d ∷ rest) h t = ground arith
copy_rest-fits zero (c ∷ source) (d ∷ rest) h t = ground arith
copy_rest-fits (suc room) (c ∷ source) (d ∷ rest) h t =
    ground (arith, copy_rest-fits room source rest)

-- A copied name stays inside its 24 bytes, ends in a zero byte there, and reads back as the name or,
-- if that is longer, as its first 23 bytes.
pub copy_name-fits :
    (destination source : List ℕ)
    → length destination ≡ 24
    → is_text source ≡ true
    → (length (copy_name destination (some source)) ≡ 24)
      × (text_of (copy_name destination (some source)) ≡ take 23 source)
unfolding copy_name
copy_name-fits destination source h t = copy_rest-fits 23 source destination h t

abbrev entry : ℕ → ParamType → List Flag → List Callback → String → Definition
entry offset type flags callbacks name = record {
  offset = offset;
  type = type;
  flags = flags;
  name = name;
  callbacks = callbacks;
}

abbrev watch : List Callback
watch = sample ∷ []

abbrev pub identity : List Definition
identity =
    entry 0x00 (string name_size) (read_only ∷ system_info ∷ []) watch "uhf_implementation"
    ∷ entry 0x20 (string name_size) (read_only ∷ system_info ∷ []) watch "uhf_expected_hardware"
    ∷ entry 0x40 u32 (read_only ∷ []) watch "uhf_expected_baud"
    ∷ entry 0x44 u8 (read_only ∷ []) watch "uhf_expected_flow"
    ∷ entry 0x45 u8 (read_only ∷ []) watch "uhf_status_available"
    ∷ entry 0x46 u8 (read_only ∷ []) watch "uhf_link_state"
    ∷ []

abbrev local : List Flag
local = configuration ∷ local_only ∷ []

abbrev switch : List Callback
switch = validate ∷ changed ∷ sample ∷ []

-- The entries of a build with CONFIG_KFSW_RADIO_UHF_CRYPTO.
abbrev pub protection : List Definition
protection =
    entry 0x50 (string 65) local (validate ∷ changed ∷ []) "uhf_key_hex"
    ∷ entry 0x98 u8 local switch "uhf_encrypt_enable"
    ∷ entry 0x99 u8 local switch "uhf_encrypt_tx"
    ∷ entry 0x9a u8 local switch "uhf_encrypt_rx"
    ∷ entry 0x9b u8 (read_only ∷ []) watch "uhf_key_set"
    ∷ entry 0x9c u8 (read_only ∷ []) watch "uhf_tx_ready"
    ∷ entry 0x9d u8 (read_only ∷ []) watch "uhf_rx_ready"
    ∷ entry 0xa0 u32 (read_only ∷ []) watch "uhf_authenticated"
    ∷ entry 0xa4 u32 (read_only ∷ []) watch "uhf_rejected"
    ∷ entry 0xa8 u32 (read_only ∷ []) watch "uhf_replays"
    ∷ entry 0xac i32 (read_only ∷ []) watch "uhf_crypto_error"
    ∷ []

-- kfsw_radio_uhf_param_definitions, on whether the build has the link's protection
abbrev pub definition_set : Bool → DefinitionSet
definition_set crypto = record {
  table = 50;
  name = "radio_uhf";
  definitions = if crypto then identity ++ protection else identity;
}
