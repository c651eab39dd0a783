-- ===== src/Radio/Sampling.antt =====
-- The variables of radio-uhf/parameters/radio_uhf_table.c and the functions that fill an entry's
-- value when the parameter service reads it, with the one that a written key reaches.
pub mod Values
pub mod Switches
use kfsw_modules.Prelude.{
  ℕ, ◌*◌, ◌%◌, ◌^◌, Bool, true, false, Option, none, some, List, [], ◌∷◌, ◌==◌, if◌then◌else◌,
  replicate,
}
use kfsw_modules.Errno.{Ret, ok}
use kfsw_modules.Params.{ParamType, u8, u32, i32, width}
use kfsw_modules.Radio.Platform.{Platform}
use kfsw_modules.Radio.Store.{FileSystem}
use kfsw_modules.Radio.Link.{Link, Env}
use kfsw_modules.Radio.Control.{get, set_key}
use kfsw_modules.Radio.Control
use kfsw_modules.Radio.Info.{
  Implementation, Info, LinkState, link_unknown, get_info, copy_name, text_of,
}

-- The static variables that the functions write. A text has its terminator and what stands behind
-- it.
pub record Variables : Type 0 where
  pub implementation : List ℕ
  pub expected_hardware : List ℕ
  pub expected_baud : ℕ
  pub expected_flow_control : ℕ
  pub status_available : ℕ
  pub link_state : ℕ
  pub key_hex : List ℕ
  pub crypto_info : Option Control.Info

-- What a sample function leaves behind `value`: a number or a result code in a variable of a C type,
-- or the bytes of a text.
pub data Value : Type 0 where
  number : ParamType → ℕ → Value
  code : ParamType → Ret → Value
  text : List ℕ → Value

-- `*(type *)value = (type)field` of RADIO_SAMPLE and CRYPTO_SAMPLE, for an unsigned type.
abbrev written : ParamType → ℕ → Value
written type field = number type (field % 2 ^ (8 * width type))

abbrev pub bit : Bool → ℕ
bit true = 1
bit false = 0

abbrev link_value : LinkState → ℕ
link_value link_unknown = 0

fill_info : Ret × Option Info → Variables → Variables
fill_info (ok, some info) v = record v {
  implementation = copy_name v.implementation (some info.implementation);
  expected_hardware = copy_name v.expected_hardware (some info.expected_hardware);
  expected_baud = info.expected_serial_baud;
  expected_flow_control = bit info.expected_hardware_flow_control;
  status_available = bit info.hardware_status_available;
  link_state = link_value info.link_state;
}
fill_info _ v = v

unfoldable pub sample_info : Implementation → Variables → Variables
unfolding fill_info
sample_info i v = fill_info (get_info i true) v

-- The functions that the table names, the expansions of RADIO_SAMPLE and CRYPTO_SAMPLE among them.
pub data Sampler : Type 0 where
  implementation expected_hardware : Sampler
  expected_baud expected_flow_control status_available link_state : Sampler
  crypto_enable crypto_tx crypto_rx crypto_key_set crypto_tx_ready crypto_rx_ready : Sampler
  crypto_authenticated crypto_rejected crypto_replays crypto_error : Sampler

-- CRYPTO_SAMPLE: the field of `crypto_info`, in the type that the macro is given.
crypto_field : Sampler → Control.Info → Value
crypto_field Sampler.crypto_enable c = written u8 (bit c.enabled)
crypto_field Sampler.crypto_tx c = written u8 (bit c.encrypt_tx)
crypto_field Sampler.crypto_rx c = written u8 (bit c.encrypt_rx)
crypto_field Sampler.crypto_key_set c = written u8 (bit c.key_set)
crypto_field Sampler.crypto_tx_ready c = written u8 (bit c.tx_ready)
crypto_field Sampler.crypto_rx_ready c = written u8 (bit c.rx_ready)
crypto_field Sampler.crypto_authenticated c = written u32 c.authenticated
crypto_field Sampler.crypto_rejected c = written u32 c.rejected
crypto_field Sampler.crypto_replays c = written u32 c.replays
crypto_field _ c = code i32 c.last_error

crypto_sampled : Sampler → Option Control.Info → Variables → Variables × Value
unfolding crypto_field
crypto_sampled f none v = (v, number u8 0)
crypto_sampled f (some c) v = (record v { crypto_info = some c }, crypto_field f c)

-- A function of the table on the identity, the link and the bytes behind `value`.
unfoldable pub sampled : Implementation → Link → Sampler → List ℕ → Variables → Variables × Value
unfolding sample_info crypto_sampled
sampled i l Sampler.implementation value v =
    let v' = sample_info i v in (v', text (copy_name value (some (text_of v'.implementation))))
sampled i l Sampler.expected_hardware value v =
    let v' = sample_info i v in (v', text (copy_name value (some (text_of v'.expected_hardware))))
sampled i l Sampler.expected_baud value v =
    let v' = sample_info i v in (v', written u32 v'.expected_baud)
sampled i l Sampler.expected_flow_control value v =
    let v' = sample_info i v in (v', written u8 v'.expected_flow_control)
sampled i l Sampler.status_available value v =
    let v' = sample_info i v in (v', written u8 v'.status_available)
sampled i l Sampler.link_state value v = let v' = sample_info i v in (v', written u8 v'.link_state)
sampled i l f value v = crypto_sampled f (get true l) v

-- `.sample` of the entries, by their offsets.
abbrev pub samplers : List (ℕ × Sampler)
samplers =
    (0x00, Sampler.implementation)
    ∷ (0x20, Sampler.expected_hardware)
    ∷ (0x40, Sampler.expected_baud)
    ∷ (0x44, Sampler.expected_flow_control)
    ∷ (0x45, Sampler.status_available)
    ∷ (0x46, Sampler.link_state)
    ∷ (0x98, Sampler.crypto_enable)
    ∷ (0x99, Sampler.crypto_tx)
    ∷ (0x9a, Sampler.crypto_rx)
    ∷ (0x9b, Sampler.crypto_key_set)
    ∷ (0x9c, Sampler.crypto_tx_ready)
    ∷ (0x9d, Sampler.crypto_rx_ready)
    ∷ (0xa0, Sampler.crypto_authenticated)
    ∷ (0xa4, Sampler.crypto_rejected)
    ∷ (0xa8, Sampler.crypto_replays)
    ∷ (0xac, Sampler.crypto_error)
    ∷ []

abbrev pub sampler_in : ℕ → List (ℕ × Sampler) → Option Sampler
sampler_in offset [] = none
sampler_in offset ((at, f) ∷ rest) = if offset == at then some f else sampler_in offset rest

-- key_changed(), which a written `uhf_key_hex` calls
unfoldable pub key_changed :
    {D : Type 0}
    → Platform
    → FileSystem D
    → Env
    → List ℕ
    → Variables
    → Link
    → D
    → Variables × D × Link
unfolding set_key
key_changed p fs env written v l d =
    let (d', l') = set_key p fs env written l d in (record v { key_hex = replicate 65 0 }, d', l')
