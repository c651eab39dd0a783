-- ===== src/Params.antt =====
-- The shape of the parameter tables that the modules define for the parameter service: what the
-- tables in */parameters/*.c and boton-test/src/boton_test.c write down, by the source's names.
pub mod Layout
use Prim.Native.String.{String}
use kfsw_modules.Prelude.{ℕ, ◌+◌, Bool, Option, none, some, List}

-- KFSW_PARAM_*: the type of the variable that `value` points at. A string has its capacity.
pub data ParamType : Type 0 where
  u8 u32 i32 u64 : ParamType
  string : ℕ → ParamType

-- Bytes of that variable.
abbrev pub width : ParamType → ℕ
width ParamType.u8 = 1
width ParamType.u32 = 4
width ParamType.i32 = 4
width ParamType.u64 = 8
width (ParamType.string capacity) = capacity

-- KFSW_PARAM_FLAG_READ_ONLY, _LIVE, _CONFIGURATION, _SYSTEM_INFO, _LOCAL_ONLY and _DEBUG.
pub data Flag : Type 0 where
  read_only live configuration system_info local_only debug : Flag

-- Which callbacks an entry sets: `validate` for `.validate` and `.validate_text`, `changed` for
-- `.changed`, `.changed_text` and `.apply`, `sample` for `.sample`.
pub data Callback : Type 0 where
  validate changed sample : Callback

-- struct kfsw_param_definition, without units and descriptions.
pub record Definition : Type 0 where
  pub offset : ℕ
  pub type : ParamType
  pub flags : List Flag
  pub name : String
  pub callbacks : List Callback

-- struct kfsw_param_definition_set
pub record DefinitionSet : Type 0 where
  pub table : ℕ
  pub name : String
  pub definitions : List Definition

abbrev pub end_offset : Definition → ℕ
end_offset d = d.offset + width d.type
