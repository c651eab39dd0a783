-- ===== src/Boton/Table.antt =====
-- The parameter table of boton-test/src/boton_test.c, and the functions that a written LED entry
-- reaches.
use Prim.Native.String.{String}
use kfsw_modules.Prelude.{ℕ, not, Option, none, some, [], ◌∷◌, ltb, ◌==◌, if◌then◌else◌}
use kfsw_modules.Errno.{Ret, ok, err, erange}
use kfsw_modules.Params.{
  Definition, DefinitionSet, read_only, live, debug, validate, changed, u8, u32,
}
use kfsw_modules.Boton.{Led, led_value, Gpio, Config, State, set_led}

-- validate_led; `none` is a NULL value.
unfoldable pub validate_led : Option ℕ → Ret
validate_led none = err erange
validate_led (some value) = if ltb 1 value then err erange else ok

module _ {D : Type 0} (c : Config) (g : Gpio D) where
  -- apply_green_led, apply_blue_led and apply_red_led
  unfoldable pub apply_led : Led → ℕ → State → D → (State × D) × Ret
  apply_led led value s d = set_led c g (led_value led) (not (value == 0)) s d

abbrev entry_count : String → ℕ → Definition
entry_count name offset = record {
  offset = offset;
  type = u32;
  flags = read_only ∷ debug ∷ [];
  name = name;
  callbacks = [];
}

abbrev entry_led : String → ℕ → Definition
entry_led name offset = record {
  offset = offset;
  type = u8;
  flags = debug ∷ live ∷ [];
  name = name;
  callbacks = validate ∷ changed ∷ [];
}

-- kfsw_boton_test_param_definitions
abbrev pub definition_set : DefinitionSet
definition_set = record {
  table = 67;
  name = "hw_test";
  definitions =
      entry_count "press_count" 0
      ∷ entry_count "last_press_s" 4
      ∷ entry_led "led_green" 8
      ∷ entry_led "led_blue" 9
      ∷ entry_led "led_red" 10
      ∷ [];
}
