-- ===== src/Boton.antt =====
-- The button and LED example: boton-test/src/boton_test.c and boton_test_gpio.c. A function that runs
-- under `kfsw_boton_test_lock` is one step on the record of the static variables and on the
-- devices `D`. Log lines are left out.
pub mod Driver
pub mod Table
pub mod Presses
pub mod Debounce
pub mod Pins
pub mod Leds
pub mod Start
pub mod Shell
mod Examples
use Prim.Native.String.{String}
unfoldable pub use Driver.*
use kfsw_modules.Prelude.{
  ℕ, zero, suc, ◌+◌, ◌/◌, Bool, true, false, not, ◌&&◌, ◌||◌, Option, none, some, List, [], ◌∷◌,
  ltb, ◌==◌, if◌then◌else◌, saturating_inc, clamp32, beq_bool,
}
use kfsw_modules.Errno.{Errno, Ret, ok, err, eacces, einval, enodev, erange}
use kfsw_modules.Params.{
  Definition, DefinitionSet, read_only, live, debug, validate, changed, u8, u32,
}

-- The static variables, and the delay of the debounce work item if one is queued.
pub record State : Type 0 where
  pub press_count : ℕ
  pub last_press_s : ℕ
  pub led_green : ℕ
  pub led_blue : ℕ
  pub led_red : ℕ
  pub stable_pressed : Bool
  pub initialized : Bool
  pub debounce : Option ℕ

unfoldable pub boot : State
boot = record {
  press_count = 0;
  last_press_s = 0;
  led_green = 0;
  led_blue = 0;
  led_red = 0;
  stable_pressed = false;
  initialized = false;
  debounce = none;
}

abbrev pub monotonic_seconds : ℕ → ℕ
monotonic_seconds monotonic_ms = clamp32 (monotonic_ms / 1000)

-- `boton_test_status = {0}`, with the level and the flag that are set beside it.
abbrev pub cleared : Bool → State → State
cleared pressed s = record s {
  press_count = 0;
  last_press_s = 0;
  led_green = 0;
  led_blue = 0;
  led_red = 0;
  stable_pressed = pressed;
  initialized = true;
}

abbrev pub led_state : Led → State → ℕ
led_state Led.green s = s.led_green
led_state Led.blue s = s.led_blue
led_state Led.red s = s.led_red

abbrev pub switched : Led → Bool → State → State
switched Led.green on s = record s { led_green = if on then 1 else 0 }
switched Led.blue on s = record s { led_blue = if on then 1 else 0 }
switched Led.red on s = record s { led_red = if on then 1 else 0 }

-- kfsw_boton_test_test_disable
unfoldable pub test_disable : State → State
test_disable s = record s { initialized = false }

-- kfsw_boton_test_test_set_press_count
unfoldable pub test_set_press_count : ℕ → State → State
test_set_press_count press_count s = record s { press_count = press_count }

-- kfsw_boton_test_process_level
unfoldable pub process_level : Bool → ℕ → State → State
process_level pressed monotonic_ms s =
    if not s.initialized || beq_bool pressed s.stable_pressed
    then s
    else if pressed
    then record s {
      stable_pressed = pressed;
      press_count = saturating_inc s.press_count;
      last_press_s = monotonic_seconds monotonic_ms;
    }
    else record s { stable_pressed = pressed }

-- boton_test_gpio_edge: each edge restarts the delay.
unfoldable pub gpio_edge : Config → State → State
gpio_edge c s = record s { debounce = some c.debounce_ms }

-- struct kfsw_boton_test_status
pub record Status : Type 0 where
  pub press_count : ℕ
  pub last_press_s : ℕ
  pub led_green : Bool
  pub led_blue : Bool
  pub led_red : Bool

-- kfsw_boton_test_get_status; `false` is a NULL destination.
unfoldable pub get_status : Bool → State → Ret × Option Status
get_status false s = (err einval, none)
get_status true s = if not s.initialized then (err eacces, none) else (
  ok,
  some (record {
    press_count = s.press_count;
    last_press_s = s.last_press_s;
    led_green = not (s.led_green == 0);
    led_blue = not (s.led_blue == 0);
    led_red = not (s.led_red == 0);
  }),
)

module _ {D : Type 0} (c : Config) (g : Gpio D) where
  -- `result` of set_led_locked(): without LED pins it stays 0.
  abbrev pub drive : Led → Bool → D → D × Ret
  drive led on d = if c.led_gpio then led_gpio_set g (some led) on d else (d, ok)

  settle_led : Led → Bool → D × Ret → State → (State × D) × Ret
  settle_led led on (d, ok) s = ((switched led on s, d), ok)
  settle_led led on (d, err e) s = ((s, d), err e)

  set_led_locked : Option Led → Bool → State → D → (State × D) × Ret
  unfolding settle_led
  set_led_locked none on s d = ((s, d), err einval)
  set_led_locked (some led) on s d = settle_led led on (drive led on d) s

  -- kfsw_boton_test_set_led
  unfoldable pub set_led : ℕ → Bool → State → D → (State × D) × Ret
  unfolding set_led_locked
  set_led led on s d =
      if not s.initialized then ((s, d), err eacces) else set_led_locked (led_of led) on s d

  -- kfsw_boton_test_state_reset; the results of the LED calls are dropped.
  unfoldable pub state_reset : Bool → State → D → State × D
  state_reset initially_pressed s d =
      let d1 = (drive Led.green false d).0 in
      let d2 = (drive Led.blue false d1).0 in
      let d3 = (drive Led.red false d2).0 in (cleared initially_pressed s, d3)

  start_interrupt : D × Ret → State → (State × D) × Ret
  start_interrupt (d, err e) s = ((s, g.remove_callback d), err e)
  start_interrupt (d, ok) s = ((gpio_edge c s, d), ok)

  start_callback : D × Ret → State → (State × D) × Ret
  unfolding start_interrupt
  start_callback (d, err e) s = ((s, d), err e)
  start_callback (d, ok) s = start_interrupt (g.interrupt_configure d) s

  -- kfsw_boton_test_gpio_start
  unfoldable pub gpio_start : State → D → (State × D) × Ret
  unfolding start_callback
  gpio_start s d = start_callback (g.add_callback d) s

  abbrev prepare_button : D → D × Ret × Bool
  prepare_button d = if c.gpio then gpio_prepare g d else (d, ok, false)

  abbrev prepare_leds : D → D × Ret
  prepare_leds d = if c.led_gpio then led_gpio_prepare g d else (d, ok)

  started : (State × D) × Ret → (State × D) × Ret
  started ((s, d), err e) = ((record s { initialized = false }, d), err e)
  started ((s, d), ok) = ((s, d), ok)

  init_prepared : Bool → D × Ret → State → (State × D) × Ret
  unfolding started
  init_prepared pressed (d, err e) s = ((s, d), err e)
  init_prepared pressed (d, ok) s =
      if c.gpio then started (gpio_start (cleared pressed s) d) else ((cleared pressed s, d), ok)

  init_sampled : D × Ret × Bool → State → (State × D) × Ret
  unfolding init_prepared
  init_sampled (d, err e, pressed) s = ((s, d), err e)
  init_sampled (d, ok, pressed) s = init_prepared pressed (prepare_leds d) s

  -- kfsw_boton_test_init
  unfoldable pub init : State → D → (State × D) × Ret
  unfolding init_sampled
  init s d = if s.initialized then ((s, d), ok) else init_sampled (prepare_button d) s

  debounced : D × Level → ℕ → State → State × D
  unfolding process_level
  debounced (d, level pressed) now s = (process_level pressed now s, d)
  debounced (d, unread e) now s = (s, d)

  -- boton_test_debounce_work_handler
  unfoldable pub debounce_work_handler : ℕ → State → D → State × D
  unfolding debounced
  debounce_work_handler now s d = debounced (g.button_get d) now (record s { debounce = none })
