-- ===== src/Boton/Driver.antt =====
-- The GPIO calls of the button and LED example: boton-test/src/boton_test_gpio.c on a driver that is a
-- parameter.
use kfsw_modules.Prelude.{
  ℕ, zero, suc, Bool, false, not, Option, none, some, List, [], ◌∷◌, if◌then◌else◌,
}
use kfsw_modules.Errno.{Errno, Ret, ok, err, einval, enodev}

-- enum kfsw_boton_test_led, whose values are 0, 1 and 2.
pub data Led : Type 0 where
  green blue red : Led

-- The Kconfig choices.
pub record Config : Type 0 where
  pub gpio : Bool
  pub led_gpio : Bool
  pub debounce_ms : ℕ

-- Zephyr's GPIO calls on the button and on one LED: gpio_is_ready_dt, gpio_pin_configure_dt,
-- gpio_pin_get_dt (a level or an error), gpio_pin_set_dt, gpio_add_callback, gpio_remove_callback and
-- gpio_pin_interrupt_configure_dt.
pub data Level : Type 0 where
  level : Bool → Level
  unread : Errno → Level

pub record Gpio (D : Type 0) : Type 0 where
  pub button_ready : D → Bool
  pub button_configure : D → D × Ret
  pub button_get : D → D × Level
  pub led_ready : Led → D → Bool
  pub led_configure : Led → D → D × Ret
  pub led_set : Led → Bool → D → D × Ret
  pub add_callback : D → D × Ret
  pub remove_callback : D → D
  pub interrupt_configure : D → D × Ret

-- led_state(), for the values that name an LED.
abbrev pub led_of : ℕ → Option Led
led_of zero = some Led.green
led_of (suc zero) = some Led.blue
led_of (suc (suc zero)) = some Led.red
led_of (suc (suc (suc _))) = none

abbrev pub led_value : Led → ℕ
led_value Led.green = 0
led_value Led.blue = 1
led_value Led.red = 2

module _ {D : Type 0} (g : Gpio D) where
  -- kfsw_boton_test_led_gpio_set, on a value that names an LED or none
  abbrev pub led_gpio_set : Option Led → Bool → D → D × Ret
  led_gpio_set none on d = (d, err einval)
  led_gpio_set (some led) on d = g.led_set led on d

  unfoldable pub sampled : D × Level → D × Ret × Bool
  sampled (d, level pressed) = (d, ok, pressed)
  sampled (d, unread e) = (d, err e, false)

  unfoldable pub prepare_configured : D × Ret → D × Ret × Bool
  unfolding sampled
  prepare_configured (d, err e) = (d, err e, false)
  prepare_configured (d, ok) = sampled (g.button_get d)

  -- kfsw_boton_test_gpio_prepare, with the level if it succeeds
  unfoldable pub gpio_prepare : D → D × Ret × Bool
  unfolding prepare_configured
  gpio_prepare d =
      if not (g.button_ready d)
      then (d, err enodev, false)
      else prepare_configured (g.button_configure d)

  -- One round of kfsw_boton_test_led_gpio_prepare(), and the rounds behind it.
  unfoldable pub configured : (D → D × Ret) → D × Ret → D × Ret
  configured rest (d, err e) = (d, err e)
  configured rest (d, ok) = rest d

  unfoldable pub prepare_each : List Led → D → D × Ret
  unfolding configured
  prepare_each [] d = (d, ok)
  prepare_each (led ∷ leds) d =
      if not (g.led_ready led d)
      then (d, err enodev)
      else configured (prepare_each leds) (g.led_configure led d)

  -- kfsw_boton_test_led_gpio_prepare
  unfoldable pub led_gpio_prepare : D → D × Ret
  unfolding prepare_each
  led_gpio_prepare d = prepare_each (Led.green ∷ Led.blue ∷ Led.red ∷ []) d
