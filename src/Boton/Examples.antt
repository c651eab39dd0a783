-- ===== src/Boton/Examples.antt =====
-- The button and the LEDs at concrete inputs, on a device of three pins and a button.
use kfsw_modules.Prelude.{
  ℕ, ◌+◌, ◌*◌, ◌-◌, ◌≤◌, ◌≡◌, ◌≢◌, ◌⊎◌, refl, none, Bool, true, false, List, [], ◌∷◌, arith,
  if◌then◌else◌, clamp32, some, not, ◌&&◌,
}
use kfsw_modules.Errno.{ok, err, eio}
use kfsw_modules.Boton
use kfsw_modules.Boton.{State, Config, Gpio, Led}
use kfsw_modules.Boton.Presses
use kfsw_modules.Boton.Presses.{rises, final, press_count-run}
use kfsw_modules.Boton.Debounce
use kfsw_modules.Boton.Debounce.Bound.{presses_paced}
use kfsw_modules.Boton.Leds
use kfsw_modules.Boton.Pins.{Pins, IsInStep}
use kfsw_modules.Boton.Leds.{run-IsInStep}
use kfsw_modules.Boton.Start.{init-debounce_work_handler}
use kfsw_modules.Boton.Shell.{hw_test_led, red_text, off_text, same_text, led_named, state_named}
use kfsw_modules.Boton.Shell.Leds.{led_text, state_text, Switched, Untouched, hw_test_led-switches}

-- The levels of the LED pins and the button, and an LED driver that may refuse.
record Device : Type 0 where
  green : Bool
  blue : Bool
  red : Bool
  pressed : Bool
  stuck : Bool

abbrev write_pin : Led → Bool → Device → Device
write_pin Led.green on d = record d { green = on }
write_pin Led.blue on d = record d { blue = on }
write_pin Led.red on d = record d { red = on }

abbrev read_pin : Led → Device → Bool
read_pin Led.green d = d.green
read_pin Led.blue d = d.blue
read_pin Led.red d = d.red

abbrev device : Gpio Device
device = record {
  button_ready = λ d. true;
  button_configure = λ d. (d, ok);
  button_get = λ d. (d, Boton.Level.level d.pressed);
  led_ready = λ led d. true;
  led_configure = λ led d. (write_pin led false d, ok);
  led_set = λ led on d. if d.stuck then (d, err eio) else (write_pin led on d, ok);
  add_callback = λ d. (d, ok);
  remove_callback = λ d. d;
  interrupt_configure = λ d. (d, ok);
}

device-Pins : Pins device
device-Pins = record {
  pin = read_pin;
  set_ok = λ led other on d h. ground arith;
  set_err = λ led other on d e h. ground arith;
  configure_ok = λ led other d h. ground arith;
  button_get_keeps = λ led d. refl;
  add_callback_keeps = λ led d. refl;
  interrupt_keeps = λ led d. refl;
}

abbrev board : Config
board = record { gpio = true; led_gpio = true; debounce_ms = 30 }

abbrev power_on : Device
power_on = record { green = true; blue = false; red = true; pressed = true; stuck = false }

abbrev released : Device
released = record power_on { pressed = false }

run-IsInStep_example : IsInStep board device device-Pins refl (
    Boton.Leds.run board device
      (Boton.Leds.Call.start
        ∷ Boton.Leds.Call.set 1 true
        ∷ Boton.Leds.Call.edge
        ∷ Boton.Leds.Call.debounce 5000
        ∷ Boton.Leds.Call.reset false
        ∷ Boton.Leds.Call.set 2 true
        ∷ [])
      (Boton.boot, power_on))
unfolding Boton.debounce_work_handler Boton.set_led Boton.init Boton.boot Boton.gpio_prepare
    Boton.led_gpio_prepare Boton.gpio_start Boton.gpio_edge
run-IsInStep_example =
    run-IsInStep board device device-Pins refl
      (Boton.Leds.Call.start
        ∷ Boton.Leds.Call.set 1 true
        ∷ Boton.Leds.Call.edge
        ∷ Boton.Leds.Call.debounce 5000
        ∷ Boton.Leds.Call.reset false
        ∷ Boton.Leds.Call.set 2 true
        ∷ [])
      power_on ((refl, refl, refl), tt)

-- One press short of the largest count.
abbrev worn : State
worn = record {
  press_count = 4294967294;
  last_press_s = 0;
  led_green = 0;
  led_blue = 0;
  led_red = 0;
  stable_pressed = true;
  initialized = true;
  debounce = none;
}

abbrev levels : List (Bool × ℕ)
levels = (true, 1000) ∷ (false, 2000) ∷ (true, 3000) ∷ (false, 4000) ∷ (true, 5000) ∷ []

press_count-run_example :
    ((Boton.Presses.run levels worn).press_count ≡ clamp32 (4294967294 + rises true levels))
    × ((Boton.Presses.run levels worn).stable_pressed ≡ final true levels)
press_count-run_example = press_count-run levels worn refl (omega arith)

-- The button is pressed between the sample and the first run of the debounce work.
init-debounce_work_handler_example :
    let s' = (Boton.init board device Boton.boot released).0.0 in
    (s'.debounce ≡ some 30)
    × (s'.stable_pressed ≡ (Boton.gpio_prepare device released).2)
    × ((Boton.debounce_work_handler board device 5000 s' power_on).0.press_count
        ≡ (if true && not (Boton.gpio_prepare device released).2 then 1 else 0))
unfolding Boton.boot Boton.init Boton.gpio_prepare Boton.led_gpio_prepare Boton.gpio_start
init-debounce_work_handler_example =
    init-debounce_work_handler board device Boton.boot released power_on 5000 true refl refl refl
      refl

-- A started module.
abbrev running : State
running = record worn { press_count = 0 }

hw_test_led-switches_example :
    let (after, _, result) = hw_test_led board device red_text off_text running power_on in
    ((result ≡ ok)
      × (led : Led) × (on : Bool) × (red_text ≡ led_text led)
      × (off_text ≡ state_text on)
      × Switched board device device-Pins refl running power_on led on after)
    ⊎ ((result ≢ ok) × Untouched board device device-Pins refl running power_on after)
hw_test_led-switches_example =
    hw_test_led-switches board device device-Pins refl running power_on red_text off_text refl

led_off :
    (hw_test_led board device red_text off_text running power_on).0.1
    ≡ record power_on { red = false }
unfolding hw_test_led led_named same_text state_named Boton.set_led
led_off = refl

-- A press that bounces, and a release.
abbrev bounces : List (ℕ × Boton.Debounce.Event Device)
bounces =
    (100, Boton.Debounce.Event.edge)
    ∷ (105, Boton.Debounce.Event.edge)
    ∷ (110, Boton.Debounce.Event.edge)
    ∷ (140, Boton.Debounce.Event.work power_on)
    ∷ (300, Boton.Debounce.Event.edge)
    ∷ (331, Boton.Debounce.Event.work released)
    ∷ []

abbrev waiting : Boton.Debounce.Timed
waiting = record { state = record running { stable_pressed = false }; due = 0 }

abbrev after_bounces : Boton.Debounce.Timed
after_bounces = Boton.Debounce.run board device bounces waiting

bounces-Timely : Boton.Debounce.Timely board device 0 bounces waiting 500
unfolding Boton.Debounce.Timely Boton.Debounce.step Boton.gpio_edge Boton.debounce_work_handler
bounces-Timely = (
  omega arith,
  tt,
  (
    omega arith,
    tt,
    (
      omega arith,
      tt,
      (
        omega arith,
        ((λ h. absurd (cc)), omega arith),
        (omega arith, tt, (omega arith, ((λ h. absurd (cc)), omega arith), omega arith)),
      ),
    ),
  ),
)

counted_once : after_bounces.state.press_count ≡ 1
unfolding Boton.Debounce.run Boton.Debounce.step Boton.gpio_edge Boton.debounce_work_handler
    Boton.process_level
counted_once = refl

presses_paced_example : 60 * after_bounces.state.press_count ≤ 60 * 0 + 60 + (500 - 0)
presses_paced_example = presses_paced board device 0 500 bounces waiting bounces-Timely
