-- ===== src/Boton/Leds.antt =====
-- The LED states that the module reports and the levels of the pins, over any sequence of calls
-- (boton-test/src/boton_test.c and boton_test_gpio.c).
use kfsw_modules.Prelude.{ℕ, ◌≡◌, refl, Bool, true, false, List, [], ◌∷◌, arith, if◌then◌else◌}
use kfsw_modules.Errno.{ok}
use kfsw_modules.Boton
use kfsw_modules.Boton.Pins.{Pins, same, IsInStep, IsInStep-Keeps, set_led-IsInStep, debounce-Keeps}
use kfsw_modules.Boton.Pins.Starting.{gpio_edge-Keeps, init-IsInStep, off-IsInStep}

-- What calls into the module: the application and the parameter table, the edge interrupt, the work
-- queue at a time, and the internal reset with the level that the button starts from.
pub data Call : Type 0 where
  start : Call
  set : ℕ → Bool → Call
  edge : Call
  debounce : ℕ → Call
  reset : Bool → Call

module _ {D : Type 0} (c : Boton.Config) (g : Boton.Gpio D) where
  abbrev pub step : Call → Boton.State × D → Boton.State × D
  step start (s, d) = (Boton.init c g s d).0
  step (set n on) (s, d) = (Boton.set_led c g n on s d).0
  step edge (s, d) = (Boton.gpio_edge c s, d)
  step (debounce now) (s, d) = Boton.debounce_work_handler c g now s d
  step (reset pressed) (s, d) = Boton.state_reset c g pressed s d

  abbrev pub run : List Call → Boton.State × D → Boton.State × D
  run [] a = a
  run (call ∷ calls) a = run calls (step call a)

  -- The driver accepts the three sets of each reset, whose results the reset drops.
  abbrev pub PutsOut : D → Type 0
  PutsOut d =
      let d1 = (Boton.drive c g Boton.Led.green false d).0 in
      let d2 = (Boton.drive c g Boton.Led.blue false d1).0 in
      ((Boton.drive c g Boton.Led.green false d).1 ≡ ok)
      × ((Boton.drive c g Boton.Led.blue false d1).1 ≡ ok)
      × ((Boton.drive c g Boton.Led.red false d2).1 ≡ ok)

  abbrev pub ResetsPutOut : List Call → Boton.State × D → Type 0
  ResetsPutOut [] a = Unit {0}
  ResetsPutOut (reset pressed ∷ calls) (s, d) =
      PutsOut d × ResetsPutOut calls (step (reset pressed) (s, d))
  ResetsPutOut (call ∷ calls) a = ResetsPutOut calls (step call a)

module _ {D : Type 0} (c : Boton.Config) (g : Boton.Gpio D) (pins : Pins g)
    (leds : c.led_gpio ≡ true) where
  drive-pin :
      (led other : Boton.Led) (on : Bool) (d : D)
      → (Boton.drive c g led on d).1 ≡ ok
      → pins.pin other (Boton.drive c g led on d).0
        ≡ (if same led other then on else pins.pin other d)
  drive-pin led other on d h = ground (arith, pins.set_ok led other on d, leds)

  state_reset-IsInStep :
      (pressed : Bool) (s : Boton.State) (d : D)
      → PutsOut c g d
      → IsInStep c g pins leds (Boton.state_reset c g pressed s d)
  unfolding Boton.state_reset
  state_reset-IsInStep pressed s d (green, blue, red) =
      let d1 : D = (Boton.drive c g Boton.Led.green false d).0 in
      let d2 : D = (Boton.drive c g Boton.Led.blue false d1).0 in
      let d3 : D = (Boton.drive c g Boton.Led.red false d2).0 in
      off-IsInStep c g pins leds pressed s d3 (λ led. ground (
        arith,
        drive-pin Boton.Led.green led false d green,
        drive-pin Boton.Led.blue led false d1 blue,
        drive-pin Boton.Led.red led false d2 red,
      ))

  step-IsInStep :
      (call : Call) (calls : List Call) (a : Boton.State × D)
      → ResetsPutOut c g (call ∷ calls) a
      → IsInStep c g pins leds a
      → ResetsPutOut c g calls (step c g call a) × IsInStep c g pins leds (step c g call a)
  step-IsInStep start calls (s, d) r h = (r, init-IsInStep c g pins leds s d h)
  step-IsInStep (set n on) calls (s, d) r h = (r, set_led-IsInStep c g pins leds n on s d h)
  step-IsInStep edge calls (s, d) r h = (
    r,
    IsInStep-Keeps c g pins leds (s, d) (Boton.gpio_edge c s, d)
        (gpio_edge-Keeps c g pins leds s d d (λ led. refl)) h,
  )
  step-IsInStep (debounce now) calls (s, d) r h = (
    r,
    IsInStep-Keeps c g pins leds (s, d) (Boton.debounce_work_handler c g now s d)
        (debounce-Keeps c g pins leds now s d) h,
  )
  step-IsInStep (reset pressed) calls (s, d) (out, r) h = (r, state_reset-IsInStep pressed s d out)

  run_from-IsInStep :
      (calls : List Call) (a : Boton.State × D)
      → ResetsPutOut c g calls a
      → IsInStep c g pins leds a
      → IsInStep c g pins leds (run c g calls a)
  run_from-IsInStep [] a r h = h
  run_from-IsInStep (call ∷ calls) a r h =
      let (r', h') = step-IsInStep call calls a r h in
      run_from-IsInStep calls (step c g call a) r' h'

-- With LED pins in the build and a GPIO driver that behaves as documented, after any sequence of
-- calls from the boot (starts, sets of an LED, edges, runs of the debounce work and internal resets),
-- on a device in any condition, the module, if it is started then, reports of each LED exactly the
-- level of its pin. The driver may fail in any call but those of the resets,
-- kfsw_boton_test_state_reset(), which drop its answers.
pub run-IsInStep :
    {D : Type 0} (c : Boton.Config) (g : Boton.Gpio D) (pins : Pins g) (leds : c.led_gpio ≡ true)
    (calls : List Call) (d : D)
    → ResetsPutOut c g calls (Boton.boot, d)
    → IsInStep c g pins leds (run c g calls (Boton.boot, d))
unfolding Boton.boot
run-IsInStep c g pins leds calls d resets =
    run_from-IsInStep c g pins leds calls (Boton.boot, d) resets (λ i. absurd (cc (i)))
