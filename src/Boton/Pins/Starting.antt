-- ===== src/Boton/Pins/Starting.antt =====
-- The start of the module leaves the LED states in step with the pins (`kfsw_boton_test_init` of
-- boton-test/src/boton_test.c and `kfsw_boton_test_led_gpio_prepare` of boton_test_gpio.c).
use kfsw_modules.Prelude.{
  ◌≡◌, refl, ◌∙◌, Bool, true, false, not, ◌||◌, List, [], ◌∷◌, arith, if◌then◌else◌, if_true,
  if_false,
}
use kfsw_modules.Errno.{Ret, ok, err}
use kfsw_modules.Boton
use kfsw_modules.Boton.Pins.{Pins, same, IsInStep, Keeps, IsInStep-Keeps}

module _ {D : Type 0} (c : Boton.Config) (g : Boton.Gpio D) (pins : Pins g)
    (leds : c.led_gpio ≡ true) where
  abbrev covers : List Boton.Led → Boton.Led → Bool
  covers [] led = false
  covers (x ∷ xs) led = if same x led then true else covers xs led

  prepare_each-step :
      (x : Boton.Led) (xs : List Boton.Led) (d : D)
      → (Boton.prepare_each g (x ∷ xs) d).1 ≡ ok
      → ((g.led_configure x d).1 ≡ ok)
        × (Boton.prepare_each g (x ∷ xs) d ≡ Boton.prepare_each g xs (g.led_configure x d).0)
  unfolding Boton.prepare_each Boton.configured
  prepare_each-step x xs d h = ground arith

  -- The configuration of the LEDs, if it succeeds, puts out those that it covers.
  prepare_each-covers :
      (xs : List Boton.Led) (d : D)
      → (Boton.prepare_each g xs d).1 ≡ ok
      → (led : Boton.Led) → (covers xs led || not (pins.pin led d)) ≡ true
      → pins.pin led (Boton.prepare_each g xs d).0 ≡ false
  unfolding Boton.prepare_each
  prepare_each-covers [] d h led k = ground arith
  prepare_each-covers (x ∷ xs) d h led k =
      let (set, e) = prepare_each-step x xs d h in
      let d' : D = (g.led_configure x d).0 in
      let covered : (covers xs led || not (pins.pin led d')) ≡ true =
        ground (arith, pins.configure_ok x led d set) in
      rw e (prepare_each-covers xs d' (rw e at h) led covered)

  pub off-IsInStep :
      (pressed : Bool) (s : Boton.State) (d : D)
      → ((led : Boton.Led) → pins.pin led d ≡ false)
      → IsInStep c g pins leds (Boton.cleared pressed s, d)
  off-IsInStep pressed s d off = λ _ led. ground (arith, off led)

  pub gpio_edge-Keeps :
      (s : Boton.State) (d d' : D)
      → ((led : Boton.Led) → pins.pin led d' ≡ pins.pin led d)
      → Keeps c g pins leds (s, d) (Boton.gpio_edge c s, d')
  unfolding Boton.gpio_edge
  gpio_edge-Keeps s d d' same = λ led. (refl, ground arith, same led)

  start_callback-IsInStep :
      (s : Boton.State) (d : D) (r : D × Ret)
      → ((led : Boton.Led) → pins.pin led r.0 ≡ pins.pin led d)
      → IsInStep c g pins leds (s, d)
      → IsInStep c g pins leds (Boton.started c g (Boton.start_callback c g r s)).0
  unfolding Boton.start_callback Boton.started Boton.start_interrupt
  start_callback-IsInStep s d (d', err e) same h = λ i. absurd (ground (arith, i))
  start_callback-IsInStep s d (d', ok) same h =
      started_interrupt (g.interrupt_configure d') (λ led. pins.interrupt_keeps led d' ∙ same led)
    where
      started_interrupt :
          (q : D × Ret)
          → ((led : Boton.Led) → pins.pin led q.0 ≡ pins.pin led d)
          → IsInStep c g pins leds (Boton.started c g (Boton.start_interrupt c g q s)).0
      started_interrupt (d2, err e) kept = λ i. absurd (ground (arith, i))
      started_interrupt (d2, ok) kept =
          IsInStep-Keeps c g pins leds (s, d) (Boton.gpio_edge c s, d2)
            (gpio_edge-Keeps s d d2 kept) h

  init_prepared-IsInStep :
      (pressed : Bool) (s : Boton.State) (r : D × Ret)
      → s.initialized ≡ false
      → (r.1 ≡ ok → (led : Boton.Led) → pins.pin led r.0 ≡ false)
      → IsInStep c g pins leds (Boton.init_prepared c g pressed r s).0
  unfolding Boton.init_prepared Boton.gpio_start
  init_prepared-IsInStep pressed s (d, err e) stopped off = λ i. absurd (ground (arith, i, stopped))
  init_prepared-IsInStep pressed s (d, ok) stopped off = go c.gpio refl
    where
      clean : IsInStep c g pins leds (Boton.cleared pressed s, d)
      clean = off-IsInStep pressed s d (off refl)

      go :
          (b : Bool)
          → c.gpio ≡ b
          → IsInStep c g pins leds (Boton.init_prepared c g pressed (d, ok) s).0
      go true e = rw (if_true _ _ _ e) (
          start_callback-IsInStep (Boton.cleared pressed s) d (g.add_callback d)
            (λ led. pins.add_callback_keeps led d) clean)
      go false e = rw (if_false _ _ _ e) clean

  led_gpio_prepare-off :
      (d : D)
      → (Boton.led_gpio_prepare g d).1 ≡ ok
      → (led : Boton.Led) → pins.pin led (Boton.led_gpio_prepare g d).0 ≡ false
  unfolding Boton.led_gpio_prepare
  led_gpio_prepare-off d h led =
      prepare_each-covers (Boton.Led.green ∷ Boton.Led.blue ∷ Boton.Led.red ∷ []) d h led
        (ground arith)

  init_sampled-IsInStep :
      (s : Boton.State) (r : D × Ret × Bool)
      → s.initialized ≡ false
      → IsInStep c g pins leds (Boton.init_sampled c g r s).0
  unfolding Boton.init_sampled
  init_sampled-IsInStep s (d, err e, pressed) stopped = λ i. absurd (ground (arith, i, stopped))
  init_sampled-IsInStep s (d, ok, pressed) stopped = rw (if_true _ _ _ leds) (
      init_prepared-IsInStep pressed s (Boton.led_gpio_prepare g d) stopped
        (λ h. led_gpio_prepare-off d h))

  pub init-IsInStep :
      (s : Boton.State) (d : D)
      → IsInStep c g pins leds (s, d)
      → IsInStep c g pins leds (Boton.init c g s d).0
  unfolding Boton.init
  init-IsInStep s d h = go s.initialized refl
    where
      go : (b : Bool) → s.initialized ≡ b → IsInStep c g pins leds (Boton.init c g s d).0
      go true e = rw (if_true _ _ _ e) h
      go false e = rw (if_false _ _ _ e) (init_sampled-IsInStep s (Boton.prepare_button c g d) e)
