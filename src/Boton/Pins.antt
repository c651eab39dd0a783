-- ===== src/Boton/Pins.antt =====
-- The LED states that the module reports and the levels of the pins (boton-test/src/boton_test.c and
-- boton_test_gpio.c).
pub mod Starting
use kfsw_modules.Prelude.{
  ℕ, ◌≡◌, refl, sym, ap, ◌∙◌, Bool, true, false, not, ◌||◌, Option, none, some, List, [], ◌∷◌,
  arith, if◌then◌else◌, if_true, if_false,
}
use kfsw_modules.Errno.{Errno, Ret, ok, err}
use kfsw_modules.Boton

abbrev pub same : Boton.Led → Boton.Led → Bool
same Boton.Led.green Boton.Led.green = true
same Boton.Led.blue Boton.Led.blue = true
same Boton.Led.red Boton.Led.red = true
same _ _ = false

-- The GPIO driver as the module relies on it: the level of each LED's pin, which a set that succeeds
-- changes and nothing else does but the configuration as an inactive output.
pub record Pins {D : Type 0} (g : Boton.Gpio D) : Type 0 where
  pub pin : Boton.Led → D → Bool
  pub set_ok :
      (led other : Boton.Led) (on : Bool) (d : D)
      → (g.led_set led on d).1 ≡ ok
      → pin other (g.led_set led on d).0 ≡ (if same led other then on else pin other d)
  pub set_err :
      (led other : Boton.Led) (on : Bool) (d : D) (e : Errno)
      → (g.led_set led on d).1 ≡ err e
      → pin other (g.led_set led on d).0 ≡ pin other d
  pub configure_ok :
      (led other : Boton.Led) (d : D)
      → (g.led_configure led d).1 ≡ ok
      → pin other (g.led_configure led d).0 ≡ (if same led other then false else pin other d)
  pub button_get_keeps : (led : Boton.Led) (d : D) → pin led (g.button_get d).0 ≡ pin led d
  pub add_callback_keeps : (led : Boton.Led) (d : D) → pin led (g.add_callback d).0 ≡ pin led d
  pub interrupt_keeps : (led : Boton.Led) (d : D) → pin led (g.interrupt_configure d).0 ≡ pin led d

abbrev pub bit : Bool → ℕ
bit true = 1
bit false = 0

module _ {D : Type 0} (c : Boton.Config) (g : Boton.Gpio D) (pins : Pins g)
    (leds : c.led_gpio ≡ true) where
  -- A started module's LED states are the levels of the pins.
  abbrev pub IsInStep : Boton.State × D → Type 0
  IsInStep (s, d) =
      s.initialized ≡ true → (led : Boton.Led) → Boton.led_state led s ≡ bit (pins.pin led d)

  led_state-switched :
      (led other : Boton.Led) (on : Bool) (s : Boton.State)
      → Boton.led_state other (Boton.switched led on s)
        ≡ (if same led other then bit on else Boton.led_state other s)
  led_state-switched led other on s = ground arith

  initialized-switched :
      (led : Boton.Led) (on : Bool) (s : Boton.State)
      → (Boton.switched led on s).initialized ≡ s.initialized
  initialized-switched led on s = ground arith

  settle_led-IsInStep :
      (led : Boton.Led) (on : Bool) (s : Boton.State) (d : D) (r : D × Ret)
      → (r.1 ≡ ok
          → (other : Boton.Led)
          → pins.pin other r.0 ≡ (if same led other then on else pins.pin other d))
      → ((e : Errno) → r.1 ≡ err e → (other : Boton.Led) → pins.pin other r.0 ≡ pins.pin other d)
      → IsInStep (s, d)
      → IsInStep (Boton.settle_led c g led on r s).0
  unfolding Boton.settle_led
  settle_led-IsInStep led on s d (d', ok) good bad h = λ i other. ground (
    arith,
    good refl other,
    led_state-switched led other on s,
    h (sym (initialized-switched led on s) ∙ i) other,
  )
  settle_led-IsInStep led on s d (d', err e) good bad h =
      λ i other. h i other ∙ ap bit (sym (bad e refl other))

  pub set_led-IsInStep :
      (n : ℕ) (on : Bool) (s : Boton.State) (d : D)
      → IsInStep (s, d)
      → IsInStep (Boton.set_led c g n on s d).0
  unfolding Boton.set_led Boton.set_led_locked
  set_led-IsInStep n on s d h = go s.initialized refl
    where
      locked : (o : Option Boton.Led) → IsInStep (Boton.set_led_locked c g o on s d).0
      locked none = h
      locked (some led) = rw leds (
          settle_led-IsInStep led on s d (g.led_set led on d)
            (λ e other. pins.set_ok led other on d e) (λ x e other. pins.set_err led other on d x e)
            h)

      go : (b : Bool) → s.initialized ≡ b → IsInStep (Boton.set_led c g n on s d).0
      go true e = rw (if_false _ _ _ (ap not e)) (locked (Boton.led_of n))
      go false e = rw (if_true _ _ _ (ap not e)) h

  process_level-keeps :
      (pressed : Bool) (now : ℕ) (s : Boton.State) (led : Boton.Led)
      → ((Boton.process_level pressed now s).initialized ≡ s.initialized)
        × (Boton.led_state led (Boton.process_level pressed now s) ≡ Boton.led_state led s)
  unfolding Boton.process_level
  process_level-keeps pressed now s led = ground arith

  -- What keeps the LED states, the pins and the start.
  abbrev pub Keeps : Boton.State × D → Boton.State × D → Type 0
  Keeps (s, d) (s', d') =
      (led : Boton.Led)
      → (s'.initialized ≡ s.initialized)
        × (Boton.led_state led s' ≡ Boton.led_state led s)
        × (pins.pin led d' ≡ pins.pin led d)

  pub IsInStep-Keeps : (a b : Boton.State × D) → Keeps a b → IsInStep a → IsInStep b
  IsInStep-Keeps (s, d) (s', d') k h =
      λ i led. let (start, state, pin) = k led in state ∙ h (sym start ∙ i) led ∙ ap bit (sym pin)

  debounced-Keeps :
      (r : D × Boton.Level) (now : ℕ) (s s' : Boton.State) (d : D)
      → ((led : Boton.Led) → pins.pin led r.0 ≡ pins.pin led d)
      → Keeps (s, d) (s', d)
      → Keeps (s, d) (Boton.debounced c g r now s')
  unfolding Boton.debounced
  debounced-Keeps (d', Boton.Level.level pressed) now s s' d same k = λ led.
      let (start, state) = process_level-keeps pressed now s' led in
      let (start', state', _) = k led in (start ∙ start', state ∙ state', same led)
  debounced-Keeps (d', Boton.Level.unread e) now s s' d same k =
      λ led. let (start', state', _) = k led in (start', state', same led)

  pub debounce-Keeps :
      (now : ℕ) (s : Boton.State) (d : D) → Keeps (s, d) (Boton.debounce_work_handler c g now s d)
  unfolding Boton.debounce_work_handler
  debounce-Keeps now s d =
      debounced-Keeps (g.button_get d) now s (record s { debounce = none }) d
        (λ led. pins.button_get_keeps led d) (λ led. (refl, ground arith, refl))
