-- ===== src/Boton/Start.antt =====
-- The start of the module (`kfsw_boton_test_init` of boton-test/src/boton_test.c).
use kfsw_modules.Prelude.{
  ℕ, ◌≡◌, ◌≢◌, ◌⊎◌, Bool, true, false, some, arith, if◌then◌else◌, ◌&&◌, not,
}
use kfsw_modules.Errno.{ok, err, eacces}
use kfsw_modules.Boton

-- A start that fails, in whatever call of the driver, says so and leaves the module not started: its
-- status is refused. A start that succeeds leaves it started with no press counted, and a second
-- start changes nothing.
pub init-get_status :
    {D : Type 0} (c : Boton.Config) (g : Boton.Gpio D) (s : Boton.State) (d : D)
    → s.initialized ≡ false
    → let ((s', d'), result) = Boton.init c g s d in
      ((result ≢ ok) × ((Boton.get_status true s').0 ≡ err eacces))
      ⊎ ((result ≡ ok)
          × ((Boton.get_status true s').0 ≡ ok)
          × (s'.press_count ≡ 0)
          × (Boton.init c g s' d' ≡ ((s', d'), ok)))
unfolding Boton.init Boton.get_status Boton.init_sampled Boton.init_prepared Boton.gpio_start
    Boton.start_callback Boton.start_interrupt Boton.started Boton.gpio_edge
init-get_status c g s d h = ground arith

-- A press while the module starts is not lost. If the start of a build with a button succeeds, the
-- debounce work is due after the debounce time, and its run counts exactly one press if the pin then
-- reads as pressed and was not pressed when the start sampled it, and none otherwise.
pub init-debounce_work_handler :
    {D : Type 0} (c : Boton.Config) (g : Boton.Gpio D) (s : Boton.State) (d later : D) (now : ℕ)
    (pressed : Bool)
    → c.gpio ≡ true
    → s.initialized ≡ false
    → (Boton.init c g s d).1 ≡ ok
    → (g.button_get later).1 ≡ Boton.Level.level pressed
    → let s' = (Boton.init c g s d).0.0 in
      (s'.debounce ≡ some c.debounce_ms)
      × (s'.stable_pressed ≡ (Boton.gpio_prepare g d).2)
      × ((Boton.debounce_work_handler c g now s' later).0.press_count
          ≡ (if pressed && not (Boton.gpio_prepare g d).2 then 1 else 0))
unfolding Boton.init Boton.init_sampled Boton.init_prepared Boton.gpio_start Boton.start_callback
    Boton.start_interrupt Boton.started Boton.gpio_edge Boton.debounce_work_handler Boton.debounced
    Boton.process_level
init-debounce_work_handler c g s d later now pressed buttons stopped fine read =
    ground (arith, buttons, stopped, fine, read)
