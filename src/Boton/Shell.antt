-- ===== src/Boton/Shell.antt =====
-- The commands `boton_test status` and `test led` of boton-test/src/boton_test.c. An argument is its
-- bytes without the terminator.
pub mod Leds
use kfsw_modules.Prelude.{
  ℕ, Bool, true, false, ◌&&◌, Option, none, some, List, [], ◌∷◌, ◌++◌, ◌==◌, if◌then◌else◌,
}
use kfsw_modules.Errno.{Ret, ok, err, einval}
use kfsw_modules.Shell.{Line, line, flag_word, text, unsigned, code}
use kfsw_modules.Boton

status_lines : Boton.Config → Ret × Option Boton.Status → List Line × Ret
status_lines c (ok, some status) = (
  line "press_count: %u" (unsigned status.press_count ∷ [])
      ∷ line "last_press_s: %u" (unsigned status.last_press_s ∷ [])
      ∷ line "led_green: %s" (flag_word status.led_green "on" "off" ∷ [])
      ∷ line "led_blue: %s" (flag_word status.led_blue "on" "off" ∷ [])
      ∷ line "led_red: %s" (flag_word status.led_red "on" "off" ∷ [])
      ∷ (if c.gpio then line "debounce_ms: %d" (unsigned c.debounce_ms ∷ []) ∷ [] else []),
  ok,
)
status_lines c (ok, none) = ([], ok)
status_lines c (err e, _) =
    (line "boton_test status unavailable (%d)" (code (err e) ∷ []) ∷ [], err e)

-- cmd_boton_test_status
unfoldable pub boton_test_status : Boton.Config → Boton.State → List Line × Ret
unfolding status_lines
boton_test_status c s = status_lines c (Boton.get_status true s)

-- strcmp(a, b) == 0
unfoldable pub same_text : List ℕ → List ℕ → Bool
same_text [] [] = true
same_text [] (y ∷ ys) = false
same_text (x ∷ xs) [] = false
same_text (x ∷ xs) (y ∷ ys) = x == y && same_text xs ys

abbrev pub green_text : List ℕ
green_text = b'g' ∷ b'r' ∷ b'e' ∷ b'e' ∷ b'n' ∷ []

abbrev pub blue_text : List ℕ
blue_text = b'b' ∷ b'l' ∷ b'u' ∷ b'e' ∷ []

abbrev pub red_text : List ℕ
red_text = b'r' ∷ b'e' ∷ b'd' ∷ []

abbrev pub on_text : List ℕ
on_text = b'o' ∷ b'n' ∷ []

abbrev pub off_text : List ℕ
off_text = b'o' ∷ b'f' ∷ b'f' ∷ []

-- The LED that `argv[1]` names, and the state that `argv[2]` names.
unfoldable pub led_named : List ℕ → Option ℕ
led_named colour =
    if same_text colour green_text
    then some 0
    else if same_text colour blue_text
    then some 1
    else if same_text colour red_text
    then some 2
    else none

unfoldable pub state_named : List ℕ → Option Bool
state_named word =
    if same_text word on_text
    then some true
    else if same_text word off_text
    then some false
    else none

module _ {D : Type 0} (c : Boton.Config) (g : Boton.Gpio D) where
  report_led : List ℕ → List ℕ → (Boton.State × D) × Ret → (Boton.State × D) × List Line × Ret
  report_led colour word (after, ok) =
      (after, line "%s: %s" (text colour ∷ text word ∷ []) ∷ [], ok)
  report_led colour word (after, err e) =
      (after, line "%s LED control failed (%d)" (text colour ∷ code (err e) ∷ []) ∷ [], err e)

  switch_named :
      List ℕ
      → List ℕ
      → Option ℕ
      → Option Bool
      → Boton.State
      → D
      → (Boton.State × D) × List Line × Ret
  unfolding report_led
  switch_named colour word none _ s d =
      ((s, d), line "unknown LED colour: %s" (text colour ∷ []) ∷ [], err einval)
  switch_named colour word (some led) none s d =
      ((s, d), line "LED state must be on or off" [] ∷ [], err einval)
  switch_named colour word (some led) (some on) s d =
      report_led colour word (Boton.set_led c g led on s d)

  -- cmd_hw_test_led
  unfoldable pub hw_test_led :
      List ℕ → List ℕ → Boton.State → D → (Boton.State × D) × List Line × Ret
  unfolding switch_named
  hw_test_led colour word s d = switch_named colour word (led_named colour) (state_named word) s d
