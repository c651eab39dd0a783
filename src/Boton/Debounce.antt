-- ===== src/Boton/Debounce.antt =====
-- The debounce work and the edges that restart its delay, on a kernel that runs what is due
-- (`boton_test_gpio_edge` and `boton_test_debounce_work_handler` of
-- boton-test/src/boton_test_gpio.c).
pub mod Bound
use native.Mathlib.Nat.{mul-le-mul_left, mul-add}
use kfsw_modules.Prelude.{
  ℕ, ◌+◌, ◌*◌, ◌-◌, ◌≤◌, ◌≡◌, ◌≢◌, ◌⊎◌, inl, inr, refl, ap, ◌∙◌, Bool, true, false, Option, none,
  some, List, [], ◌∷◌, arith,
}
use kfsw_modules.Boton.{
  State, Config, Gpio, Level, level, unread, gpio_edge, process_level, debounce_work_handler,
  debounced,
}

-- What happens to the button: an edge of its pin, and a run of the work item, with the devices then.
pub data Event (D : Type 0) : Type 0 where
  edge : Event D
  work : D → Event D

-- The kernel's part: the time at which the queued work is due.
pub record Timed : Type 0 where
  pub state : State
  pub due : ℕ

-- k_work_reschedule at `now`, if the step asked for it.
abbrev due_after : ℕ → Option ℕ → ℕ → ℕ
due_after now none due = due
due_after now (some delay) due = now + delay

module _ {D : Type 0} (c : Config) (g : Gpio D) where
  unfoldable pub step : ℕ → Event D → Timed → Timed
  step now edge t =
      let s = gpio_edge c t.state in record { state = s; due = due_after now s.debounce t.due }
  step now (work d) t = record t { state = (debounce_work_handler c g now t.state d).0 }

  unfoldable pub run : List (ℕ × Event D) → Timed → Timed
  run [] t = t
  run ((now, event) ∷ rest) t = run rest (step now event t)

  -- The clock never goes back, and the kernel runs only work that is queued and due.
  abbrev pub Allowed : ℕ → Event D → Timed → Type 0
  Allowed now edge t = Unit
  Allowed now (work d) t = (t.state.debounce ≢ none) × (t.due ≤ now)

  unfoldable pub Timely : ℕ → List (ℕ × Event D) → Timed → ℕ → Type 0
  Timely start [] t end = start ≤ end
  Timely start ((now, event) ∷ rest) t end =
      (start ≤ now) × Allowed now event t × Timely now rest (step now event t) end

-- What one level does to the count.
record Counted (a b : State) : Type 0 where
  change :
      ((b.press_count ≡ a.press_count) × (b.stable_pressed ≡ a.stable_pressed))
      ⊎ ((b.press_count ≡ a.press_count) × (a.stable_pressed ≡ true) × (b.stable_pressed ≡ false))
      ⊎ ((b.press_count ≤ a.press_count + 1)
          × (a.stable_pressed ≡ false)
          × (b.stable_pressed ≡ true))
  queue : b.debounce ≡ none

process_level-Counted :
    (pressed : Bool) (now : ℕ) (s : State)
    → s.debounce ≡ none
    → Counted s (process_level pressed now s)
unfolding process_level
process_level-Counted pressed now s h = record { change = ground arith; queue = ground (arith, h) }
