-- ===== src/Boton/Debounce/Bound.antt =====
-- How often a button can count (`boton_test_gpio_edge` and `boton_test_debounce_work_handler` of
-- boton-test/src/boton_test_gpio.c).
use native.Mathlib.Nat.{mul-le-mul_left, mul-add}
use kfsw_modules.Prelude.{
  ℕ, ◌+◌, ◌*◌, ◌-◌, ◌≤◌, ◌≡◌, ◌≢◌, ◌⊎◌, inl, inr, refl, ap, ◌∙◌, true, false, none, List, [], ◌∷◌,
  arith,
}
use kfsw_modules.Boton.{
  State, Config, Gpio, Level, level, unread, gpio_edge, debounce_work_handler, debounced,
}
use kfsw_modules.Boton.Debounce.{
  Event, edge, work, Timed, step, run, Allowed, Timely, Counted, process_level-Counted,
}

-- Each press but one has taken a period: a delay `w` for the release in front of it and one for
-- itself, of which the last is still to come while the button is pressed.
abbrev Took : ℕ → ℕ → ℕ → ℕ → State → Type 0
Took w before start last s =
    ((s.stable_pressed ≡ true) × (2 * w * s.press_count + start ≤ 2 * w * before + last + 2 * w))
    ⊎ ((s.stable_pressed ≡ false) × (2 * w * s.press_count + start ≤ 2 * w * before + last + w))

next_multiple : (k a b : ℕ) → a ≤ b + 1 → k * a ≤ k * b + k
next_multiple k a b h = omega (arith, mul-le-mul_left k h, mul-add k b 1)

-- A run of the work when no press has been counted yet, and one that comes a delay after the last.
first-Took :
    (w before start now : ℕ) (a b : State)
    → start ≤ now
    → a.press_count ≤ before
    → Counted a b
    → (b.press_count ≤ before) ⊎ Took w before start now b
first-Took w before start now a b begun few counted = elim counted.change [
  | inl (same, _) ↦ inl (omega (arith, same))
  | inr (inl (same, _, _)) ↦ inl (omega (arith, same))
  | inr (inr (more, _, pressed)) ↦
      inr (inl (pressed, omega (arith, next_multiple (2 * w) b.press_count before (omega arith))))
]

later-Took :
    (w before start last now : ℕ) (a b : State)
    → last + w ≤ now
    → Took w before start last a
    → Counted a b
    → Took w before start now b
later-Took w before start last now a b waited (inl (was, gap)) counted = elim counted.change [
  | inl (same, kept) ↦ inl (kept ∙ was, omega (arith, gap, ap (λ n. 2 * w * n) same))
  | inr (inl (same, _, released)) ↦ inr (released, omega (arith, gap, ap (λ n. 2 * w * n) same))
  | inr (inr (_, up, _)) ↦ absurd (cc (was, up))
]
later-Took w before start last now a b waited (inr (was, gap)) counted = elim counted.change [
  | inl (same, kept) ↦ inr (kept ∙ was, omega (arith, gap, ap (λ n. 2 * w * n) same))
  | inr (inl (_, down, _)) ↦ absurd (cc (was, down))
  | inr (inr (more, _, pressed)) ↦
      inl (pressed, omega (arith, gap, next_multiple (2 * w) b.press_count a.press_count more))
]

module _ {D : Type 0} (c : Config) (g : Gpio D) where
  debounced-Counted :
      (r : D × Level) (now : ℕ) (s : State)
      → s.debounce ≡ none
      → Counted s (debounced c g r now s).0
  unfolding debounced
  debounced-Counted (d, level pressed) now s h = process_level-Counted pressed now s h
  debounced-Counted (d, unread e) now s h = record { change = inl (refl, refl); queue = h }

  work-Counted : (now : ℕ) (s : State) (d : D) → Counted s (debounce_work_handler c g now s d).0
  unfolding debounce_work_handler
  work-Counted now s d =
      let counted = debounced-Counted (g.button_get d) now (record s { debounce = none }) refl in
      record { change = counted.change; queue = counted.queue }

  -- Since `start` no press was counted beyond the `before` of then, or the work ran last at `last`,
  -- what is queued was queued after that, and the presses have taken their time.
  abbrev Spaced : ℕ → ℕ → ℕ → Timed → Type 0
  Spaced before start now t =
      let s = t.state in
      (s.press_count ≤ before)
      ⊎ ((last : ℕ) × (last ≤ now)
          × (s.debounce ≢ none → last + c.debounce_ms ≤ t.due)
          × Took c.debounce_ms before start last s)

  edge-Spaced :
      (before start now now' : ℕ) (t : Timed)
      → now ≤ now'
      → Spaced before start now t
      → Spaced before start now' (step c g now' edge t)
  unfolding step gpio_edge
  edge-Spaced before start now now' t later (inl few) = inl few
  edge-Spaced before start now now' t later (inr (last, past, queued, spaced)) =
      inr (last, omega arith, λ _. omega arith, spaced)

  work-Spaced :
      (before start now now' : ℕ) (d : D) (t : Timed)
      → start ≤ now
      → now ≤ now'
      → t.state.debounce ≢ none
      → t.due ≤ now'
      → Spaced before start now t
      → Spaced before start now' (step c g now' (work d) t)
  unfolding step
  work-Spaced before start now now' d t begun later waits due (inl few) =
      let counted = work-Counted now' t.state d in
      let s' = (debounce_work_handler c g now' t.state d).0 in
      elim (first-Took c.debounce_ms before start now' t.state s' (omega arith) few counted) [
        | inl still ↦ inl still
        | inr took ↦ inr (now', omega arith, λ queued. absurd (queued counted.queue), took)
      ]
  work-Spaced before start now now' d t begun later waits due (inr (last, past, queued, took)) =
      let counted = work-Counted now' t.state d in
      let s' = (debounce_work_handler c g now' t.state d).0 in
      let waited : last + c.debounce_ms ≤ now' = omega (arith, queued waits) in
      inr (
        now',
        omega arith,
        λ queued_now. absurd (queued_now counted.queue),
        later-Took c.debounce_ms before start last now' t.state s' waited took counted,
      )

  step-Spaced :
      (before start now now' : ℕ) (event : Event D) (t : Timed)
      → start ≤ now
      → now ≤ now'
      → Allowed c g now' event t
      → Spaced before start now t
      → Spaced before start now' (step c g now' event t)
  step-Spaced before start now now' edge t begun later allowed h =
      edge-Spaced before start now now' t later h
  step-Spaced before start now now' (work d) t begun later (waits, due) h =
      work-Spaced before start now now' d t begun later waits due h

  run-Spaced :
      (before start now end : ℕ) (events : List (ℕ × Event D)) (t : Timed)
      → start ≤ now
      → Timely c g now events t end
      → Spaced before start now t
      → (start ≤ end) × Spaced before start end (run c g events t)
  unfolding run Timely
  run-Spaced before start now end [] t begun timely (inl few) = (omega arith, inl few)
  run-Spaced before start now end [] t begun timely (inr (last, past, queued, took)) =
      (omega arith, inr (last, omega arith, queued, took))
  run-Spaced before start now end ((now', event) ∷ rest) t begun (later, allowed, timely) h =
      run-Spaced before start now' end rest (step c g now' event t) (omega arith) timely
        (step-Spaced before start now now' event t begun later allowed h)

-- However the button bounces, and whatever levels are read, the module counts at most one press, and
-- one more for each two debounce delays that pass: from `start` to `end`, on a clock that never goes
-- back, with a kernel that runs the debounce work only when it is queued and its delay is over.
pub presses_paced :
    {D : Type 0} (c : Config) (g : Gpio D) (start end : ℕ) (events : List (ℕ × Event D)) (t : Timed)
    → Timely c g start events t end
    → let count = (run c g events t).state.press_count in
      2 * c.debounce_ms * count
      ≤ 2 * c.debounce_ms * t.state.press_count + 2 * c.debounce_ms + (end - start)
presses_paced c g start end events t timely =
    let before = t.state.press_count in
    let w = c.debounce_ms in
    let (begun, spaced) =
      run-Spaced c g before start start end events t (omega arith) timely (inl (omega arith)) in
    elim spaced [
      | inl few ↦ omega (arith, mul-le-mul_left (2 * w) few)
      | inr (last, past, _, inl (_, took)) ↦ omega (arith, took)
      | inr (last, past, _, inr (_, took)) ↦ omega (arith, took)
    ]
