-- ===== src/Boton/Presses.antt =====
-- Which levels of the button count as presses (`kfsw_boton_test_process_level` of
-- boton-test/src/boton_test.c).
use kfsw_modules.Prelude.{
  ℕ, ◌+◌, ◌≤◌, ◌≡◌, ap, ◌∙◌, Bool, true, not, ◌&&◌, List, [], ◌∷◌, arith, if◌then◌else◌, u32_max,
  clamp32,
}
use kfsw_modules.Boton.{State, process_level}

-- The pressed levels that follow a released one.
abbrev pub rises : Bool → List (Bool × ℕ) → ℕ
rises was [] = 0
rises was ((now, _) ∷ rest) = (if now && not was then 1 else 0) + rises now rest

-- The last level.
abbrev pub final : Bool → List (Bool × ℕ) → Bool
final was [] = was
final was ((now, _) ∷ rest) = final now rest

-- The debounced levels, with the time of each.
unfoldable pub run : List (Bool × ℕ) → State → State
run [] s = s
run ((pressed, now) ∷ rest) s = run rest (process_level pressed now s)

process_level-counts :
    (pressed : Bool) (now : ℕ) (s : State)
    → s.initialized ≡ true
    → s.press_count ≤ u32_max
    → let s' = process_level pressed now s in
      (s'.initialized ≡ true)
      × (s'.stable_pressed ≡ pressed)
      × (s'.press_count
          ≡ clamp32 (s.press_count + (if pressed && not s.stable_pressed then 1 else 0)))
unfolding process_level
process_level-counts pressed now s i h = ground arith

clamp32_le : (n : ℕ) → clamp32 n ≤ u32_max
clamp32_le n = ground arith

clamp32_add : (m n : ℕ) → clamp32 (clamp32 m + n) ≡ clamp32 (m + n)
clamp32_add m n = ground arith

-- A started module counts a press for every level that is pressed after a released one and for no
-- other, also when the count reaches 32 bits, where it stays; a button that is held at the start
-- counts when it has been released and is pressed again. The level kept is the last one.
pub press_count-run :
    (levels : List (Bool × ℕ)) (s : State)
    → s.initialized ≡ true
    → s.press_count ≤ u32_max
    → ((run levels s).press_count ≡ clamp32 (s.press_count + rises s.stable_pressed levels))
      × ((run levels s).stable_pressed ≡ final s.stable_pressed levels)
unfolding run
press_count-run [] s i h = ground arith
press_count-run ((pressed, now) ∷ rest) s i h =
    let (i', last, count) = process_level-counts pressed now s i h in
    let s' = process_level pressed now s in
    let step : ℕ = if pressed && not s.stable_pressed then 1 else 0 in
    let small : s'.press_count ≤ u32_max = rw count (clamp32_le (s.press_count + step)) in
    let (counted, kept) = press_count-run rest s' i' small in
    let joined : clamp32 (s'.press_count + rises s'.stable_pressed rest)
        ≡ clamp32 ((s.press_count + step) + rises pressed rest) =
      rw last (rw count (clamp32_add (s.press_count + step) (rises pressed rest))) in
    let regrouped : (s.press_count + step) + rises pressed rest
        ≡ s.press_count + (step + rises pressed rest) =
      omega arith in
    (counted ∙ joined ∙ ap clamp32 regrouped, kept ∙ ap (λ b. final b rest) last)
