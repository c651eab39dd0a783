-- ===== src/Gpredict/Machine/Laws.antt =====
-- What the state machine of gpredict/src/gpredict.c promises over any sequence of events.
use kfsw_modules.Prelude.{
  ℕ, zero, suc, ◌≤◌, ◌≡◌, refl, ◌⊎◌, Bool, true, false, not, ◌&&◌, none, inl, inr, ap, List, [],
  ◌∷◌, arith,
}
use kfsw_modules.Gpredict.Machine.{
  State, Event, state_value, state_of, event_of, event_value, decided, next, next_value,
}

-- The states after a list of events.
unfoldable pub run : State → List Event → State
run s [] = s
run s (e ∷ es) = run (next s e) es

-- The events that a park or a fault is left by.
abbrev pub releases : State → Event → Bool
releases State.parking Event.parked = true
releases State.parking Event.fault = true
releases State.fault Event.cleared = true
releases _ _ = false

abbrev pub none_releases : State → List Event → Bool
none_releases s [] = true
none_releases s (e ∷ es) = not (releases s e) && none_releases s es

next-waiting :
    (s : State) (e : Event)
    → (s ≡ State.parking) ⊎ (s ≡ State.fault)
    → releases s e ≡ false
    → next s e ≡ s
unfolding next
next-waiting s e w h = ground arith

-- A park runs to its end and a fault waits for the operator: from parking, no events but the
-- rotator's report of arrival and a fault leave the state, and from fault none but a clear does.
pub parking_and_fault_hold :
    (s : State) (es : List Event)
    → (s ≡ State.parking) ⊎ (s ≡ State.fault)
    → none_releases s es ≡ true
    → run s es ≡ s
unfolding run
parking_and_fault_hold s [] w h = refl
parking_and_fault_hold s (e ∷ es) w h =
    rw (next-waiting s e w (ground arith)) (parking_and_fault_hold s es w (ground arith))

state_of_undefined : (s : ℕ) → 5 ≤ s → state_of s ≡ none
state_of_undefined zero h = absurd (omega arith)
state_of_undefined (suc zero) h = absurd (omega arith)
state_of_undefined (suc (suc zero)) h = absurd (omega arith)
state_of_undefined (suc (suc (suc zero))) h = absurd (omega arith)
state_of_undefined (suc (suc (suc (suc zero)))) h = absurd (omega arith)
state_of_undefined (suc (suc (suc (suc (suc s))))) h = refl

event_of_undefined : (e : ℕ) → 6 ≤ e → event_of e ≡ none
event_of_undefined zero h = absurd (omega arith)
event_of_undefined (suc zero) h = absurd (omega arith)
event_of_undefined (suc (suc zero)) h = absurd (omega arith)
event_of_undefined (suc (suc (suc zero))) h = absurd (omega arith)
event_of_undefined (suc (suc (suc (suc zero)))) h = absurd (omega arith)
event_of_undefined (suc (suc (suc (suc (suc zero))))) h = absurd (omega arith)
event_of_undefined (suc (suc (suc (suc (suc (suc e)))))) h = refl

undefined_is_fault : (s e : ℕ) → (5 ≤ s) ⊎ (6 ≤ e) → decided (state_of s) (event_of e) ≡ State.fault
undefined_is_fault s e (inl h) = rw (state_of_undefined s h, decided)
undefined_is_fault s e (inr h) = ground (arith, event_of_undefined e h)

-- Where a value is outside its enum, the state's or the event's, the next state is fault.
pub next_value_contained : (s e : ℕ) → (5 ≤ s) ⊎ (6 ≤ e) → next_value s e ≡ state_value State.fault
unfolding next_value
next_value_contained s e h = ap state_value (undefined_is_fault s e h)

-- Where both are values of their enums, the next state is the machine's.
next_value_defined :
    (a : State) (b : Event) → next_value (state_value a) (event_value b) ≡ state_value (next a b)
unfolding next_value
next_value_defined a b = ground arith
