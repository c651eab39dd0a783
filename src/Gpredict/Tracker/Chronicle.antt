-- ===== src/Gpredict/Tracker/Chronicle.antt =====
-- The log of the tracker and its state (the "Pass tracking" lines of gpredict/src/gpredict.c).
use kfsw_modules.Prelude.{
  ℕ, ◌≡◌, ◌⊎◌, inl, inr, refl, Bool, Bool-cases, true, false, none, some, List, [], ◌∷◌, arith,
  if◌then◌else◌,
}
use kfsw_modules.Errno.{Errno, eperm, einval}
use kfsw_modules.Gpredict.Config.{Config}
use kfsw_modules.Gpredict.Machine.{State, Event, next}
use kfsw_modules.Gpredict.Tracker.{
  Bearing, Tracker, LogLine, boot, apply_event, init, refuse, accept, bearing, frequency, park,
  clear, get_status, grace_set, silence_work_handler,
}
use kfsw_modules.Gpredict.Tracker.Steps.{
  Call, starts, offers, refuses, tunes, parks, clears, reads, sets_grace, wakes, rotator_parked,
  rotator_failed, resets, step, run,
}

-- The lines, newest first, lead to the state: each transition is one that some event makes, starts
-- where the one before it ended, and the newest ended in the state. A start begins anew from parked.
unfoldable pub Leads : List LogLine → State → Type 0
Leads [] s = s ≡ State.parked
Leads (LogLine.moved from to ∷ rest) s =
    (to ≡ s) × ((e : Event) × (next from e ≡ to)) × Leads rest from
Leads (LogLine.started ∷ rest) s = (s ≡ State.parked) × (before : State) × Leads rest before
Leads (LogLine.refused b e ∷ rest) s = Leads rest s
Leads (LogLine.accepting ∷ rest) s = Leads rest s

abbrev pub IsTold : Tracker → Type 0
IsTold t = Leads t.log t.status.state

-- After a call: the lines of `log` with the state as it was, or one transition more.
abbrev Told : Event → List LogLine → Tracker → Tracker → Type 0
Told e log t t' =
    ((t'.log ≡ log) × (t'.status.state ≡ t.status.state))
    ⊎ ((t'.log ≡ LogLine.moved t.status.state (next t.status.state e) ∷ log)
        × (t'.status.state ≡ next t.status.state e))

Told-IsTold :
    (e : Event) (log : List LogLine) (t t' : Tracker)
    → Leads log t.status.state
    → Told e log t t'
    → IsTold t'
unfolding Leads
Told-IsTold e log t t' h (inl (same, still)) = rw (same, still) h
Told-IsTold e log t t' h (inr (more, to)) = rw (more, to) (refl, (e, refl), h)

apply_event-Told : (c : Config) (e : Event) (t : Tracker) → Told e t.log t (apply_event c e t)
unfolding apply_event
apply_event-Told c e t = ground arith

-- The log that an accepted bearing and a refused one start from.
abbrev accepted_log : Tracker → List LogLine
accepted_log t = if t.refusing then LogLine.accepting ∷ t.log else t.log

abbrev refused_log : Bearing → Errno → Tracker → List LogLine
refused_log b e t = if t.refusing then t.log else LogLine.refused b e ∷ t.log

accepted_log-Leads : (t : Tracker) → IsTold t → Leads (accepted_log t) t.status.state
unfolding Leads
accepted_log-Leads t h = elim (Bool-cases t.refusing) [ inl r ↦ rw r h | inr r ↦ rw r h ]

refused_log-Leads :
    (b : Bearing) (e : Errno) (t : Tracker) → IsTold t → Leads (refused_log b e t) t.status.state
unfolding Leads
refused_log-Leads b e t h = elim (Bool-cases t.refusing) [ inl r ↦ rw r h | inr r ↦ rw r h ]

refuse-IsTold : (b : Bearing) (e : Errno) (t : Tracker) → IsTold t → IsTold (refuse b e t)
unfolding refuse
refuse-IsTold b e t h = refused_log-Leads b e t h

accept-Told :
    (c : Config) (now : ℕ) (b : Bearing) (t : Tracker)
    → Told Event.bearing (accepted_log t) t (accept c now b t)
unfolding accept
accept-Told c now b t = ground arith

bearing-cases :
    (c : Config) (now : ℕ) (b : Bearing) (t : Tracker)
    → ((bearing c now (some b) t).0 ≡ accept c now b t)
      ⊎ (((bearing c now (some b) t).0 ≡ refuse b eperm t)
          ⊎ ((bearing c now (some b) t).0 ≡ refuse b einval t))
unfolding bearing
bearing-cases c now b t = ground arith

bearing-IsTold :
    (c : Config) (now : ℕ) (b : Bearing) (t : Tracker)
    → IsTold t
    → IsTold (bearing c now (some b) t).0
bearing-IsTold c now b t h = elim (bearing-cases c now b t) [
  | inl e ↦ rw e (
      Told-IsTold Event.bearing (accepted_log t) t (accept c now b t) (accepted_log-Leads t h)
        (accept-Told c now b t))
  | inr (inl e) ↦ rw e (refuse-IsTold b eperm t h)
  | inr (inr e) ↦ rw e (refuse-IsTold b einval t h)
]

init-IsTold : (c : Config) (t : Tracker) → IsTold t → IsTold (init c t).0
unfolding init Leads
init-IsTold c t h = elim (Bool-cases t.initialized) [
  | inl i ↦ rw i h
  | inr i ↦ rw i (refl, t.status.state, h)
]

grace_set-Told : (ms : ℕ) (t : Tracker) → Told Event.bearing t.log t (grace_set ms t)
unfolding grace_set
grace_set-Told ms t = ground arith

frequency-Told : (hz : ℕ) (t : Tracker) → Told Event.bearing t.log t (frequency hz t).0
unfolding frequency
frequency-Told hz t = ground arith

park-Told : (c : Config) (t : Tracker) → Told Event.park_commanded t.log t (park c t).0
unfolding park
park-Told c t = ground arith

clear-Told : (c : Config) (t : Tracker) → Told Event.cleared t.log t (clear c t).0
unfolding clear
clear-Told c t = ground arith

silence_work_handler-Told :
    (c : Config) (now : ℕ) (t : Tracker) → Told Event.silence t.log t (silence_work_handler c now t)
unfolding silence_work_handler
silence_work_handler-Told c now t = ground arith

get_status-Told :
    (now : ℕ) (dest : Bool) (t : Tracker) → Told Event.bearing t.log t (get_status now dest t).0
unfolding get_status
get_status-Told now dest t = ground arith

wake-Told : (c : Config) (now : ℕ) (t : Tracker) → Told Event.silence t.log t (step c (wakes now) t)
unfolding step
wake-Told c now t = ground (arith, silence_work_handler-Told c now t)

sets_grace-Told :
    (c : Config) (ms : ℕ) (t : Tracker) → Told Event.bearing t.log t (step c (sets_grace ms) t)
unfolding step
sets_grace-Told c ms t = ground (arith, grace_set-Told ms t)

-- The calls but for gpredict_state_reset, which clears the state and tells nothing.
abbrev pub is_reset : Call → Bool
is_reset resets = true
is_reset _ = false

abbrev pub has_reset : List Call → Bool
has_reset [] = false
has_reset (k ∷ ks) = if is_reset k then true else has_reset ks

step-IsTold :
    (c : Config) (k : Call) (t : Tracker) → is_reset k ≡ false → IsTold t → IsTold (step c k t)
unfolding step
step-IsTold c starts t r h = init-IsTold c t h
step-IsTold c (offers now none) t r h = h
step-IsTold c (offers now (some b)) t r h = bearing-IsTold c now b t h
step-IsTold c (refuses b e) t r h = refuse-IsTold b e t h
step-IsTold c (tunes hz) t r h =
    Told-IsTold Event.bearing t.log t (frequency hz t).0 h (frequency-Told hz t)
step-IsTold c parks t r h = Told-IsTold Event.park_commanded t.log t (park c t).0 h (park-Told c t)
step-IsTold c clears t r h = Told-IsTold Event.cleared t.log t (clear c t).0 h (clear-Told c t)
step-IsTold c (reads now dest) t r h =
    Told-IsTold Event.bearing t.log t (get_status now dest t).0 h (get_status-Told now dest t)
step-IsTold c (sets_grace ms) t r h =
    Told-IsTold Event.bearing t.log t (step c (sets_grace ms) t) h (sets_grace-Told c ms t)
step-IsTold c (wakes now) t r h =
    Told-IsTold Event.silence t.log t (step c (wakes now) t) h (wake-Told c now t)
step-IsTold c rotator_parked t r h =
    Told-IsTold Event.parked t.log t (apply_event c Event.parked t) h
      (apply_event-Told c Event.parked t)
step-IsTold c rotator_failed t r h =
    Told-IsTold Event.fault t.log t (apply_event c Event.fault t) h
      (apply_event-Told c Event.fault t)
step-IsTold c resets t r h = absurd (ground arith)

boot-IsTold : (c : Config) → IsTold (boot c)
unfolding boot Leads
boot-IsTold c = refl

run_from-IsTold :
    (c : Config) (ks : List Call) (t : Tracker)
    → has_reset ks ≡ false
    → IsTold t
    → IsTold (run c ks t)
unfolding run
run_from-IsTold c [] t r h = h
run_from-IsTold c (k ∷ ks) t r h =
    let first : is_reset k ≡ false = ground (arith, r) in
    let rest : has_reset ks ≡ false = ground (arith, r) in
    run_from-IsTold c ks (step c k t) rest (step-IsTold c k t first h)

-- The log tells the state: from the static initialisers, whatever calls but the reset are made in
-- whatever order, each logged transition is one that some event makes, starts in the state in which
-- the one before it ended, and the last one ended in the state that the tracker is in; a logged start
-- begins anew from parked.
pub run-IsTold : (c : Config) (ks : List Call) → has_reset ks ≡ false → IsTold (run c ks (boot c))
run-IsTold c ks r = run_from-IsTold c ks (boot c) r (boot-IsTold c)
