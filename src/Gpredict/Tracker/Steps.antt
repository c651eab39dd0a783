-- ===== src/Gpredict/Tracker/Steps.antt =====
-- The calls that reach the tracker, in any order: the public functions of
-- gpredict/include/kfsw/modules/gpredict.h, the internal ones of gpredict/src/gpredict_internal.h
-- with the events that a rotator reports, and the silence work when it is due.
use kfsw_modules.Prelude.{ℕ, Bool, Option, none, some, List, [], ◌∷◌, if◌then◌else◌}
use kfsw_modules.Errno.{Errno, is_ok}
use kfsw_modules.Gpredict.Config.{Config}
use kfsw_modules.Gpredict.Machine.{Event}
use kfsw_modules.Gpredict.Tracker.{
  Bearing, Tracker, apply_event, reset, init, refuse, bearing, frequency, park, clear, get_status,
  grace_validate, grace_set, silence_work_handler,
}

pub data Call : Type 0 where
  starts : Call
  offers : ℕ → Option Bearing → Call
  refuses : Bearing → Errno → Call
  tunes : ℕ → Call
  parks : Call
  clears : Call
  reads : ℕ → Bool → Call
  sets_grace : ℕ → Call
  wakes : ℕ → Call
  rotator_parked : Call
  rotator_failed : Call
  resets : Call

-- The handler runs only while the work is pending.
abbrev wake : Config → ℕ → Option ℕ → Tracker → Tracker
wake c now none t = t
wake c now (some _) t = silence_work_handler c now t

-- The parameter service validates a grace period before it installs it.
unfoldable pub step : Config → Call → Tracker → Tracker
unfolding init bearing frequency park clear get_status grace_validate grace_set silence_work_handler
    refuse apply_event reset
step c starts t = (init c t).0
step c (offers now b) t = (bearing c now b t).0
step c (refuses b e) t = refuse b e t
step c (tunes hz) t = (frequency hz t).0
step c parks t = (park c t).0
step c clears t = (clear c t).0
step c (reads now dest) t = (get_status now dest t).0
step c (sets_grace ms) t = if is_ok (grace_validate ms) then grace_set ms t else t
step c (wakes now) t = wake c now t.silence_work t
step c rotator_parked t = apply_event c Event.parked t
step c rotator_failed t = apply_event c Event.fault t
step c resets t = reset c t

unfoldable pub run : Config → List Call → Tracker → Tracker
run c [] t = t
run c (k ∷ ks) t = run c ks (step c k t)
