-- ===== src/Gpredict/Tracker/Refusals.antt =====
-- Which bearings the tracker takes, and what a refused one leaves behind
-- (`kfsw_gpredict_bearing` and `refuse` of gpredict/src/gpredict.c).
use kfsw_modules.Prelude.{
  ℕ, suc, ◌≡◌, ◌≢◌, refl, true, false, some, List, [], ◌∷◌, arith, saturating_inc, ◌↔◌, ◌+◌, length,
  ◌∙◌, ◌≤◌, u32_max, clamp32,
}
use kfsw_modules.Prelude.Int.{◌≤ℤ◌}
use kfsw_modules.Errno.{Errno, ok, err}
use kfsw_modules.Gpredict.Config.{Config, mdeg}
use kfsw_modules.Gpredict.Machine.{State}
use kfsw_modules.Gpredict.Tracker.{Bearing, Tracker, LogLine, within_travel, bearing, refuse}

-- The travel of the rotator, with its bounds included.
pub record InTravel (c : Config) (b : Bearing) : Type 0 where
  pub azimuth_low : mdeg c.azimuth_min_deg ≤ℤ b.azimuth_mdeg
  pub azimuth_high : b.azimuth_mdeg ≤ℤ mdeg c.azimuth_max_deg
  pub elevation_low : mdeg c.elevation_min_deg ≤ℤ b.elevation_mdeg
  pub elevation_high : b.elevation_mdeg ≤ℤ mdeg c.elevation_max_deg

pub within_travel_iff : (c : Config) (b : Bearing) → (within_travel c b ≡ true) ↔ InTravel c b
unfolding within_travel
within_travel_iff c b = (λ h. ground arith, λ h. ground arith)

-- A bearing is taken exactly when the tracker is not in fault and the bearing lies in the travel of
-- the rotator, bounds included.
pub bearing-ok_iff :
    (c : Config) (now : ℕ) (b : Bearing) (t : Tracker)
    → ((bearing c now (some b) t).1 ≡ ok) ↔ ((t.status.state ≢ State.fault) × InTravel c b)
unfolding bearing
bearing-ok_iff c now b t = (
  λ h. (ground arith, (within_travel_iff c b).0 (ground arith)),
  λ h. ground (arith, (within_travel_iff c b).1 h.1),
)

-- A refused bearing is counted and leaves its reason, and nothing else of the status changes: not
-- the state, not the commanded bearing, not the time of the last bearing, not the pending work.
pub bearing_refused :
    (c : Config) (now : ℕ) (b : Bearing) (t : Tracker) (e : Errno)
    → (bearing c now (some b) t).1 ≡ err e
    → let t' = (bearing c now (some b) t).0 in
      (t'.status
        ≡ record t.status { refusals = saturating_inc t.status.refusals; last_error = err e })
      × (t'.last_bearing_ms ≡ t.last_bearing_ms)
      × (t'.bearing_seen ≡ t.bearing_seen)
      × (t'.silence_work ≡ t.silence_work)
unfolding bearing
bearing_refused c now b t e h = ground arith

-- Each bearing with the reason for which it is refused.
unfoldable pub refuse_all : List (Bearing × Errno) → Tracker → Tracker
refuse_all [] t = t
refuse_all ((b, e) ∷ rest) t = refuse_all rest (refuse b e t)

refuse_all_silent :
    (rest : List (Bearing × Errno)) (t : Tracker)
    → t.refusing ≡ true
    → (refuse_all rest t).log ≡ t.log
unfolding refuse_all refuse
refuse_all_silent [] t h = refl
refuse_all_silent ((b, e) ∷ rest) t h = refuse_all_silent rest (refuse b e t) refl ∙ ground arith

refuse-refusals :
    (b : Bearing) (e : Errno) (t : Tracker)
    → (refuse b e t).status.refusals ≡ saturating_inc t.status.refusals
unfolding refuse
refuse-refusals b e t = refl

refuse_all_counts :
    (rest : List (Bearing × Errno)) (t : Tracker)
    → t.status.refusals ≤ u32_max
    → (refuse_all rest t).status.refusals ≡ clamp32 (t.status.refusals + length rest)
unfolding refuse_all
refuse_all_counts [] t h = ground arith
refuse_all_counts ((b, e) ∷ rest) t h =
    ground (arith, refuse-refusals b e t, refuse_all_counts rest (refuse b e t))

-- A run of refusals that begins while bearings are taken writes one log line, for the first of
-- them, and counts them all, up to the largest 32-bit count.
pub one_line_per_run :
    (b : Bearing) (e : Errno) (rest : List (Bearing × Errno)) (t : Tracker)
    → t.refusing ≡ false
    → t.status.refusals ≤ u32_max
    → let t' = refuse_all ((b, e) ∷ rest) t in
      (t'.log ≡ LogLine.refused b e ∷ t.log)
      × (t'.status.refusals ≡ clamp32 (t.status.refusals + suc (length rest)))
unfolding refuse_all refuse
one_line_per_run b e rest t h fits = (
  refuse_all_silent rest (refuse b e t) refl ∙ ground arith,
  refuse_all_counts ((b, e) ∷ rest) t fits,
)
