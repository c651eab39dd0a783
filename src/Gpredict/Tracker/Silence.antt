-- ===== src/Gpredict/Tracker/Silence.antt =====
-- How a pass ends: the grace period, the silence work and the states between
-- (`gpredict_silence_check` and `kfsw_gpredict_bearing` of gpredict/src/gpredict.c).
use kfsw_modules.Prelude.{
  ℕ, ◌+◌, ◌-◌, ◌≤◌, ◌<◌, ◌≡◌, ◌≢◌, true, none, some, arith, u32_max, saturating_inc, ap, ◌∙◌,
}
use kfsw_modules.Errno.{ok}
use kfsw_modules.Gpredict.Config.{Config}
use kfsw_modules.Gpredict.Machine.{State}
use kfsw_modules.Gpredict.Tracker.{Bearing, Tracker, within_travel, silence_work_handler, bearing}

-- A tracker that follows a pass: its last bearing arrived at `seen` and the grace period fits.
pub record IsFollowing (seen : ℕ) (t : Tracker) : Type 0 where
  pub state : t.status.state ≡ State.tracking
  pub at : t.last_bearing_ms ≡ seen
  pub heard : t.bearing_seen ≡ true
  pub grace : t.status.grace_ms ≤ u32_max

-- An accepted bearing, in any state but parking and fault, starts or resumes a pass that is
-- followed from that moment, with the silence work due after one grace period.
pub bearing-IsFollowing :
    (c : Config) (now : ℕ) (b : Bearing) (t : Tracker)
    → within_travel c b ≡ true
    → t.status.state ≢ State.parking
    → t.status.state ≢ State.fault
    → t.status.grace_ms ≤ u32_max
    → ((bearing c now (some b) t).1 ≡ ok)
      × IsFollowing now (bearing c now (some b) t).0
      × ((bearing c now (some b) t).0.silence_work ≡ some t.status.grace_ms)
      × ((bearing c now (some b) t).0.status.passes_ended ≡ t.status.passes_ended)
unfolding bearing
bearing-IsFollowing c now b t w p f g = ground arith

-- Waking before the grace period is over, while a pass is followed, changes no state and asks to be
-- woken when exactly one grace period has passed since the bearing.
pub wake_early :
    (c : Config) (seen now : ℕ) (t : Tracker)
    → IsFollowing seen t
    → seen ≤ now
    → now < seen + t.status.grace_ms
    → (silence_work_handler c now t
        ≡ record t { silence_work = some (seen + t.status.grace_ms - now) })
unfolding silence_work_handler
wake_early c seen now t f a b = ground arith

-- What a silence that a wake finds does to the rest of the tracker.
pub record Moved (seen : ℕ) (from t : Tracker) : Type 0 where
  pub at : t.last_bearing_ms ≡ seen
  pub heard : t.bearing_seen ≡ true
  pub grace : t.status.grace_ms ≡ from.status.grace_ms
  pub azimuth : t.status.azimuth_mdeg ≡ from.status.azimuth_mdeg
  pub elevation : t.status.elevation_mdeg ≡ from.status.elevation_mdeg

module _ (c : Config) (seen now : ℕ) (t : Tracker) (seen_at : t.last_bearing_ms ≡ seen) where
  module _ (heard : t.bearing_seen ≡ true) (fits : t.status.grace_ms ≤ u32_max) where
    module _ (due : seen + t.status.grace_ms ≤ now) where
      pub wake_tracking :
          t.status.state ≡ State.tracking
          → let held = silence_work_handler c now t in
            Moved seen t held
            × (held.status.state ≡ State.holding)
            × (held.silence_work ≡ some t.status.grace_ms)
            × (held.status.passes_ended ≡ t.status.passes_ended)
      unfolding silence_work_handler
      wake_tracking s = ground arith

      pub wake_holding :
          t.status.state ≡ State.holding
          → let done = silence_work_handler c now t in
            Moved seen t done
            × (done.status.state ≡ State.parking)
            × (done.silence_work ≡ none)
            × (done.status.passes_ended ≡ saturating_inc t.status.passes_ended)
      unfolding silence_work_handler
      wake_holding s = ground arith

-- A pass whose bearings stop ends in two wakes. The first, no earlier than one grace period after
-- the last bearing, holds the antenna and asks to be woken after one more grace period; the second,
-- no earlier than the first, leaves for the park position, counts one ended pass and asks for no
-- further wake. The commanded bearing stays the last one throughout.
pub pass_ends :
    (c : Config) (seen now later : ℕ) (t : Tracker)
    → IsFollowing seen t
    → seen + t.status.grace_ms ≤ now
    → now ≤ later
    → let held = silence_work_handler c now t in
      let done = silence_work_handler c later held in
      (held.status.state ≡ State.holding)
      × (held.silence_work ≡ some t.status.grace_ms)
      × (held.status.passes_ended ≡ t.status.passes_ended)
      × (done.status.state ≡ State.parking)
      × (done.silence_work ≡ none)
      × (done.status.passes_ended ≡ saturating_inc t.status.passes_ended)
      × (done.status.azimuth_mdeg ≡ t.status.azimuth_mdeg)
      × (done.status.elevation_mdeg ≡ t.status.elevation_mdeg)
pass_ends c seen now later t f due after =
    let held = silence_work_handler c now t in
    let (m, h, w, p) = wake_tracking c seen now t f.at f.heard f.grace due f.state in
    let (n, d, x, q) =
      wake_holding c seen later held m.at m.heard (omega (arith, m.grace, f.grace))
        (omega (arith, m.grace)) h in
    (h, w, p, d, x, q ∙ ap saturating_inc p, n.azimuth ∙ m.azimuth, n.elevation ∙ m.elevation)
