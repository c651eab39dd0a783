-- ===== src/Gpredict/Tracker/Invariant.antt =====
-- What holds of the tracker (gpredict/src/gpredict.c) between two calls.
use kfsw_modules.Prelude.{◌≤◌, ◌<◌, ◌≡◌, ◌≢◌, ◌⊎◌, true, none, some, List, [], ◌∷◌, arith, u32_max}
use kfsw_modules.Gpredict.Config.{Config, IsBuildable, grace_min_ms, grace_max_ms}
use kfsw_modules.Gpredict.Tracker.{Tracker, is_live, within_travel, boot}
use kfsw_modules.Gpredict.Tracker.Steps.{
  Call, starts, offers, refuses, tunes, parks, clears, reads, sets_grace, wakes, rotator_parked,
  rotator_failed, resets, step, run,
}

pub record Inv (c : Config) (t : Tracker) : Type 0 where
  pub bearings_fit : t.status.bearings ≤ u32_max
  pub refusals_fit : t.status.refusals ≤ u32_max
  pub passes_fit : t.status.passes_ended ≤ t.status.bearings
  pub faults_fit : t.status.faults ≤ u32_max
  pub grace_low : grace_min_ms ≤ t.status.grace_ms
  pub grace_high : t.status.grace_ms ≤ grace_max_ms
  pub live_watched : is_live t.status.state ≡ true → t.silence_work ≢ none
  pub live_seen : is_live t.status.state ≡ true → t.bearing_seen ≡ true
  pub live_counted :
      is_live t.status.state ≡ true
      → (t.status.passes_ended < t.status.bearings) ⊎ (t.status.bearings ≡ u32_max)
  pub aimed_within :
      t.bearing_seen ≡ true
      → within_travel c (record {
        azimuth_mdeg = t.status.azimuth_mdeg;
        elevation_mdeg = t.status.elevation_mdeg;
      })
        ≡ true

step-Inv : (c : Config) (k : Call) (t : Tracker) → IsBuildable c → Inv c t → Inv c (step c k t)
unfolding step
step-Inv c starts t b h = ground arith
step-Inv c (offers now none) t b h = ground arith
step-Inv c (offers now (some x)) t b h = ground arith
step-Inv c (refuses x e) t b h = ground arith
step-Inv c (tunes hz) t b h = ground arith
step-Inv c parks t b h = ground arith
step-Inv c clears t b h = ground arith
step-Inv c (reads now dest) t b h = ground arith
step-Inv c (sets_grace ms) t b h = ground arith
step-Inv c (wakes now) t b h = ground arith
step-Inv c rotator_parked t b h = ground arith
step-Inv c rotator_failed t b h = ground arith
step-Inv c resets t b h = ground arith

run_from-Inv :
    (c : Config) (ks : List Call) (t : Tracker) → IsBuildable c → Inv c t → Inv c (run c ks t)
unfolding run
run_from-Inv c [] t b h = h
run_from-Inv c (k ∷ ks) t b h = run_from-Inv c ks (step c k t) b (step-Inv c k t b h)

boot-Inv : (c : Config) → IsBuildable c → Inv c (boot c)
unfolding boot
boot-Inv c b = ground arith

-- From the static initialisers, with a configuration that passes the build assertions and whatever
-- calls are made in whatever order: the counters fit 32 bits, no more passes have ended than
-- bearings were accepted, the grace period is one that an operator could set, a live pass has seen
-- a bearing and has its silence work pending, and the last accepted bearing is inside the travel.
pub run-Inv : (c : Config) (ks : List Call) → IsBuildable c → Inv c (run c ks (boot c))
run-Inv c ks b = run_from-Inv c ks (boot c) b (boot-Inv c b)
