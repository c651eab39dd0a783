-- ===== src/Gpredict/Config.antt =====
-- The build-time configuration of pass tracking: gpredict/Kconfig, the limits that
-- gpredict/src/gpredict_internal.h derives, and the build assertions of gpredict/src/gpredict.c.
use kfsw_modules.Prelude.{ℕ, ◌*◌, ◌≤◌, ◌<◌}
use kfsw_modules.Prelude.Int.{ℤ, pos}

-- The CONFIG_KFSW_GPREDICT_* values, none of which may be negative.
pub record Config : Type 0 where
  pub grace_ms : ℕ
  pub park_azimuth_deg : ℕ
  pub park_elevation_deg : ℕ
  pub azimuth_min_deg : ℕ
  pub azimuth_max_deg : ℕ
  pub elevation_min_deg : ℕ
  pub elevation_max_deg : ℕ
  pub profiles : ℕ

abbrev pub grace_min_ms : ℕ
grace_min_ms = 250

abbrev pub grace_max_ms : ℕ
grace_max_ms = 600000

-- Degrees to millidegrees; at most 360000, so no `int32_t` overflows.
abbrev pub mdeg : ℕ → ℤ
mdeg degrees = pos (degrees * 1000)

-- GPREDICT_AZIMUTH_MIN_MDEG and the others: the travel of the rotator.
abbrev pub azimuth_min_mdeg : Config → ℤ
azimuth_min_mdeg c = mdeg c.azimuth_min_deg

abbrev pub azimuth_max_mdeg : Config → ℤ
azimuth_max_mdeg c = mdeg c.azimuth_max_deg

abbrev pub elevation_min_mdeg : Config → ℤ
elevation_min_mdeg c = mdeg c.elevation_min_deg

abbrev pub elevation_max_mdeg : Config → ℤ
elevation_max_mdeg c = mdeg c.elevation_max_deg

-- The BUILD_ASSERT conditions.
pub record IsBuildable (c : Config) : Type 0 where
  pub azimuth_travel : c.azimuth_min_deg < c.azimuth_max_deg
  pub elevation_travel : c.elevation_min_deg < c.elevation_max_deg
  pub park_azimuth_low : c.azimuth_min_deg ≤ c.park_azimuth_deg
  pub park_azimuth_high : c.park_azimuth_deg ≤ c.azimuth_max_deg
  pub park_elevation_low : c.elevation_min_deg ≤ c.park_elevation_deg
  pub park_elevation_high : c.park_elevation_deg ≤ c.elevation_max_deg
  pub grace_low : grace_min_ms ≤ c.grace_ms
  pub grace_high : c.grace_ms ≤ grace_max_ms
