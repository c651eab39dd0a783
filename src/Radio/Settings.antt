-- ===== src/Radio/Settings.antt =====
-- The settings of the authenticated link: struct radio_crypto_settings of
-- radio-uhf/src/radio_crypto_internal.h.
use kfsw_modules.Prelude.{ℕ, Bool, List}

pub record Settings : Type 0 where
  pub key : List ℕ
  pub key_set : Bool
  pub enabled : Bool
  pub tx : Bool
  pub rx : Bool
