-- ===== src/Radio/Control.antt =====
-- Start, status and settings of the authenticated link: the functions of
-- radio-uhf/src/radio_crypto.c that the application, the shell and the parameter table call. The
-- disk `D` is the file system's. `settings_lock` makes each settings call one step.
pub mod Crash
pub mod Closed
pub mod Unchanged
pub mod Concurrent
pub mod Changes
pub mod Startup
pub mod Bound
use kfsw_modules.Prelude.{
  ℕ, zero, suc, Bool, true, false, not, ◌&&◌, ◌||◌, Option, none, some, List, [], ◌∷◌, ltb, leb,
  ◌++◌, ◌==◌, if◌then◌else◌, length, replicate, drop,
}
use kfsw_modules.Errno.{Errno, Ret, ok, err, is_ok, einval, eio}
use kfsw_modules.Radio.Platform.{Platform}
use kfsw_modules.Radio.Settings.{Settings}
use kfsw_modules.Radio.Store.{FileSystem, store_load, store_save}
use kfsw_modules.Radio.Link.{
  Link, Env, Random, drawn, no_random, clear_sessions, import_master, never, nonce_bytes,
}
use kfsw_modules.Radio.Handshake.{is_none}

-- KEY_TEXT_LENGTH
abbrev pub key_text_length : ℕ
key_text_length = 64

abbrev pub key_bytes : ℕ
key_bytes = 32

-- struct kfsw_radio_crypto_info
pub record Info : Type 0 where
  pub enabled : Bool
  pub encrypt_tx : Bool
  pub encrypt_rx : Bool
  pub key_set : Bool
  pub tx_ready : Bool
  pub rx_ready : Bool
  pub authenticated : ℕ
  pub rejected : ℕ
  pub replays : ℕ
  pub last_error : Ret

-- kfsw_radio_uhf_crypto_get; `false` is a NULL destination.
unfoldable pub get : Bool → Link → Option Info
get false l = none
get true l = some (record {
  enabled = l.settings.enabled;
  encrypt_tx = l.settings.tx;
  encrypt_rx = l.settings.rx;
  key_set = not (is_none l.master);
  tx_ready = not (is_none l.tx_key);
  rx_ready = not (is_none l.rx_key);
  authenticated = l.authenticated;
  rejected = l.rejected;
  replays = l.replays;
  last_error = l.last_error;
})

-- The static initialisers.
unfoldable pub boot : Link
boot = record {
  settings = record {
    key = replicate key_bytes 0;
    key_set = false;
    enabled = true;
    tx = true;
    rx = true;
  };
  authenticated = 0;
  rejected = 0;
  replays = 0;
  last_error = ok;
  master = none;
  tx_key = none;
  rx_key = none;
  boot_nonce = replicate nonce_bytes 0;
  request_nonce = replicate nonce_bytes 0;
  peer_boot = replicate nonce_bytes 0;
  peer_request = replicate nonce_bytes 0;
  server_nonce = replicate nonce_bytes 0;
  tx_sequence = 0;
  rx_sequence = 0;
  last_request = never;
  last_hello = never;
  initialized = false;
  pending = false;
  sent = [];
}

unfoldable pub validate_switch : ℕ → Ret
validate_switch value = if leb value 1 then ok else err einval

-- `text[0] == '\0'` for a text without its terminator.
abbrev is_empty : List ℕ → Bool
is_empty [] = true
is_empty (_ ∷ _) = false

abbrev is_hex : Option (List ℕ) → Ret
is_hex none = err einval
is_hex (some _) = ok

unfoldable pub validate_key : Platform → List ℕ → Link → Ret
validate_key p text l =
    if not l.initialized && is_empty text
    then ok
    else if not (length text == key_text_length)
    then err einval
    else is_hex (p.hex2bin text key_bytes)

-- What init() does after a load: a missing file is no error, and a stored key is imported.
adopt_loaded : Env → Ret → Option Settings → Link → Link × Ret
unfolding import_master
adopt_loaded env (err Errno.enoent) loaded l =
    if l.settings.key_set then import_master env l else (l, ok)
adopt_loaded env ok (some s) l =
    let l' = record l { settings = s } in if s.key_set then import_master env l' else (l', ok)
adopt_loaded env result loaded l = (l, result)

module _ {D : Type 0} (p : Platform) (fs : FileSystem D) where
  load_settings : Env → Link → D → D × Link × Ret
  unfolding adopt_loaded store_load
  load_settings env l d =
      let (d', result, loaded) = store_load p fs d in
      let (l', result') = adopt_loaded env result loaded l in (d', l', result')

  start : Env → Bool → Random → Link → D → D × Link × Ret
  unfolding load_settings
  start env false (no_random _ _) l d = (d, l, err eio)
  start env false (drawn _) l d = (d, l, err eio)
  start env true (no_random _ left) l d =
      (d, record l { boot_nonce = left ++ drop (length left) l.boot_nonce }, err eio)
  start env true (drawn nonce) l d = load_settings env (record l { boot_nonce = nonce }) d

  -- The accounting at the end of init().
  started : D × Link × Ret → D × Link × Ret
  started (d, l, result) = (d, record l { initialized = true; last_error = result }, result)

  -- kfsw_radio_uhf_crypto_init on the results of kfsw_uart_codec_register and psa_crypto_init.
  unfoldable pub init : Env → Ret → Bool → Link → D → D × Link × Ret
  unfolding start started
  init env (err e) crypto_ok l d = (d, l, err e)
  init env ok crypto_ok l d = started (start env crypto_ok env.fresh l d)

  -- What save_settings() does under the lock when the store has answered.
  install_settings : Env → Settings → Bool → List ℕ → Link → Link × Ret
  unfolding clear_sessions import_master
  install_settings env next changed_key fresh l =
      let l' = clear_sessions (record l { settings = next; boot_nonce = fresh }) in
      if changed_key then import_master env l' else (l', ok)

  settle_save : Env → Settings → Bool → List ℕ → D × Ret → Link → D × Link
  unfolding install_settings
  settle_save env next changed_key fresh (d, err e) l = (d, record l { last_error = err e })
  settle_save env next changed_key fresh (d, ok) l =
      let (l', result) = install_settings env next changed_key fresh l in
      (d, record l' { last_error = result })

  save_with : Env → Random → Settings → Bool → Link → D → D × Link
  unfolding settle_save store_save
  save_with env (no_random e _) next changed_key l d = (d, record l { last_error = err e })
  save_with env (drawn fresh) next changed_key l d =
      settle_save env next changed_key fresh (store_save p fs next d) l

  unfoldable pub save_settings : Env → Settings → Bool → Link → D → D × Link
  unfolding save_with
  save_settings env next changed_key l d = save_with env env.fresh next changed_key l d

  install_key : Env → Option (List ℕ) → Link → D → D × Link
  unfolding save_settings
  install_key env none l d = (d, l)
  install_key env (some key) l d =
      save_settings env (record l.settings { key = key; key_set = true }) true l d

  unfoldable pub set_key : Env → List ℕ → Link → D → D × Link
  unfolding install_key
  set_key env text l d =
      if not l.initialized || not (length text == key_text_length)
      then (d, l)
      else install_key env (p.hex2bin text key_bytes) l d

  -- `next` of set_switch().
  unfoldable pub switched : ℕ → Bool → Settings → Settings
  switched zero value s = record s { enabled = value }
  switched (suc zero) value s = record s { tx = value }
  switched (suc (suc zero)) value s = record s { rx = value }
  switched (suc (suc (suc _))) value s = s

  unfoldable pub set_switch : Env → ℕ → Bool → Link → D → D × Link
  unfolding save_settings switched
  set_switch env which value l d =
      if not l.initialized
      then (d, l)
      else save_settings env (switched which value l.settings) false l d

  unfoldable pub set_enable : Env → ℕ → Link → D → D × Link
  unfolding set_switch
  set_enable env value l d = set_switch env 0 (not (value == 0)) l d

  unfoldable pub set_tx : Env → ℕ → Link → D → D × Link
  unfolding set_switch
  set_tx env value l d = set_switch env 1 (not (value == 0)) l d

  unfoldable pub set_rx : Env → ℕ → Link → D → D × Link
  unfolding set_switch
  set_rx env value l d = set_switch env 2 (not (value == 0)) l d
