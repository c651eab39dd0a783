-- ===== src/Radio/Control/Bound.antt =====
-- What the start and the setters do to the inbound key (radio-uhf/src/radio_crypto.c).
use kfsw_modules.Prelude.{
  ℕ, ◌≡◌, refl, Bool, true, false, not, Option, none, some, List, arith, if◌then◌else◌, ◌⊎◌, inl,
  inr,
}
use kfsw_modules.Errno.{Ret, ok, err}
use kfsw_modules.Radio.Platform.{Platform}
use kfsw_modules.Radio.Settings.{Settings}
use kfsw_modules.Radio.Store.{FileSystem, store_save, store_load}
use kfsw_modules.Radio.Link.{
  Config, Link, Env, Random, drawn, no_random, clear_sessions, import_master,
}
use kfsw_modules.Radio.Handshake.Bound.{SameKeys, IsKeyed, IsKeyed-SameKeys, keyless-IsKeyed}
use kfsw_modules.Radio.Control.{
  init, start, started, load_settings, adopt_loaded, save_settings, save_with, settle_save,
  install_settings, set_key, install_key, set_switch, switched, key_bytes,
}

module _ (c : Config) (p : Platform) where
  import_master-IsKeyed : (env : Env) (l : Link) → IsKeyed c p (import_master env l).0
  unfolding import_master clear_sessions
  import_master-IsKeyed env l = keyless-IsKeyed c p (import_master env l).0 (ground arith)

  adopt_loaded-cases :
      (env : Env) (result : Ret) (loaded : Option Settings) (l : Link)
      → ((adopt_loaded env result loaded l).0.rx_key ≡ none)
        ⊎ SameKeys l (adopt_loaded env result loaded l).0
  unfolding adopt_loaded import_master clear_sessions
  adopt_loaded-cases env result loaded l = ground arith

  adopt_loaded-IsKeyed :
      (env : Env) (result : Ret) (loaded : Option Settings) (l : Link)
      → IsKeyed c p l
      → IsKeyed c p (adopt_loaded env result loaded l).0
  adopt_loaded-IsKeyed env result loaded l h = elim (adopt_loaded-cases env result loaded l) [
    | inl ended ↦ keyless-IsKeyed c p _ ended
    | inr same ↦ IsKeyed-SameKeys c p same h
  ]

  install_settings-IsKeyed :
      {D : Type 0} (fs : FileSystem D) (env : Env) (next : Settings) (changed_key : Bool)
      (fresh : List ℕ) (l : Link)
      → IsKeyed c p (install_settings p fs env next changed_key fresh l).0
  unfolding install_settings clear_sessions
  install_settings-IsKeyed fs env next true fresh l =
      import_master-IsKeyed env (clear_sessions (record l { settings = next; boot_nonce = fresh }))
  install_settings-IsKeyed fs env next false fresh l =
      keyless-IsKeyed c p (clear_sessions (record l { settings = next; boot_nonce = fresh })) refl

module _ {D : Type 0} (c : Config) (p : Platform) (fs : FileSystem D) where
  settle_save-IsKeyed :
      (env : Env) (next : Settings) (changed_key : Bool) (fresh : List ℕ) (q : D × Ret) (l : Link)
      → IsKeyed c p l
      → IsKeyed c p (settle_save p fs env next changed_key fresh q l).1
  unfolding settle_save
  settle_save-IsKeyed env next changed_key fresh (d, err e) l h = record { key = h.key }
  settle_save-IsKeyed env next changed_key fresh (d, ok) l h = record {
    key = (install_settings-IsKeyed c p fs env next changed_key fresh l).key;
  }

  save_settings-IsKeyed :
      (env : Env) (next : Settings) (changed_key : Bool) (l : Link) (d : D)
      → IsKeyed c p l
      → IsKeyed c p (save_settings p fs env next changed_key l d).1
  unfolding save_settings save_with
  save_settings-IsKeyed env next changed_key l d h = go env.fresh
    where
      go : (r : Random) → IsKeyed c p (save_with p fs env r next changed_key l d).1
      go (no_random e left) = record { key = h.key }
      go (drawn fresh) = settle_save-IsKeyed env next changed_key fresh (store_save p fs next d) l h

  pub set_key-IsKeyed :
      (env : Env) (text : List ℕ) (l : Link) (d : D)
      → IsKeyed c p l
      → IsKeyed c p (set_key p fs env text l d).1
  unfolding set_key install_key
  set_key-IsKeyed env text l d h = go _ (p.hex2bin text key_bytes)
    where
      go :
          (b : Bool) (o : Option (List ℕ))
          → IsKeyed c p (if b then (d, l) else install_key p fs env o l d).1
      go true o = h
      go false none = h
      go false (some key) = save_settings-IsKeyed env _ true l d h

  pub set_switch-IsKeyed :
      (env : Env) (which : ℕ) (value : Bool) (l : Link) (d : D)
      → IsKeyed c p l
      → IsKeyed c p (set_switch p fs env which value l d).1
  unfolding set_switch
  set_switch-IsKeyed env which value l d h = go (not l.initialized)
    where
      go :
          (b : Bool)
          → IsKeyed c p
              (if b
                then (d, l)
                else save_settings p fs env (switched p fs which value l.settings) false l d).1
      go true = h
      go false = save_settings-IsKeyed env _ false l d h

  start-IsKeyed :
      (env : Env) (crypto_ok : Bool) (r : Random) (l : Link) (d : D)
      → IsKeyed c p l
      → IsKeyed c p (start p fs env crypto_ok r l d).1
  unfolding start load_settings
  start-IsKeyed env false (no_random e left) l d h = h
  start-IsKeyed env true (no_random e left) l d h = record { key = h.key }
  start-IsKeyed env false (drawn nonce) l d h = h
  start-IsKeyed env true (drawn nonce) l d h =
      adopt_loaded-IsKeyed c p env (store_load p fs d).1 (store_load p fs d).2
        (record l { boot_nonce = nonce }) (record { key = h.key })

  pub init-IsKeyed :
      (env : Env) (registered : Ret) (crypto_ok : Bool) (l : Link) (d : D)
      → IsKeyed c p l
      → IsKeyed c p (init p fs env registered crypto_ok l d).1
  unfolding init started
  init-IsKeyed env (err e) crypto_ok l d h = h
  init-IsKeyed env ok crypto_ok l d h = record {
    key = (start-IsKeyed env crypto_ok env.fresh l d h).key;
  }
