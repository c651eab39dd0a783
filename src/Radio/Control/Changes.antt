-- ===== src/Radio/Control/Changes.antt =====
-- A change of the settings while the link runs (`save_settings` and its callers in
-- radio-uhf/src/radio_crypto.c).
use kfsw_modules.Prelude.{
  ℕ, ◌≡◌, refl, ap, ◌∙◌, Bool, true, false, not, ◌&&◌, none, some, List, ◌⊎◌, arith, if◌then◌else◌,
}
use kfsw_modules.Errno.{Errno, Ret, ok, err, einval, eio}
use kfsw_modules.Radio.Platform.{Platform}
use kfsw_modules.Radio.Settings.{Settings}
use kfsw_modules.Radio.Store.{FileSystem, file_of, store_save}
use kfsw_modules.Radio.Store.Roundtrip.{View, save_error_keeps, save_ok_replaces}
use kfsw_modules.Radio.Link.{Link, Env, drawn}
use kfsw_modules.Radio.Control.{validate_key, set_key, install_key, save_settings, settle_save}

-- What the link holds after a change that was saved: the new settings, no session, and the master
-- key that goes with them.
pub record Changed (env : Env) (next : Settings) (changed_key : Bool) (fresh : List ℕ) (l l' : Link)
    : Type 0 where
  pub settings : l'.settings ≡ next
  pub tx_key : l'.tx_key ≡ none
  pub rx_key : l'.rx_key ≡ none
  pub boot_nonce : l'.boot_nonce ≡ fresh
  pub pending : l'.pending ≡ false
  pub master :
      l'.master
      ≡ (if changed_key then (if env.import_ok then some next.key else none) else l.master)
  pub last_error : l'.last_error ≡ (if changed_key && not env.import_ok then err eio else ok)

module _ {D : Type 0} (p : Platform) (fs : FileSystem D) (env : Env) (next : Settings)
    (changed_key : Bool) (l : Link) (d : D) (fresh : List ℕ)
    (random : env.fresh ≡ drawn fresh) where
  settle_save-err :
      (r : D × Ret) (e : Errno)
      → r.1 ≡ err e
      → settle_save p fs env next changed_key fresh r l ≡ (r.0, record l { last_error = err e })
  unfolding settle_save
  settle_save-err r e h = ground arith

  settle_save-Changed :
      (r : D × Ret)
      → r.1 ≡ ok
      → ((settle_save p fs env next changed_key fresh r l).0 ≡ r.0)
        × Changed env next changed_key fresh l (settle_save p fs env next changed_key fresh r l).1
  unfolding settle_save
  settle_save-Changed r h = ground arith

  save_settings-settle :
      save_settings p fs env next changed_key l d
      ≡ settle_save p fs env next changed_key fresh (store_save p fs next d) l
  unfolding save_settings
  save_settings-settle = rw random refl

module _ {D : Type 0} (p : Platform) (fs : FileSystem D) (view : View fs) where
  -- When the nonce was drawn, a change that the store refuses, in whatever call of a file system that
  -- behaves as documented, takes no effect: the settings, the keys, the session and the stored file
  -- stay, and `last_error` tells why.
  pub refused_change_keeps :
      (env : Env) (next : Settings) (changed_key : Bool) (l : Link) (d : D) (fresh : List ℕ)
      (e : Errno)
      → env.fresh ≡ drawn fresh
      → (store_save p fs next d).1 ≡ err e
      → let (d', l') = save_settings p fs env next changed_key l d in
        (l' ≡ record l { last_error = err e }) × (view.settings_file d' ≡ view.settings_file d)
  refused_change_keeps env next changed_key l d fresh e random h =
      rw (save_settings-settle p fs env next changed_key l d fresh random) (
        rw (settle_save-err p fs env next changed_key l d fresh random (store_save p fs next d) e h)
          (refl, save_error_keeps p fs view next d e h))

  -- When the nonce was drawn, a change that is saved on a file system that behaves as documented takes
  -- effect in the link and in the file together: the new settings stand, both sessions end, a fresh
  -- nonce starts the next one, and a changed key is the one imported; a key that cannot be imported
  -- leaves none and is reported.
  pub saved_change_is_installed :
      (env : Env) (next : Settings) (changed_key : Bool) (l : Link) (d : D) (fresh : List ℕ)
      → env.fresh ≡ drawn fresh
      → (store_save p fs next d).1 ≡ ok
      → let (d', l') = save_settings p fs env next changed_key l d in
        Changed env next changed_key fresh l l' × (view.settings_file d' ≡ some (file_of p next))
  saved_change_is_installed env next changed_key l d fresh random h =
      let (disk, changed) =
        settle_save-Changed p fs env next changed_key l d fresh random (store_save p fs next d) h in
      rw (save_settings-settle p fs env next changed_key l d fresh random)
        (changed, ap view.settings_file disk ∙ save_ok_replaces p fs view next d h)

-- What the parameter service validates is what it can set: on a started link a key text that
-- validate_key() accepts decodes to a key, and set_key() saves the settings with that key and
-- nothing else changed; a text that it does not accept changes neither the link nor the disk.
pub set_key-validate_key :
    {D : Type 0} (p : Platform) (fs : FileSystem D) (env : Env) (text : List ℕ) (l : Link) (d : D)
    → l.initialized ≡ true
    → ((validate_key p text l ≡ ok)
        × (key : List ℕ) × (p.hex2bin text 32 ≡ some key)
        × (set_key p fs env text l d
            ≡ save_settings p fs env (record l.settings { key = key; key_set = true }) true l d))
      ⊎ ((validate_key p text l ≡ err einval) × (set_key p fs env text l d ≡ (d, l)))
unfolding validate_key set_key install_key
set_key-validate_key p fs env text l d h = ground arith
