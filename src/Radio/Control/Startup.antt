-- ===== src/Radio/Control/Startup.antt =====
-- The start of the module on settings that were stored (`kfsw_radio_uhf_crypto_init` of
-- radio-uhf/src/radio_crypto.c).
use kfsw_modules.Prelude.{
  ℕ, ◌≡◌, refl, ◌∙◌, true, Option, none, some, List, arith, length, if◌then◌else◌,
}
use kfsw_modules.Errno.{Ret, ok}
use kfsw_modules.Radio.Platform.{Platform, Laws}
use kfsw_modules.Radio.Settings.{Settings}
use kfsw_modules.Radio.Store.{FileSystem, file_of, store_save, store_load}
use kfsw_modules.Radio.Store.Roundtrip.{View, save_ok_replaces, load-file_of}
use kfsw_modules.Radio.Link.{Link, Env, drawn}
use kfsw_modules.Radio.Control.{boot, load_settings, adopt_loaded, start, started, init}

adopt_loaded-Adopted :
    (env : Env) (result : Ret) (loaded : Option Settings) (next : Settings) (l : Link)
    → result ≡ ok
    → loaded ≡ some next
    → env.import_ok ≡ true
    → l.master ≡ none
    → let (l', r) = adopt_loaded env result loaded l in
      (r ≡ ok)
      × (l'.settings ≡ next)
      × (l'.master ≡ (if next.key_set then some next.key else none))
      × (l'.boot_nonce ≡ l.boot_nonce)
unfolding adopt_loaded
adopt_loaded-Adopted env result loaded next l r s i m = ground arith

module _ {D : Type 0} (p : Platform) (fs : FileSystem D) (env : Env) where
  init-load_settings :
      (nonce : List ℕ) (l : Link) (d : D)
      → env.fresh ≡ drawn nonce
      → init p fs env ok true l d
        ≡ started p fs (load_settings p fs env (record l { boot_nonce = nonce }) d)
  unfolding init start
  init-load_settings nonce l d h = rw h refl

  started-Adopted :
      (next : Settings) (nonce : List ℕ) (l : Link) (d : D)
      → (store_load p fs d).1 ≡ ok
      → (store_load p fs d).2 ≡ some next
      → env.import_ok ≡ true
      → l.master ≡ none
      → l.boot_nonce ≡ nonce
      → let (_, l', result) = started p fs (load_settings p fs env l d) in
        (result ≡ ok)
        × (l'.settings ≡ next)
        × (l'.master ≡ (if next.key_set then some next.key else none))
        × (l'.boot_nonce ≡ nonce)
        × (l'.initialized ≡ true)
  unfolding started load_settings
  started-Adopted next nonce l d r s i m b =
      let (_, result, loaded) = store_load p fs d in
      let (zero_result, settings, master, kept) =
        adopt_loaded-Adopted env result loaded next l r s i m in
      (zero_result, settings, master, kept ∙ b, refl)

-- The start of the module on a disk that holds saved settings, if the calls that read it, the random
-- numbers and the import of the key succeed, ends with 0 and with exactly these settings.
pub init-file_of :
    {D : Type 0} (p : Platform) (fs : FileSystem D) (env : Env) (next : Settings) (d : D)
    (nonce bytes : List ℕ)
    → Laws p
    → (view : View fs) → length next.key ≡ 32
    → view.settings_file d ≡ some (file_of p next)
    → env.fresh ≡ drawn nonce
    → env.import_ok ≡ true
    → (fs.open_read d).1 ≡ ok
    → (fs.read 45 (fs.open_read d).0).1 ≡ some bytes
    → (fs.close (fs.read 45 (fs.open_read d).0).0).1 ≡ ok
    → let (_, l, result) = init p fs env ok true boot d in
      (result ≡ ok)
      × (l.settings ≡ next)
      × (l.master ≡ (if next.key_set then some next.key else none))
      × (l.boot_nonce ≡ nonce)
      × (l.initialized ≡ true)
unfolding boot
init-file_of p fs env next d nonce bytes laws view sized stored random imports o b c =
    let (result, loaded) = load-file_of p fs next d bytes laws view sized stored o b c in
    rw (init-load_settings p fs env nonce boot d random) (
      started-Adopted p fs env next nonce (record boot { boot_nonce = nonce }) d result loaded
        imports refl refl)

-- The settings outlive a restart: after a save of a 32-byte key and its switches that succeeded, on
-- a platform and a file system that behave as documented, the start of the module on that disk, if
-- the calls that read it, the random numbers and the import of the key succeed, ends with 0 and
-- with exactly the saved settings, the master key imported if one was set.
pub init-save :
    {D : Type 0} (p : Platform) (fs : FileSystem D) (env : Env) (next : Settings) (d : D)
    (nonce bytes : List ℕ)
    → Laws p
    → View fs
    → length next.key ≡ 32
    → (store_save p fs next d).1 ≡ ok
    → env.fresh ≡ drawn nonce
    → env.import_ok ≡ true
    → let d' = (store_save p fs next d).0 in
      (fs.open_read d').1 ≡ ok
      → (fs.read 45 (fs.open_read d').0).1 ≡ some bytes
      → (fs.close (fs.read 45 (fs.open_read d').0).0).1 ≡ ok
      → let (_, l, result) = init p fs env ok true boot d' in
        (result ≡ ok)
        × (l.settings ≡ next)
        × (l.master ≡ (if next.key_set then some next.key else none))
        × (l.boot_nonce ≡ nonce)
        × (l.initialized ≡ true)
init-save p fs env next d nonce bytes laws view sized saved random imports =
    init-file_of p fs env next (store_save p fs next d).0 nonce bytes laws view sized
      (save_ok_replaces p fs view next d saved) random imports
