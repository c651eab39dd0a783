-- ===== src/Radio/Control/Crash.antt =====
-- A change of the settings that a loss of power cuts short, and the restart after it
-- (radio-uhf/src/radio_crypto_store.c, `kfsw_radio_uhf_crypto_init` of
-- radio-uhf/src/radio_crypto.c).
use kfsw_modules.Prelude.{ℕ, ◌≡◌, ◌∙◌, true, none, some, List, ◌⊎◌, inl, inr, length, if◌then◌else◌}
use kfsw_modules.Errno.{Errno, ok, err}
use kfsw_modules.Radio.Platform.{Platform, Laws}
use kfsw_modules.Radio.Settings.{Settings}
use kfsw_modules.Radio.Store.{FileSystem, file_of, store_save}
use kfsw_modules.Radio.Store.Roundtrip.{View}
use kfsw_modules.Radio.Store.Crash.{Durable}
use kfsw_modules.Radio.Store.Cut.{cut, cut_save-survives}
use kfsw_modules.Radio.Link.{Env, drawn}
use kfsw_modules.Radio.Control.{boot, init}
use kfsw_modules.Radio.Control.Startup.{init-file_of}

-- Power can go at any moment of a change of the settings. On a platform and a file system that behave
-- as documented, from a disk that holds the old settings, synced, let a save of new ones lose power
-- after any number of its calls; both keys have 32 bytes. The start of the module on the disk that is
-- left, if the calls that read it, the random numbers and the import of the key succeed, ends with 0
-- and with either the new settings, which is so if the save had returned 0, or with the old ones if
-- not; the master key goes with them. There is no third outcome.
pub init-cut_save :
    {D : Type 0} (p : Platform) (fs : FileSystem D) (view : View fs) (durable : Durable fs view)
    (env : Env) (old next : Settings) (d : D) (calls : ℕ) (nonce bytes : List ℕ)
    → Laws p
    → length old.key ≡ 32
    → length next.key ≡ 32
    → durable.synced d ≡ true
    → view.settings_file d ≡ some (file_of p old)
    → env.fresh ≡ drawn nonce
    → env.import_ok ≡ true
    → let (x, saved) = store_save p (cut fs) next (d, calls) in
      let d' = durable.power_off x.0 in
      (fs.open_read d').1 ≡ ok
      → (fs.read 45 (fs.open_read d').0).1 ≡ some bytes
      → (fs.close (fs.read 45 (fs.open_read d').0).0).1 ≡ ok
      → let (_, l, result) = init p fs env ok true boot d' in
        (result ≡ ok)
        × (l.master ≡ (if l.settings.key_set then some l.settings.key else none))
        × (((saved ≡ ok) × (l.settings ≡ next))
            ⊎ ((e : Errno) × (saved ≡ err e) × (l.settings ≡ old)))
init-cut_save p fs view durable env old next d calls nonce bytes laws old_sized sized synced stored
      random imports o b c =
    let d' = durable.power_off (store_save p (cut fs) next (d, calls)).0.0 in
    elim (cut_save-survives p fs view durable next d calls synced) [
      | inl (done, held) ↦
          let (result, settings, master, _, _) =
            init-file_of p fs env next d' nonce bytes laws view sized held random imports o b c in
          (result, rw settings master, inl (done, settings))
      | inr (e, failed, held) ↦
          let (result, settings, master, _, _) =
            init-file_of p fs env old d' nonce bytes laws view old_sized (held ∙ stored) random
              imports o b c in
          (result, rw settings master, inr (e, failed, settings))
    ]
