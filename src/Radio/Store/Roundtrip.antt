-- ===== src/Radio/Store/Roundtrip.antt =====
-- What was saved is what is loaded (radio-uhf/src/radio_crypto_store.c).
use kfsw_modules.Prelude.{
  ℕ, ◌≡◌, refl, ap, ◌∙◌, false, some, none, Option, List, [], ◌++◌, arith, length, take, take-all,
}
use kfsw_modules.Errno.{Errno, Ret, ok, err}
use kfsw_modules.Radio.Platform.{Platform, Laws}
use kfsw_modules.Radio.Settings.{Settings}
use kfsw_modules.Radio.Store.{
  FileSystem, file_of, is_damaged, settings_in, store_load, store_save, save_opened, load_opened,
  check_bytes, sync_written, rename_closed, first_error,
}
use kfsw_modules.Radio.Store.Format.{length-file_of, file-intact, settings_in-file_of}

-- The file system as the store relies on it: the contents of the two files, which only the calls
-- that are meant to change them change. A rename replaces the settings as a whole or not at all.
pub record View {D : Type 0} (fs : FileSystem D) : Type 0 where
  pub settings_file : D → Option (List ℕ)
  pub temp_file : D → List ℕ
  pub truncates : (d : D) → (fs.open_write d).1 ≡ ok → temp_file (fs.open_write d).0 ≡ []
  pub open_write_keeps : (d : D) → settings_file (fs.open_write d).0 ≡ settings_file d
  pub writes :
      (bytes : List ℕ) (d : D)
      → (fs.write bytes d).1 ≡ some (length bytes)
      → temp_file (fs.write bytes d).0 ≡ temp_file d ++ bytes
  pub write_keeps : (bytes : List ℕ) (d : D) → settings_file (fs.write bytes d).0 ≡ settings_file d
  pub sync_temp : (d : D) → temp_file (fs.sync d).0 ≡ temp_file d
  pub sync_keeps : (d : D) → settings_file (fs.sync d).0 ≡ settings_file d
  pub close_temp : (d : D) → temp_file (fs.close d).0 ≡ temp_file d
  pub close_keeps : (d : D) → settings_file (fs.close d).0 ≡ settings_file d
  pub replaces : (d : D) → (fs.rename d).1 ≡ ok → settings_file (fs.rename d).0 ≡ some (temp_file d)
  pub rename_keeps :
      (d : D) (e : Errno)
      → (fs.rename d).1 ≡ err e
      → settings_file (fs.rename d).0 ≡ settings_file d
  pub open_read_keeps : (d : D) → settings_file (fs.open_read d).0 ≡ settings_file d
  pub reads :
      (n : ℕ) (d : D) (bytes content : List ℕ)
      → settings_file d ≡ some content
      → (fs.read n d).1 ≡ some bytes
      → bytes ≡ take n content

module _ {D : Type 0} (p : Platform) (fs : FileSystem D) (view : View fs) where
  rename_closed-keeps :
      (d : D) (r : Ret) (e : Errno)
      → (rename_closed p fs d r).1 ≡ err e
      → view.settings_file (rename_closed p fs d r).0 ≡ view.settings_file d
  unfolding rename_closed
  rename_closed-keeps d ok e h = view.rename_keeps d e h
  rename_closed-keeps d (err x) e h = refl

  rename_closed-replaces :
      (d : D) (r : Ret)
      → (rename_closed p fs d r).1 ≡ ok
      → (r ≡ ok) × (view.settings_file (rename_closed p fs d r).0 ≡ some (view.temp_file d))
  unfolding rename_closed
  rename_closed-replaces d ok h = (refl, view.replaces d h)
  rename_closed-replaces d (err x) h = absurd (cc)

  sync_written-keeps :
      (bytes : List ℕ) (d : D) (n : Option ℕ)
      → view.settings_file (sync_written p fs bytes (d, n)).0 ≡ view.settings_file d
  unfolding sync_written
  sync_written-keeps bytes d none = refl
  sync_written-keeps bytes d (some n) = ground (arith, view.sync_keeps d)

  sync_written-temp :
      (bytes : List ℕ) (d : D) (n : Option ℕ)
      → (sync_written p fs bytes (d, n)).1 ≡ ok
      → (n ≡ some (length bytes))
        × (view.temp_file (sync_written p fs bytes (d, n)).0 ≡ view.temp_file d)
  unfolding sync_written
  sync_written-temp bytes d none h = absurd (cc)
  sync_written-temp bytes d (some n) h = ground (arith, view.sync_temp d)

  first_error-ok : (r s : Ret) → first_error r s ≡ ok → (r ≡ ok) × (s ≡ ok)
  first_error-ok r s h = ground arith

  -- The disk when the file has been written and closed, and the result so far.
  abbrev after_write : List ℕ → D → D × Ret
  after_write bytes d = sync_written p fs bytes (fs.write bytes d)

  abbrev after_close : List ℕ → D → D × Ret
  after_close bytes d = fs.close (after_write bytes d).0

  close-keeps :
      (bytes : List ℕ) (d : D) → view.settings_file (after_close bytes d).0 ≡ view.settings_file d
  close-keeps bytes d =
      view.close_keeps (after_write bytes d).0
      ∙ sync_written-keeps bytes (fs.write bytes d).0 (fs.write bytes d).1
      ∙ view.write_keeps bytes d

  save_opened-keeps :
      (bytes : List ℕ) (d : D) (r : Ret) (e : Errno)
      → (save_opened p fs bytes (d, r)).1 ≡ err e
      → view.settings_file (save_opened p fs bytes (d, r)).0 ≡ view.settings_file d
  unfolding save_opened
  save_opened-keeps bytes d (err x) e h = refl
  save_opened-keeps bytes d ok e h =
      rename_closed-keeps (after_close bytes d).0
        (first_error (after_write bytes d).1 (after_close bytes d).1) e h
      ∙ close-keeps bytes d

  save_opened-replaces :
      (bytes : List ℕ) (d : D) (r : Ret)
      → view.temp_file d ≡ []
      → (save_opened p fs bytes (d, r)).1 ≡ ok
      → view.settings_file (save_opened p fs bytes (d, r)).0 ≡ some bytes
  unfolding save_opened
  save_opened-replaces bytes d (err x) empty h = absurd (cc)
  save_opened-replaces bytes d ok empty h =
      let (both, replaced) =
        rename_closed-replaces (after_close bytes d).0
          (first_error (after_write bytes d).1 (after_close bytes d).1) h in
      let (wrote, closed) = first_error-ok (after_write bytes d).1 (after_close bytes d).1 both in
      let (whole, temp) = sync_written-temp bytes (fs.write bytes d).0 (fs.write bytes d).1 wrote in
      let content : view.temp_file (after_close bytes d).0 ≡ bytes =
        view.close_temp (after_write bytes d).0
        ∙ temp
        ∙ view.writes bytes d whole
        ∙ ap (λ (t : List ℕ). t ++ bytes) empty in
      replaced ∙ ap some content

  -- A save that fails, in whatever call, leaves the stored settings as they were.
  pub save_error_keeps :
      (s : Settings) (d : D) (e : Errno)
      → (store_save p fs s d).1 ≡ err e
      → view.settings_file (store_save p fs s d).0 ≡ view.settings_file d
  unfolding store_save
  save_error_keeps s d e h =
      save_opened-keeps (file_of p s) (fs.open_write d).0 (fs.open_write d).1 e h
      ∙ view.open_write_keeps d

  save_opened-ok :
      (bytes : List ℕ) (d : D) (r : Ret) → (save_opened p fs bytes (d, r)).1 ≡ ok → r ≡ ok
  unfolding save_opened
  save_opened-ok bytes d ok h = refl
  save_opened-ok bytes d (err x) h = h

  pub save_ok_replaces :
      (s : Settings) (d : D)
      → (store_save p fs s d).1 ≡ ok
      → view.settings_file (store_save p fs s d).0 ≡ some (file_of p s)
  unfolding store_save
  save_ok_replaces s d h =
      save_opened-replaces (file_of p s) (fs.open_write d).0 (fs.open_write d).1
        (view.truncates d (save_opened-ok (file_of p s) (fs.open_write d).0 (fs.open_write d).1 h))
        h

  load_opened-ok :
      (d : D) (r : Ret) (bytes : List ℕ)
      → r ≡ ok
      → (fs.read 45 d).1 ≡ some bytes
      → (fs.close (fs.read 45 d).0).1 ≡ ok
      → is_damaged p bytes ≡ false
      → ((load_opened p fs (d, r)).1 ≡ ok)
        × ((load_opened p fs (d, r)).2 ≡ some (settings_in bytes))
  unfolding load_opened
  load_opened-ok d ok bytes o b c intact =
      rw (b, check_bytes) (rw (c, check_bytes) (rw intact (refl, refl)))
  load_opened-ok d (err e) bytes o b c intact = absurd (cc)

-- On a platform and a file system that behave as documented, a load of a file that holds what a save
-- of a 32-byte key and its switches writes yields exactly these settings, if its calls succeed.
pub load-file_of :
    {D : Type 0} (p : Platform) (fs : FileSystem D) (s : Settings) (d : D) (bytes : List ℕ)
    → Laws p
    → (view : View fs) → length s.key ≡ 32
    → view.settings_file d ≡ some (file_of p s)
    → (fs.open_read d).1 ≡ ok
    → (fs.read 45 (fs.open_read d).0).1 ≡ some bytes
    → (fs.close (fs.read 45 (fs.open_read d).0).0).1 ≡ ok
    → let (_, result, loaded) = store_load p fs d in (result ≡ ok) × (loaded ≡ some s)
unfolding store_load
load-file_of p fs s d bytes laws view sized stored o b c =
    let whole : bytes ≡ file_of p s =
      view.reads 45 (fs.open_read d).0 bytes (file_of p s) (view.open_read_keeps d ∙ stored) b
      ∙ take-all 45 (file_of p s) (omega (arith, length-file_of p laws s sized)) in
    let intact = ap (is_damaged p) whole ∙ file-intact p laws s sized in
    let (result, loaded) =
      load_opened-ok p fs view (fs.open_read d).0 (fs.open_read d).1 bytes o b c intact in
    (result, loaded ∙ ap some (ap settings_in whole ∙ settings_in-file_of p laws s sized))
