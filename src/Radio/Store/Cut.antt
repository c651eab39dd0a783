-- ===== src/Radio/Store/Cut.antt =====
-- The file system whose power goes (the calls of radio-uhf/src/radio_crypto_store.c on it).
use kfsw_modules.Prelude.{ℕ, zero, suc, ◌≡◌, refl, true, none, some, [], ◌++◌, ◌⊎◌, length, take}
use kfsw_modules.Errno.{Errno, ok, err, eio}
use kfsw_modules.Radio.Platform.{Platform}
use kfsw_modules.Radio.Settings.{Settings}
use kfsw_modules.Radio.Store.{FileSystem, file_of, store_save}
use kfsw_modules.Radio.Store.Roundtrip.{View}
use kfsw_modules.Radio.Store.Crash.{Durable, save-survives}

-- A call that is not made any more when the power has gone.
cut_call : {D A : Type 0} → A → (D → D × A) → D × ℕ → (D × ℕ) × A
cut_call failed call (d, zero) = ((d, zero), failed)
cut_call failed call (d, suc calls) = let (d', result) = call d in ((d', calls), result)

-- The file system whose power goes when a number of calls have been made. Nothing that the code
-- does from then on changes the disk.
unfoldable pub cut : {D : Type 0} → FileSystem D → FileSystem (D × ℕ)
unfolding cut_call
cut fs = record {
  open_read = cut_call (err eio) fs.open_read;
  read = λ n. cut_call none (fs.read n);
  close = cut_call (err eio) fs.close;
  open_write = cut_call (err eio) fs.open_write;
  write = λ bytes. cut_call none (fs.write bytes);
  sync = cut_call (err eio) fs.sync;
  rename = cut_call (err eio) fs.rename;
}

module _ {D A : Type 0} (failed : A) (call : D → D × A) where
  -- What a call leaves as it was stays when the call is not made.
  cut_call-keeps :
      {C : Type 0} (part : D → C) (x : D × ℕ)
      → ((d : D) → part (call d).0 ≡ part d)
      → part (cut_call failed call x).0.0 ≡ part x.0
  unfolding cut_call
  cut_call-keeps part (d, zero) h = refl
  cut_call-keeps part (d, suc n) h = h d

  -- What a call does when it returns `a`, with what holds if it is not made and that looks the same.
  cut_call-made :
      (Q : D → D → Type 0) (a : A) (x : D × ℕ)
      → (failed ≡ a → Q x.0 x.0)
      → ((d : D) → (call d).1 ≡ a → Q d (call d).0)
      → (cut_call failed call x).1 ≡ a
      → Q x.0 (cut_call failed call x).0.0
  unfolding cut_call
  cut_call-made Q a (d, zero) unmade made h = unmade h
  cut_call-made Q a (d, suc n) unmade made h = made d h

module _ {D : Type 0} (fs : FileSystem D) (view : View fs) where
  open view use {settings_file, temp_file}

  cut-View : View (cut fs)
  unfolding cut
  cut-View = record {
    settings_file = λ x. settings_file x.0;
    temp_file = λ x. temp_file x.0;
    truncates = λ x.
        cut_call-made (err eio) fs.open_write (λ _ d'. temp_file d' ≡ []) ok x (λ h. absurd (cc))
          view.truncates;
    open_write_keeps =
        λ x. cut_call-keeps (err eio) fs.open_write settings_file x view.open_write_keeps;
    writes = λ bytes x.
        cut_call-made none (fs.write bytes) (λ d d'. temp_file d' ≡ temp_file d ++ bytes)
          (some (length bytes)) x (λ h. absurd (cc)) (view.writes bytes);
    write_keeps =
        λ bytes x. cut_call-keeps none (fs.write bytes) settings_file x (view.write_keeps bytes);
    sync_temp = λ x. cut_call-keeps (err eio) fs.sync temp_file x view.sync_temp;
    sync_keeps = λ x. cut_call-keeps (err eio) fs.sync settings_file x view.sync_keeps;
    close_temp = λ x. cut_call-keeps (err eio) fs.close temp_file x view.close_temp;
    close_keeps = λ x. cut_call-keeps (err eio) fs.close settings_file x view.close_keeps;
    replaces = λ x.
        cut_call-made (err eio) fs.rename (λ d d'. settings_file d' ≡ some (temp_file d)) ok x
          (λ h. absurd (cc)) view.replaces;
    rename_keeps = λ x e.
        cut_call-made (err eio) fs.rename (λ d d'. settings_file d' ≡ settings_file d) (err e) x
          (λ _. refl) (λ d. view.rename_keeps d e);
    open_read_keeps =
        λ x. cut_call-keeps (err eio) fs.open_read settings_file x view.open_read_keeps;
    reads = λ k x bytes content h r.
        cut_call-made none (fs.read k)
          (λ d _. settings_file d ≡ some content → bytes ≡ take k content) (some bytes) x
          (λ h. absurd (cc)) (λ d r' h'. view.reads k d bytes content h' r') r h;
  }

  cut-Durable : Durable fs view → Durable (cut fs) cut-View
  unfolding cut cut-View
  cut-Durable durable =
      let synced = durable.synced in
      record {
        power_off = λ x. (durable.power_off x.0, x.1);
        synced = λ x. synced x.0;
        temp_synced = λ x. durable.temp_synced x.0;
        survives = λ x. durable.survives x.0;
        syncs = λ x.
            cut_call-made (err eio) fs.sync (λ _ d'. durable.temp_synced d' ≡ true) ok x
              (λ h. absurd (cc)) durable.syncs;
        close_keeps_temp =
            λ x. cut_call-keeps (err eio) fs.close durable.temp_synced x durable.close_keeps_temp;
        open_write_synced =
            λ x. cut_call-keeps (err eio) fs.open_write synced x durable.open_write_synced;
        write_synced =
            λ bytes x. cut_call-keeps none (fs.write bytes) synced x (durable.write_synced bytes);
        sync_synced = λ x. cut_call-keeps (err eio) fs.sync synced x durable.sync_synced;
        close_synced = λ x. cut_call-keeps (err eio) fs.close synced x durable.close_synced;
        rename_moves = λ x.
            cut_call-made (err eio) fs.rename (λ d d'. synced d' ≡ durable.temp_synced d) ok x
              (λ h. absurd (cc)) durable.rename_moves;
        rename_stays = λ x e.
            cut_call-made (err eio) fs.rename (λ d d'. synced d' ≡ synced d) (err e) x (λ _. refl)
              (λ d. durable.rename_stays d e);
      }

-- A save whose power goes after any number of the calls that it makes, on a platform and a file
-- system that behave as documented and a disk whose settings file has been synced: the power back,
-- the file is the one with the new settings if the save had returned 0, and the old one if not.
pub cut_save-survives :
    {D : Type 0} (p : Platform) (fs : FileSystem D) (view : View fs) (durable : Durable fs view)
    (s : Settings) (d : D) (calls : ℕ)
    → durable.synced d ≡ true
    → let (x, r) = store_save p (cut fs) s (d, calls) in
      ((r ≡ ok) × (view.settings_file (durable.power_off x.0) ≡ some (file_of p s)))
      ⊎ ((e : Errno) × (r ≡ err e)
          × (view.settings_file (durable.power_off x.0) ≡ view.settings_file d))
unfolding cut-View cut-Durable
cut_save-survives p fs view durable s d calls =
    save-survives p (cut fs) (cut-View fs view) (cut-Durable fs view durable) s (d, calls)
