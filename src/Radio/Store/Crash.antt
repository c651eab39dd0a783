-- ===== src/Radio/Store/Crash.antt =====
-- A loss of power while the settings are saved: the store syncs the file that it wrote before it
-- renames it over the settings (radio-uhf/src/radio_crypto_store.c).
use kfsw_modules.Prelude.{
  ℕ, ◌≡◌, refl, ◌∙◌, Bool, true, Option, none, some, List, ◌⊎◌, inl, inr, arith,
}
use kfsw_modules.Errno.{Errno, Ret, ok, err, Ret-cases}
use kfsw_modules.Radio.Platform.{Platform}
use kfsw_modules.Radio.Settings.{Settings}
use kfsw_modules.Radio.Store.{
  FileSystem, file_of, store_save, save_opened, sync_written, rename_closed, first_error,
}
use kfsw_modules.Radio.Store.Roundtrip.{View, save_error_keeps, save_ok_replaces}

-- What a loss of power leaves. A file is sure to keep its content once it has been synced, and a
-- rename moves what was synced and what was not as it is.
pub record Durable {D : Type 0} (fs : FileSystem D) (view : View fs) : Type 0 where
  pub power_off : D → D
  pub synced : D → Bool
  pub temp_synced : D → Bool
  pub survives : (d : D) → synced d ≡ true → view.settings_file (power_off d) ≡ view.settings_file d
  pub syncs : (d : D) → (fs.sync d).1 ≡ ok → temp_synced (fs.sync d).0 ≡ true
  pub close_keeps_temp : (d : D) → temp_synced (fs.close d).0 ≡ temp_synced d
  pub open_write_synced : (d : D) → synced (fs.open_write d).0 ≡ synced d
  pub write_synced : (bytes : List ℕ) (d : D) → synced (fs.write bytes d).0 ≡ synced d
  pub sync_synced : (d : D) → synced (fs.sync d).0 ≡ synced d
  pub close_synced : (d : D) → synced (fs.close d).0 ≡ synced d
  pub rename_moves : (d : D) → (fs.rename d).1 ≡ ok → synced (fs.rename d).0 ≡ temp_synced d
  pub rename_stays :
      (d : D) (e : Errno) → (fs.rename d).1 ≡ err e → synced (fs.rename d).0 ≡ synced d

module _ {D : Type 0} (p : Platform) (fs : FileSystem D) (view : View fs)
    (durable : Durable fs view) where
  sync_written-synced :
      (bytes : List ℕ) (d : D) (n : Option ℕ)
      → (durable.synced (sync_written p fs bytes (d, n)).0 ≡ durable.synced d)
        × ((sync_written p fs bytes (d, n)).1 ≡ ok
            → durable.temp_synced (sync_written p fs bytes (d, n)).0 ≡ true)
  unfolding sync_written
  sync_written-synced bytes d none = (refl, λ h. absurd (cc))
  sync_written-synced bytes d (some n) = ground (arith, durable.sync_synced d, durable.syncs d)

  rename_closed-synced :
      (d : D) (r : Ret)
      → durable.synced d ≡ true
      → (r ≡ ok → durable.temp_synced d ≡ true)
      → durable.synced (rename_closed p fs d r).0 ≡ true
  unfolding rename_closed
  rename_closed-synced d (err e) kept moved = kept
  rename_closed-synced d ok kept moved = elim (Ret-cases (fs.rename d).1) [
    | inl done ↦ durable.rename_moves d done ∙ moved refl
    | inr (e, failed) ↦ durable.rename_stays d e failed ∙ kept
  ]

  first_error-left : (r s : Ret) → first_error r s ≡ ok → r ≡ ok
  first_error-left r s h = ground arith

  save_opened-synced :
      (bytes : List ℕ) (d : D) (r : Ret)
      → durable.synced d ≡ true
      → durable.synced (save_opened p fs bytes (d, r)).0 ≡ true
  unfolding save_opened
  save_opened-synced bytes d (err e) kept = kept
  save_opened-synced bytes d ok kept =
      let (d1, written) = fs.write bytes d in
      let (d2, result) = sync_written p fs bytes (d1, written) in
      let (d3, closed) = fs.close d2 in
      let (still, flushed) = sync_written-synced bytes d1 written in
      rename_closed-synced d3 (first_error result closed)
        (durable.close_synced d2 ∙ still ∙ durable.write_synced bytes d ∙ kept)
        (λ h. durable.close_keeps_temp d2 ∙ flushed (first_error-left result closed h))

  -- Whatever a save returns, the settings file that it leaves is a synced one.
  pub save-synced :
      (s : Settings) (d : D)
      → durable.synced d ≡ true
      → durable.synced (store_save p fs s d).0 ≡ true
  unfolding store_save
  save-synced s d kept =
      save_opened-synced (file_of p s) (fs.open_write d).0 (fs.open_write d).1
        (durable.open_write_synced d ∙ kept)

  -- After a save that was not cut short, power can go: the file holds the new settings if the save
  -- returned 0, and what it held before if not.
  pub save-survives :
      (s : Settings) (d : D)
      → durable.synced d ≡ true
      → let (d', r) = store_save p fs s d in
        ((r ≡ ok) × (view.settings_file (durable.power_off d') ≡ some (file_of p s)))
        ⊎ ((e : Errno) × (r ≡ err e)
            × (view.settings_file (durable.power_off d') ≡ view.settings_file d))
  save-survives s d kept =
      let (d', r) = store_save p fs s d in
      let survived = durable.survives d' (save-synced s d kept) in
      elim (Ret-cases r) [
        | inl done ↦ inl (done, survived ∙ save_ok_replaces p fs view s d done)
        | inr (e, failed) ↦ inr (e, failed, survived ∙ save_error_keeps p fs view s d e failed)
      ]
