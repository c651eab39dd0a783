-- ===== src/Radio/CrashExamples.antt =====
-- A loss of power during a save at concrete inputs, on a disk that forgets what was not synced.
use kfsw_modules.Prelude.{
  ◌≡◌, refl, Bool, true, false, none, some, [], ◌⊎◌, arith, replicate, if◌then◌else◌,
}
use kfsw_modules.Errno.{Errno, ok, err}
use kfsw_modules.Radio.Store.{FileSystem, store_save, file_of}
use kfsw_modules.Radio.Store.Roundtrip.{View}
use kfsw_modules.Radio.Store.Crash.{Durable}
use kfsw_modules.Radio.Store.Cut.{cut}
use kfsw_modules.Radio.Bench.{bench, bench-Laws}
use kfsw_modules.Radio.Disk.{files, Disk, reads_some, write_appends, write_leaves}
use kfsw_modules.Radio.Control.{boot, init}
use kfsw_modules.Radio.Control.Crash.{init-cut_save}
use kfsw_modules.Radio.SettingsExamples.{env, old_settings, new_settings}

-- The bench's disk, and which of its two files have been synced.
record Cached : Type 0 where
  disk : Disk
  synced : Bool
  temp_synced : Bool

abbrev cached : FileSystem Cached
cached = record {
  open_read = λ c. (c, (files.open_read c.disk).1);
  read = λ n c. (c, (files.read n c.disk).1);
  close = λ c. (c, ok);
  open_write = λ c. (record c { disk = (files.open_write c.disk).0; temp_synced = false }, ok);
  write = λ bytes c.
      let (d, n) = files.write bytes c.disk in (record c { disk = d; temp_synced = false }, n);
  sync = λ c. (record c { temp_synced = true }, ok);
  rename = λ c. (record c { disk = (files.rename c.disk).0; synced = c.temp_synced }, ok);
}

-- Of a settings file that was not synced nothing is left.
abbrev power_off : Cached → Cached
power_off c = record c {
  disk = record c.disk { settings = if c.synced then c.disk.settings else some []; temp = [] };
}

cached-View : View cached
cached-View = record {
  settings_file = λ c. c.disk.settings;
  temp_file = λ c. c.disk.temp;
  truncates = λ c h. refl;
  open_write_keeps = λ c. refl;
  writes = λ bytes c h. write_appends bytes c.disk h;
  write_keeps = λ bytes c. write_leaves bytes c.disk;
  sync_temp = λ c. refl;
  sync_keeps = λ c. refl;
  close_temp = λ c. refl;
  close_keeps = λ c. refl;
  replaces = λ c h. refl;
  rename_keeps = λ c e h. absurd (cc);
  open_read_keeps = λ c. refl;
  reads = λ n c bytes content h r. cc (h, r, reads_some n content);
}

power_off-keeps : (c : Cached) → c.synced ≡ true → (power_off c).disk.settings ≡ c.disk.settings
power_off-keeps c h = ground arith

cached-Durable : Durable cached cached-View
unfolding cached-View
cached-Durable = record {
  power_off = power_off;
  synced = λ c. c.synced;
  temp_synced = λ c. c.temp_synced;
  survives = power_off-keeps;
  syncs = λ c h. refl;
  close_keeps_temp = λ c. refl;
  open_write_synced = λ c. refl;
  write_synced = λ bytes c. refl;
  sync_synced = λ c. refl;
  close_synced = λ c. refl;
  rename_moves = λ c h. refl;
  rename_stays = λ c e h. absurd (cc);
}

abbrev held : Cached
held = record {
  disk = record { settings = some (file_of bench old_settings); temp = []; full = false };
  synced = true;
  temp_synced = false;
}

-- The power goes after the sync, before the file is closed.
init-cut_save_example :
    let (x, saved) = store_save bench (cut cached) new_settings (held, 3) in
    let (_, l, result) = init bench cached env ok true boot (power_off x.0) in
    (result ≡ ok)
    × (l.master ≡ (if l.settings.key_set then some l.settings.key else none))
    × (((saved ≡ ok) × (l.settings ≡ new_settings))
        ⊎ ((e : Errno) × (saved ≡ err e) × (l.settings ≡ old_settings)))
unfolding store_save cached-View cached-Durable cut
init-cut_save_example =
    init-cut_save bench cached cached-View cached-Durable env old_settings new_settings held 3
      (replicate 16 3) (file_of bench old_settings) bench-Laws refl refl refl refl refl refl refl
      refl refl
