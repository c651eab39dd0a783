-- ===== src/Radio/Disk.antt =====
-- A disk of two files that behaves as the store of the settings (radio-uhf/src/radio_crypto_store.c) is
-- told it does, small enough to run. It can be full.
use kfsw_modules.Prelude.{
  ℕ, ◌≡◌, refl, Bool, Option, none, some, List, [], ◌++◌, arith, if◌then◌else◌, length, take,
}
use kfsw_modules.Errno.{Ret, ok, err, enoent}
use kfsw_modules.Radio.Store.{FileSystem}
use kfsw_modules.Radio.Store.Roundtrip.{View}

-- The settings file, the file beside it, and whether the disk takes no more bytes.
pub record Disk : Type 0 where
  pub settings : Option (List ℕ)
  pub temp : List ℕ
  pub full : Bool

abbrev present : Option (List ℕ) → Ret
present none = err enoent
present (some _) = ok

abbrev taken : ℕ → Option (List ℕ) → Option (List ℕ)
taken n none = none
taken n (some bytes) = some (take n bytes)

abbrev pub files : FileSystem Disk
files = record {
  open_read = λ d. (d, present d.settings);
  read = λ n d. (d, taken n d.settings);
  close = λ d. (d, ok);
  open_write = λ d. (record d { temp = [] }, ok);
  write = λ bytes d.
      if d.full then (d, none) else (record d { temp = d.temp ++ bytes }, some (length bytes));
  sync = λ d. (d, ok);
  rename = λ d. (record d { settings = some d.temp; temp = [] }, ok);
}

pub reads_some : (n : ℕ) (content : List ℕ) → taken n (some content) ≡ some (take n content)
reads_some n content = refl

pub write_appends :
    (bytes : List ℕ) (d : Disk)
    → (files.write bytes d).1 ≡ some (length bytes)
    → (files.write bytes d).0.temp ≡ d.temp ++ bytes
write_appends bytes d h = ground arith

pub write_leaves : (bytes : List ℕ) (d : Disk) → (files.write bytes d).0.settings ≡ d.settings
write_leaves bytes d = ground arith

unfoldable pub files-View : View files
files-View = record {
  settings_file = λ d. d.settings;
  temp_file = λ d. d.temp;
  truncates = λ d h. refl;
  open_write_keeps = λ d. refl;
  writes = write_appends;
  write_keeps = write_leaves;
  sync_temp = λ d. refl;
  sync_keeps = λ d. refl;
  close_temp = λ d. refl;
  close_keeps = λ d. refl;
  replaces = λ d h. refl;
  rename_keeps = λ d e h. absurd (cc);
  open_read_keeps = λ d. refl;
  reads = λ n d bytes content h r. cc (h, r, reads_some n content);
}
