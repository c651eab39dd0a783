-- ===== src/Radio/Store.antt =====
-- The stored settings of radio-uhf/src/radio_crypto_store.c: the 44 bytes of the file, and the calls
-- that read and replace it. The buffers that radio_crypto_clear() wipes are not state.
pub mod Crash
pub mod Cut
pub mod Format
pub mod Roundtrip
use kfsw_modules.Prelude.{
  ℕ, ◌+◌, ◌/◌, ◌%◌, Bool, true, false, not, ◌&&◌, ◌||◌, Option, none, some, List, [], ◌∷◌, ◌++◌,
  leb, ◌==◌, if◌then◌else◌, length, get_or, take, drop,
}
use kfsw_modules.Errno.{Errno, Ret, ok, err, ebadmsg, eio}
use kfsw_modules.Radio.Platform.{Platform}
use kfsw_modules.Radio.Settings.{Settings}

-- The calls of Zephyr's file system on the one open file, on a disk `D`: fs_open of SETTINGS_PATH
-- for reading, fs_read, fs_close, fs_open of TEMP_PATH with FS_O_CREATE | FS_O_TRUNC | FS_O_WRITE,
-- fs_write, fs_sync, and fs_rename of TEMP_PATH to SETTINGS_PATH. `none` is an error of a read or a
-- write.
pub record FileSystem (D : Type 0) : Type 0 where
  pub open_read : D → D × Ret
  pub read : ℕ → D → D × Option (List ℕ)
  pub close : D → D × Ret
  pub open_write : D → D × Ret
  pub write : List ℕ → D → D × Option ℕ
  pub sync : D → D × Ret
  pub rename : D → D × Ret

-- SETTINGS_BYTES
abbrev pub settings_bytes : ℕ
settings_bytes = 44

abbrev pub flag : Bool → ℕ → ℕ
flag true bit = bit
flag false bit = 0

-- data[4]
abbrev pub flags_of : Settings → ℕ
flags_of s = flag s.enabled 1 + flag s.tx 2 + flag s.rx 4 + flag s.key_set 8

-- The first 40 bytes of the file.
abbrev pub body_of : Settings → List ℕ
body_of s = b'K' ∷ b'R' ∷ b'U' ∷ b'1' ∷ flags_of s ∷ 0 ∷ 0 ∷ 0 ∷ s.key

unfoldable pub file_of : Platform → Settings → List ℕ
file_of p s = body_of s ++ p.be32 (p.crc32 (body_of s))

-- `(data[4] & bit) != 0`
abbrev pub has_bit : ℕ → ℕ → Bool
has_bit value bit = (value / bit) % 2 == 1

-- What radio_crypto_store_load() rejects of the bytes that it read.
unfoldable pub is_damaged : Platform → List ℕ → Bool
is_damaged p bytes =
    not (length bytes == settings_bytes)
    || not (get_or bytes 0 0 == b'K')
    || not (get_or bytes 1 0 == b'R')
    || not (get_or bytes 2 0 == b'U')
    || not (get_or bytes 3 0 == b'1')
    || not (p.crc32 (take 40 bytes) == p.get_be32 (take 4 (drop 40 bytes)))
    || leb 16 (get_or bytes 4 0)

unfoldable pub settings_in : List ℕ → Settings
settings_in bytes = record {
  key = take 32 (drop 8 bytes);
  key_set = has_bit (get_or bytes 4 0) 8;
  enabled = has_bit (get_or bytes 4 0) 1;
  tx = has_bit (get_or bytes 4 0) 2;
  rx = has_bit (get_or bytes 4 0) 4;
}

-- The result of a load, and the settings if it succeeded.
check_bytes : Platform → Option (List ℕ) → Ret → Ret × Option Settings
check_bytes p none closed = (err ebadmsg, none)
check_bytes p (some bytes) (err e) = (err ebadmsg, none)
check_bytes p (some bytes) ok =
    if is_damaged p bytes then (err ebadmsg, none) else (ok, some (settings_in bytes))

-- The second of two results, if the first is 0.
abbrev pub first_error : Ret → Ret → Ret
first_error ok r = r
first_error (err e) r = err e

module _ {D : Type 0} (p : Platform) (fs : FileSystem D) where
  load_opened : D × Ret → D × Ret × Option Settings
  unfolding check_bytes
  load_opened (d, err e) = (d, err e, none)
  load_opened (d, ok) =
      let (d1, bytes) = fs.read (settings_bytes + 1) d in
      let (d2, closed) = fs.close d1 in
      let (result, settings) = check_bytes p bytes closed in (d2, result, settings)

  -- radio_crypto_store_load
  unfoldable pub store_load : D → D × Ret × Option Settings
  unfolding load_opened
  store_load d = load_opened (fs.open_read d)

  sync_written : List ℕ → D × Option ℕ → D × Ret
  sync_written bytes (d, none) = (d, err eio)
  sync_written bytes (d, some n) = if n == length bytes then fs.sync d else (d, err eio)

  rename_closed : D → Ret → D × Ret
  rename_closed d (err e) = (d, err e)
  rename_closed d ok = fs.rename d

  save_opened : List ℕ → D × Ret → D × Ret
  unfolding sync_written rename_closed
  save_opened bytes (d, err e) = (d, err e)
  save_opened bytes (d, ok) =
      let (d1, result) = sync_written bytes (fs.write bytes d) in
      let (d2, closed) = fs.close d1 in rename_closed d2 (first_error result closed)

  -- radio_crypto_store_save
  unfoldable pub store_save : Settings → D → D × Ret
  unfolding save_opened file_of
  store_save s d = save_opened (file_of p s) (fs.open_write d)
