-- ===== src/Radio/SettingsExamples.antt =====
-- The stored settings and their changes at concrete inputs, on the bench platform and its disk.
use kfsw_modules.Prelude.{ℕ, ◌≡◌, ◌≢◌, ◌⊎◌, refl, true, false, none, some, List, [], ◌∷◌, replicate}
use kfsw_modules.Errno.{ok, err, eagain, einval}
use kfsw_modules.Radio.Handshake.Bound.{IsKeyed}
use kfsw_modules.Radio.Runs.{starts, sets_key, sets_switch, encodes, decodes, run, run-IsKeyed}
use kfsw_modules.Radio.Settings.{Settings}
use kfsw_modules.Radio.Bench.{bench, bench-Laws}
use kfsw_modules.Radio.Disk.{files, files-View, Disk}
use kfsw_modules.Radio.Store.{store_save, file_of}
use kfsw_modules.Radio.Link.{Config, Link, Env, Packet, drawn}
use kfsw_modules.Radio.Frames.{pass, encode, decode}
use kfsw_modules.Radio.Control.{boot, validate_key, set_key, set_switch, save_settings, init}
use kfsw_modules.Radio.Control.Concurrent.{switch_among, key_among, changes_atomic}
use kfsw_modules.Radio.Pace.Bound
use kfsw_modules.Radio.Control.Startup.{init-save}
use kfsw_modules.Radio.Control.Changes.{set_key-validate_key}
use kfsw_modules.Radio.Control.Closed.{change_fails_closed}

abbrev config : Config
config = record { local = 10; peer = 1; buffer_size = 256; payload_max = 200 }

abbrev pub old_settings : Settings
old_settings = record { key = replicate 32 7; key_set = true; enabled = true; tx = true; rx = true }

abbrev pub new_settings : Settings
new_settings = record old_settings { key = replicate 32 170; tx = true }

abbrev pub env : Env
env = record {
  now = 5000;
  fresh = drawn (replicate 16 3);
  request = drawn (replicate 16 4);
  import_ok = true;
  send_hello = ok;
  send_reply = ok;
}

-- A link in the middle of a session.
unfoldable pub busy : Link
unfolding boot
busy = record boot {
  settings = old_settings;
  master = some (replicate 32 7);
  tx_key = some (replicate 32 8);
  rx_key = some (replicate 32 9);
  tx_sequence = 4;
  rx_sequence = 6;
  initialized = true;
}

abbrev pub empty_disk : Disk
empty_disk = record { settings = none; temp = []; full = false }

abbrev pub full_disk : Disk
full_disk = record { settings = some (1 ∷ []); temp = 2 ∷ []; full = true }

abbrev packet : Packet
packet = record {
  id = record { src = 10; dst = 1; sport = 20; dport = 7; pri = 2; flags = 0 };
  bytes = 80 ∷ 73 ∷ 78 ∷ 71 ∷ [];
}

-- 64 letters "a", the text of 32 bytes of 0xaa.
abbrev key_text : List ℕ
key_text = replicate 64 b'a'

-- A request, a packet to send and a plain packet that arrives.
abbrev since_change : List (Env × Bound.Traffic)
since_change =
    (env, Bound.connects) ∷ (env, Bound.encodes packet) ∷ (env, Bound.decodes packet) ∷ []

change_fails_closed_example :
    let l' =
      Bound.run config bench since_change
        (save_settings bench files env new_settings true busy empty_disk).1 in
    ((encode config bench env packet l').2 ≡ err eagain)
    × ((encode config bench env packet l').1 ≡ packet)
    × ((decode config bench env packet l').2 ≢ pass)
unfolding store_save files-View
change_fails_closed_example =
    change_fails_closed config bench files files-View env env new_settings true busy empty_disk
      (replicate 16 3) since_change packet refl refl refl refl refl refl

init-save_example :
    let (_, l, result) =
      init bench files env ok true boot (store_save bench files new_settings empty_disk).0 in
    (result ≡ ok)
    × (l.settings ≡ new_settings)
    × (l.master ≡ some (replicate 32 170))
    × (l.boot_nonce ≡ replicate 16 3)
    × (l.initialized ≡ true)
unfolding store_save files-View
init-save_example =
    init-save bench files env new_settings empty_disk (replicate 16 3) (file_of bench new_settings)
      bench-Laws files-View refl refl refl refl refl refl refl

set_key-validate_key_example :
    ((validate_key bench key_text busy ≡ ok)
      × (key : List ℕ) × (bench.hex2bin key_text 32 ≡ some key)
      × (set_key bench files env key_text busy empty_disk
          ≡ save_settings bench files env
              (record busy.settings { key = key; key_set = true })
              true
              busy
              empty_disk))
    ⊎ ((validate_key bench key_text busy ≡ err einval)
        × (set_key bench files env key_text busy empty_disk ≡ (empty_disk, busy)))
unfolding busy
set_key-validate_key_example = set_key-validate_key bench files env key_text busy empty_disk refl

-- A start, a new key, a switch, a packet in each direction.
run-IsKeyed_example :
    IsKeyed config bench
      (run config bench files
        ((env, starts ok true)
          ∷ (env, sets_key key_text)
          ∷ (env, sets_switch 1 false)
          ∷ (env, encodes packet)
          ∷ (env, decodes packet)
          ∷ [])
        (empty_disk, boot)).1
run-IsKeyed_example =
    run-IsKeyed config bench files
      ((env, starts ok true)
        ∷ (env, sets_key key_text)
        ∷ (env, sets_switch 1 false)
        ∷ (env, encodes packet)
        ∷ (env, decodes packet)
        ∷ [])
      empty_disk

-- A packet that leaves and one that arrives while a switch is being stored.
abbrev meanwhile : List (Env × Bound.Traffic)
meanwhile = (env, Bound.encodes packet) ∷ (env, Bound.decodes packet) ∷ []

changes_atomic_example :
    let l' = Bound.run config bench meanwhile busy in
    (switch_among config bench files env 1 false meanwhile busy empty_disk
      ≡ set_switch bench files env 1 false l' empty_disk)
    × (key_among config bench files env key_text meanwhile busy empty_disk
        ≡ set_key bench files env key_text l' empty_disk)
    × (l'.settings ≡ busy.settings)
changes_atomic_example =
    changes_atomic config bench files env 1 false key_text meanwhile busy empty_disk
