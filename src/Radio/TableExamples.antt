-- ===== src/Radio/TableExamples.antt =====
-- The radio's table and shell at concrete inputs.
use kfsw_modules.Prelude.{
  ℕ, ◌<◌, ◌≡◌, ◌≢◌, ◌⊎◌, refl, true, false, none, some, List, ◌∷◌, replicate, length, arith,
}
use kfsw_modules.Errno.{Errno, ok, err}
use kfsw_modules.Params.{u8, u32}
use kfsw_modules.Radio.Bench.{bench}
use kfsw_modules.Radio.Disk.{files, files-View}
use kfsw_modules.Radio.Control.{boot, set_switch}
use kfsw_modules.Radio.Store.{file_of}
use kfsw_modules.Radio.Info.{copy_name, get_info}
use kfsw_modules.Radio.Shell.{holybro}
use kfsw_modules.Radio.SettingsExamples.{env, busy, empty_disk}
use kfsw_modules.Radio.Sampling.{Variables, number, text, Sampler, sampled, key_changed}
use kfsw_modules.Radio.Sampling.Values.{Tells, amount, IsReadable, sampled-Tells}
use kfsw_modules.Radio.Sampling.Switches.{switch_read, switch_read-set_switch}

abbrev variables : Variables
variables = record {
  implementation = replicate 24 0;
  expected_hardware = replicate 24 0;
  expected_baud = 0;
  expected_flow_control = 0;
  status_available = 0;
  link_state = 0;
  key_hex = replicate 65 0;
  crypto_info = none;
}

-- The name is read over a longer one.
name_read :
    (sampled (holybro 57600) busy Sampler.implementation (replicate 24 120) variables).1
    ≡ text (
        b'h'
        ∷ b'o'
        ∷ b'l'
        ∷ b'y'
        ∷ b'b'
        ∷ b'r'
        ∷ b'o'
        ∷ b'-'
        ∷ b's'
        ∷ b'i'
        ∷ b'k'
        ∷ 0
        ∷ replicate 12 120)
unfolding sampled copy_name get_info
name_read = refl

-- A written key does not stay readable.
key_unread :
    (key_changed bench files env (replicate 64 b'a') variables busy empty_disk).0.key_hex
    ≡ replicate 65 0
unfolding key_changed
key_unread = refl

variables-IsReadable : IsReadable (holybro 57600) busy variables
unfolding busy boot
variables-IsReadable = record {
  name = refl;
  expected_hardware = refl;
  baud = omega arith;
  authenticated = omega arith;
  rejected = omega arith;
  replays = omega arith;
  implementation_variable = refl;
  hardware_variable = refl;
}

-- The entry of the rejected frames.
sampled-Tells_example :
    (true ≡ true)
    × ((value : List ℕ)
        → length value ≡ 4
        → Tells u32
            (amount busy.rejected)
            (sampled (holybro 57600) busy Sampler.crypto_rejected value variables).1)
sampled-Tells_example =
    sampled-Tells true (holybro 57600) busy variables 14 _ variables-IsReadable refl

switch_read-set_switch_example :
    let (d', l') = set_switch bench files env 1 false busy empty_disk in
    (((l'.last_error ≡ ok)
        × (switch_read (holybro 57600) l' variables 1 ≡ number u8 0)
        × (d'.settings ≡ some (file_of bench l'.settings)))
      ⊎ ((e : Errno) × (l'.last_error ≡ err e)
          × (switch_read (holybro 57600) l' variables 1
              ≡ switch_read (holybro 57600) busy variables 1)
          × (d'.settings ≡ none)))
    × ((other : ℕ)
        → other < 3
        → 1 ≢ other
        → switch_read (holybro 57600) l' variables other
          ≡ switch_read (holybro 57600) busy variables other)
unfolding busy boot files-View
switch_read-set_switch_example =
    switch_read-set_switch bench files files-View env (holybro 57600) variables busy empty_disk 1
      false refl (omega arith)
