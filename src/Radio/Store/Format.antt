-- ===== src/Radio/Store/Format.antt =====
-- The bytes of the settings file: what is written reads back as it was
-- (radio-uhf/src/radio_crypto_store.c).
use mathlib.Core.List.{append-nil}
use kfsw_modules.Prelude.{
  ℕ, ◌<◌, ◌≡◌, refl, sym, ap, ◌∙◌, false, List, [], arith, length, take, drop, get_or,
  take-append_exact, drop-append_exact, length-append,
}
use kfsw_modules.Radio.Platform.{Platform, Laws}
use kfsw_modules.Radio.Settings.{Settings}
use kfsw_modules.Radio.Store.{flags_of, body_of, file_of, has_bit, is_damaged, settings_in}

-- The flags fit four bits and give back each of the settings.
flags-bits :
    (s : Settings)
    → (flags_of s < 16)
      × (has_bit (flags_of s) 1 ≡ s.enabled)
      × (has_bit (flags_of s) 2 ≡ s.tx)
      × (has_bit (flags_of s) 4 ≡ s.rx)
      × (has_bit (flags_of s) 8 ≡ s.key_set)
flags-bits s = ground arith

module _ (p : Platform) (laws : Laws p) (s : Settings) (sized : length s.key ≡ 32) where
  pub length-file_of : length (file_of p s) ≡ 44
  unfolding file_of
  length-file_of = omega (
    arith,
    length-append s.key (p.be32 (p.crc32 (body_of s))),
    laws.length-be32 (p.crc32 (body_of s)),
  )

  abbrev checksum : List ℕ
  checksum = p.be32 (p.crc32 (body_of s))

  body-file_of : take 40 (file_of p s) ≡ body_of s
  unfolding file_of
  body-file_of = take-append_exact 40 (body_of s) checksum (omega arith)

  checksum-file_of : p.get_be32 (take 4 (drop 40 (file_of p s))) ≡ p.crc32 (body_of s)
  unfolding file_of
  checksum-file_of = rw (drop-append_exact 40 (body_of s) checksum (omega arith)) (
      ap p.get_be32 (
        ap (take 4) (sym (append-nil checksum))
        ∙ take-append_exact 4 checksum [] (laws.length-be32 (p.crc32 (body_of s))))
      ∙ laws.get-be32 (p.crc32 (body_of s)) (laws.crc32-lt (body_of s)))

  crc-file_of : p.crc32 (take 40 (file_of p s)) ≡ p.get_be32 (take 4 (drop 40 (file_of p s)))
  crc-file_of = ap p.crc32 body-file_of ∙ sym checksum-file_of

  head-file_of :
      (get_or (file_of p s) 0 0 ≡ b'K')
      × (get_or (file_of p s) 1 0 ≡ b'R')
      × (get_or (file_of p s) 2 0 ≡ b'U')
      × (get_or (file_of p s) 3 0 ≡ b'1')
      × (get_or (file_of p s) 4 0 ≡ flags_of s)
  unfolding file_of
  head-file_of = (refl, refl, refl, refl, refl)

  pub file-intact : is_damaged p (file_of p s) ≡ false
  unfolding is_damaged
  file-intact = ground (arith, length-file_of, crc-file_of, head-file_of, flags-bits s)

  -- The format gives back the settings.
  pub settings_in-file_of : settings_in (file_of p s) ≡ s
  unfolding settings_in file_of
  settings_in-file_of = ground (arith, flags-bits s, take-append_exact 32 s.key checksum sized)
