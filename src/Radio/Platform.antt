-- ===== src/Radio/Platform.antt =====
-- What the radio calls and does not implement: Zephyr's byte order, CRC and hexadecimal helpers and
-- the PSA cryptography. Bytes are lists of numbers. `none` is a call that did not succeed.
use kfsw_modules.Prelude.{ℕ, ◌+◌, ◌^◌, ◌<◌, ◌≤◌, ◌≡◌, Bool, true, Option, some, List, length}

pub record Platform : Type 0 where
  -- sys_put_be16, sys_put_be32, sys_put_be64, sys_get_be64 and sys_get_be32
  pub be16 : ℕ → List ℕ
  pub be32 : ℕ → List ℕ
  pub be64 : ℕ → List ℕ
  pub get_be64 : List ℕ → ℕ
  pub get_be32 : List ℕ → ℕ
  -- crc32_ieee
  pub crc32 : List ℕ → ℕ
  -- hex2bin of a text, if it fills the buffer of that size
  pub hex2bin : List ℕ → ℕ → Option (List ℕ)
  -- psa_mac_compute and psa_mac_verify: key, message, tag
  pub mac_compute : List ℕ → List ℕ → Option (List ℕ)
  pub mac_verify : List ℕ → List ℕ → List ℕ → Bool
  -- psa_aead_encrypt and psa_aead_decrypt: key, nonce, additional data, text, output capacity
  pub aead_encrypt : List ℕ → List ℕ → List ℕ → List ℕ → ℕ → Option (List ℕ)
  pub aead_decrypt : List ℕ → List ℕ → List ℕ → List ℕ → ℕ → Option (List ℕ)

-- The documented behaviour that the radio relies on: the sizes and inverses of the byte order
-- functions, a tag of 32 bytes that verifies exactly the message it was computed for, and a cipher
-- that adds a tag of 16 bytes, writes no more than the output has room for, and gives back what was
-- encrypted if it fits.
pub record Laws (p : Platform) : Type 0 where
  pub length-be16 : (n : ℕ) → length (p.be16 n) ≡ 2
  pub length-be32 : (n : ℕ) → length (p.be32 n) ≡ 4
  pub length-be64 : (n : ℕ) → length (p.be64 n) ≡ 8
  pub get-be32 : (n : ℕ) → n < 2 ^ 32 → p.get_be32 (p.be32 n) ≡ n
  pub get-be64 : (n : ℕ) → n < 2 ^ 64 → p.get_be64 (p.be64 n) ≡ n
  pub crc32-lt : (m : List ℕ) → p.crc32 m < 2 ^ 32
  pub length-hex2bin : (t b : List ℕ) (n : ℕ) → p.hex2bin t n ≡ some b → length b ≡ n
  pub length-mac : (k m t : List ℕ) → p.mac_compute k m ≡ some t → length t ≡ 32
  pub verify-mac : (k m t : List ℕ) → p.mac_compute k m ≡ some t → p.mac_verify k m t ≡ true
  pub mac-verify : (k m t : List ℕ) → p.mac_verify k m t ≡ true → p.mac_compute k m ≡ some t
  pub length-encrypt :
      (k n a m e : List ℕ) (room : ℕ)
      → p.aead_encrypt k n a m room ≡ some e
      → length e ≡ length m + 16
  pub encrypt-room :
      (k n a m e : List ℕ) (room : ℕ) → p.aead_encrypt k n a m room ≡ some e → length e ≤ room
  pub length-decrypt :
      (k n a e m : List ℕ) (room : ℕ)
      → p.aead_decrypt k n a e room ≡ some m
      → length e ≡ length m + 16
  pub decrypt-encrypt :
      (k n a m e : List ℕ) (room space : ℕ)
      → p.aead_encrypt k n a m room ≡ some e
      → length m ≤ space
      → p.aead_decrypt k n a e space ≡ some m
