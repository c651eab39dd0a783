-- ===== src/Radio/Bench.antt =====
-- A platform that behaves as the radio (radio-uhf/src/) is told it does, small enough to run: sums in
-- place of the CRC and the tags, and no secrecy.
use kfsw_modules.Prelude.{
  ℕ, zero, suc, ◌∙◌, ◌+◌, ◌-◌, ◌*◌, ◌/◌, ◌%◌, ◌<◌, ◌≤◌, ◌≡◌, refl, sym, ap, true, ◌&&◌, Option,
  none, some, List, [], ◌∷◌, ◌++◌, arith, leb, ◌==◌, if◌then◌else◌, length, take, drop, replicate,
  length-append, take-append_exact, drop-append_exact,
}
use kfsw_modules.Radio.Platform.{Platform, Laws}
use kfsw_modules.Radio.Link.{bytes_eq}
use kfsw_modules.Radio.Handshake.Agreement.{bytes_eq_sound, bytes_eq_refl}

abbrev sum : List ℕ → ℕ
sum [] = 0
sum (x ∷ xs) = x + sum xs

abbrev pub be16 : ℕ → List ℕ
be16 n = (n / 256) % 256 ∷ n % 256 ∷ []

abbrev pub be32 : ℕ → List ℕ
be32 n = (n / 16777216) % 256 ∷ (n / 65536) % 256 ∷ be16 n

abbrev pub be64 : ℕ → List ℕ
be64 n = be32 (n / 4294967296) ++ be32 n

abbrev get_be_from : ℕ → List ℕ → ℕ
get_be_from acc [] = acc
get_be_from acc (x ∷ xs) = get_be_from (256 * acc + x) xs

abbrev checksum : List ℕ → ℕ
checksum m = sum m % 4294967296

abbrev tag : ℕ → List ℕ → List ℕ
tag pad m = replicate pad 0 ++ be32 (sum m)

abbrev pub hex_digit : ℕ → Option ℕ
hex_digit c =
    if leb 48 c && leb c 57
    then some (c - 48)
    else if leb 97 c && leb c 102
    then some (c - 87)
    else if leb 65 c && leb c 70
    then some (c - 55)
    else none

abbrev pair : Option ℕ → Option ℕ → Option (List ℕ) → Option (List ℕ)
pair (some a) (some b) (some rest) = some ((16 * a + b) ∷ rest)
pair _ _ _ = none

abbrev hex_bytes : List ℕ → Option (List ℕ)
hex_bytes [] = some []
hex_bytes (_ ∷ []) = none
hex_bytes (a ∷ b ∷ rest) = pair (hex_digit a) (hex_digit b) (hex_bytes rest)

abbrev sized : Option (List ℕ) → ℕ → Option (List ℕ)
sized none n = none
sized (some bytes) n = if length bytes == n then some bytes else none

abbrev open_with : List ℕ → List ℕ → List ℕ → ℕ → Option (List ℕ)
open_with m found expected room =
    if leb (length m) room && bytes_eq found expected then some m else none

abbrev pub bench : Platform
bench = record {
  be16 = be16;
  be32 = be32;
  be64 = be64;
  get_be64 = get_be_from 0;
  get_be32 = get_be_from 0;
  crc32 = checksum;
  hex2bin = λ text n. sized (hex_bytes text) n;
  mac_compute = λ k m. some (tag 28 (k ++ m));
  mac_verify = λ k m t. bytes_eq t (tag 28 (k ++ m));
  aead_encrypt = λ k n a m room.
      if leb (length m + 16) room then some (m ++ tag 12 (k ++ (n ++ (a ++ m)))) else none;
  aead_decrypt = λ k n a e room.
      open_with (take (length e - 16) e) (drop (length e - 16) e)
        (tag 12 (k ++ (n ++ (a ++ take (length e - 16) e)))) room;
}

get-be32 : (n : ℕ) → n < 4294967296 → get_be_from 0 (be32 n) ≡ n
get-be32 n h = omega arith

get-be64 : (n : ℕ) → n < 18446744073709551616 → get_be_from 0 (be64 n) ≡ n
get-be64 n h = omega arith

sized-length : (o : Option (List ℕ)) (b : List ℕ) (n : ℕ) → sized o n ≡ some b → length b ≡ n
sized-length none b n h = ground arith
sized-length (some bytes) b n h = ground arith

module _ (m t : List ℕ) (long : length t ≡ 16) where
  body_length : length (m ++ t) - 16 ≡ length m
  body_length = omega (arith, length-append m t)

  open_with-sealed :
      (f : List ℕ → List ℕ) (room : ℕ)
      → length m ≤ room
      → f m ≡ t
      → open_with
          (take (length (m ++ t) - 16) (m ++ t))
          (drop (length (m ++ t) - 16) (m ++ t))
          (f (take (length (m ++ t) - 16) (m ++ t)))
          room
        ≡ some m
  open_with-sealed f room fits same = rw body_length (
      rw (take-append_exact (length m) m t refl)
        (rw (drop-append_exact (length m) m t refl) (rw same (ground (arith, bytes_eq_refl t)))))

some-inj : (a b : List ℕ) → some a ≡ some b → a ≡ b
some-inj a b h = cc

verify-same : (x t : List ℕ) → some x ≡ some t → bytes_eq t x ≡ true
verify-same x t h = rw (some-inj x t h) (bytes_eq_refl t)

encrypted :
    (m t e : List ℕ) (room : ℕ)
    → (if leb (length m + 16) room then some (m ++ t) else none) ≡ some e
    → m ++ t ≡ e
encrypted m t e room h = ground arith

length-take-drop : (n : ℕ) (xs : List ℕ) → length (take n xs) + length (drop n xs) ≡ length xs
length-take-drop zero xs = omega arith
length-take-drop (suc n) [] = refl
length-take-drop (suc n) (x ∷ xs) = omega (arith, length-take-drop n xs)

open_with-length :
    (body found expected m : List ℕ) (room : ℕ)
    → length expected ≡ 16
    → open_with body found expected room ≡ some m
    → (length found ≡ 16) × (length body ≡ length m)
open_with-length body found expected m room sized h =
    let same : found ≡ expected = bytes_eq_sound found expected (ground arith) in
    (ap length same ∙ sized, ground arith)

opened :
    (e m : List ℕ) (f : List ℕ → List ℕ) (room : ℕ)
    → length (f (take (length e - 16) e)) ≡ 16
    → open_with (take (length e - 16) e) (drop (length e - 16) e) (f (take (length e - 16) e)) room
      ≡ some m
    → length e ≡ length m + 16
opened e m f room sized h =
    let (tag_bytes, text_bytes) =
      open_with-length (take (length e - 16) e) (drop (length e - 16) e)
        (f (take (length e - 16) e)) m room sized h in
    omega (arith, length-take-drop (length e - 16) e)

within :
    (m t e : List ℕ) (room : ℕ)
    → length t ≡ 16
    → (if leb (length m + 16) room then some (m ++ t) else none) ≡ some e
    → length e ≤ room
within m t e room sized h = ground (arith, length-append m t)

pub bench-Laws : Laws bench
bench-Laws = record {
  length-be16 = λ n. refl;
  length-be32 = λ n. refl;
  length-be64 = λ n. refl;
  get-be32 = get-be32;
  get-be64 = get-be64;
  crc32-lt = λ m. omega arith;
  length-hex2bin = λ t b n h. sized-length (hex_bytes t) b n h;
  length-mac = λ k m t h. ap length (sym (some-inj (tag 28 (k ++ m)) t h));
  verify-mac = λ k m t h. verify-same (tag 28 (k ++ m)) t h;
  mac-verify = λ k m t h. ap some (sym (bytes_eq_sound t (tag 28 (k ++ m)) h));
  length-encrypt = λ k n a m e room h.
      rw (← encrypted m (tag 12 (k ++ (n ++ (a ++ m)))) e room h)
        (length-append m (tag 12 (k ++ (n ++ (a ++ m)))));
  encrypt-room = λ k n a m e room h. within m (tag 12 (k ++ (n ++ (a ++ m)))) e room refl h;
  length-decrypt = λ k n a e m room h. opened e m (λ x. tag 12 (k ++ (n ++ (a ++ x)))) room refl h;
  decrypt-encrypt = λ k n a m e room space h fits.
      rw (← encrypted m (tag 12 (k ++ (n ++ (a ++ m)))) e room h) (
        open_with-sealed m (tag 12 (k ++ (n ++ (a ++ m)))) refl (λ x. tag 12 (k ++ (n ++ (a ++ x))))
          space fits refl);
}

pub bench_encrypts :
    (k n a m : List ℕ) (room : ℕ)
    → length m + 16 ≤ room
    → (e : List ℕ) × (bench.aead_encrypt k n a m room ≡ some e)
bench_encrypts k n a m room h = (m ++ tag 12 (k ++ (n ++ (a ++ m))), ground arith)
