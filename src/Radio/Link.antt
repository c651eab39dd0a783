-- ===== src/Radio/Link.antt =====
-- The state of the authenticated link of radio-uhf/src/radio_crypto.c, and what its functions share.
-- A function that runs under `crypto_lock` is one step on the record of the static variables. A key slot holds the key's material,
-- `none` for the null handle. The bytes of a packet are its first `length` data bytes.
use kfsw_modules.Prelude.{
  ℕ, suc, ◌+◌, Bool, true, false, ◌&&◌, Option, none, some, List, [], ◌∷◌, ◌++◌, ltb, ◌==◌,
  if◌then◌else◌,
}
use kfsw_modules.Prelude.Int.{ℤ, pos, negsuc}
use kfsw_modules.Errno.{Errno, Ret, ok, err, eio}
use kfsw_modules.Radio.Platform.{Platform}
use kfsw_modules.Radio.Settings.{Settings}

-- CONFIG_KFSW_CSP_ADDRESS, CONFIG_KFSW_CSP_UART_PEER_ADDRESS, CSP_BUFFER_SIZE and
-- KFSW_CSP_PAYLOAD_MAX.
pub record Config : Type 0 where
  pub local : ℕ
  pub peer : ℕ
  pub buffer_size : ℕ
  pub payload_max : ℕ

abbrev pub nonce_bytes : ℕ
nonce_bytes = 16

abbrev pub mac_bytes : ℕ
mac_bytes = 32

abbrev pub tag_bytes : ℕ
tag_bytes = 16

abbrev pub data_header : ℕ
data_header = 12

abbrev pub hello_bytes : ℕ
hello_bytes = 68

abbrev pub reply_bytes : ℕ
reply_bytes = 84

abbrev pub retry_ms : ℕ
retry_ms = 1000

-- enum frame_type
pub data FrameType : Type 0 where
  data_frame hello reply : FrameType

abbrev pub frame_value : FrameType → ℕ
frame_value data_frame = 0
frame_value hello = 1
frame_value reply = 2

-- csp_id_t
pub record CspId : Type 0 where
  pub src : ℕ
  pub dst : ℕ
  pub sport : ℕ
  pub dport : ℕ
  pub pri : ℕ
  pub flags : ℕ

-- csp_packet_t
pub record Packet : Type 0 where
  pub id : CspId
  pub bytes : List ℕ

-- The static variables, with the fields of `status` that the file writes, and the control frames
-- handed to kfsw_uart_codec_control, newest first.
pub record Link : Type 0 where
  pub settings : Settings
  pub authenticated : ℕ
  pub rejected : ℕ
  pub replays : ℕ
  pub last_error : Ret
  pub master : Option (List ℕ)
  pub tx_key : Option (List ℕ)
  pub rx_key : Option (List ℕ)
  pub boot_nonce : List ℕ
  pub request_nonce : List ℕ
  pub peer_boot : List ℕ
  pub peer_request : List ℕ
  pub server_nonce : List ℕ
  pub tx_sequence : ℕ
  pub rx_sequence : ℕ
  pub last_request : ℤ
  pub last_hello : ℤ
  pub initialized : Bool
  pub pending : Bool
  pub sent : List (List ℕ)

-- What radio_random() yields: the bytes, or its result and the bytes that it had written by then.
pub data Random : Type 0 where
  drawn : List ℕ → Random
  no_random : Errno → List ℕ → Random

-- What the calls that one entry point makes outside the module will return: k_uptime_get, the two
-- places that draw a nonce, psa_import_key, and kfsw_uart_codec_control for each kind of frame. One
-- reading of the clock stands for the two that hello_received() and the connect_locked() behind it
-- take, under one lock.
pub record Env : Type 0 where
  pub now : ℕ
  pub fresh : Random
  pub request : Random
  pub import_ok : Bool
  pub send_hello : Ret
  pub send_reply : Ret

-- memcmp(a, b, n) == 0 on buffers of one size
unfoldable pub bytes_eq : List ℕ → List ℕ → Bool
bytes_eq [] [] = true
bytes_eq [] (y ∷ ys) = false
bytes_eq (x ∷ xs) [] = false
bytes_eq (x ∷ xs) (y ∷ ys) = x == y && bytes_eq xs ys

-- `now - last < RETRY_MS`
abbrev pub too_soon : ℕ → ℤ → Bool
too_soon now (pos last) = ltb now (last + retry_ms)
too_soon now (negsuc m) = ltb (now + suc m) retry_ms

abbrev pub never : ℤ
never = negsuc 999

unfoldable pub clear_sessions : Link → Link
clear_sessions l = record l {
  tx_key = none;
  rx_key = none;
  tx_sequence = 0;
  rx_sequence = 0;
  pending = false;
  last_request = never;
  last_hello = never;
}

unfoldable pub import_master : Env → Link → Link × Ret
unfolding clear_sessions
import_master env l =
    let l' = record (clear_sessions l) { master = none } in
    if env.import_ok then (record l' { master = some l.settings.key }, ok) else (l', err eio)

abbrev pub frame_header : FrameType → List ℕ
frame_header type = b'K' ∷ b'R' ∷ 1 ∷ frame_value type ∷ []

-- The bytes of `label` with the terminator that sizeof counts.
abbrev pub label : List ℕ
label =
    b'K' ∷ b'F' ∷ b'S' ∷ b'W' ∷ b' ' ∷ b'U' ∷ b'H' ∷ b'F' ∷ b' ' ∷ b's' ∷ b'e' ∷ b's' ∷ b's' ∷ b'i'
    ∷ b'o' ∷ b'n' ∷ b' ' ∷ b'v' ∷ b'1' ∷ 0 ∷ []

-- A key slot with the null handle computes and verifies nothing.
abbrev pub mac_with : Platform → Option (List ℕ) → List ℕ → Option (List ℕ)
mac_with p none m = none
mac_with p (some k) m = p.mac_compute k m

abbrev pub verify_with : Platform → Option (List ℕ) → List ℕ → List ℕ → Bool
verify_with p none m t = false
verify_with p (some k) m t = p.mac_verify k m t

unfoldable pub put_header : Platform → CspId → List ℕ
put_header p id = p.be16 id.src ++ p.be16 id.dst ++ id.sport ∷ id.dport ∷ id.pri ∷ id.flags ∷ []
