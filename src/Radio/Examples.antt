-- ===== src/Radio/Examples.antt =====
-- The authenticated link and its settings at concrete inputs, on the bench platform.
use kfsw_modules.Prelude.{
  ℕ, ◌≤◌, ◌<◌, ◌≡◌, ◌⊎◌, refl, true, some, none, List, [], ◌∷◌, ◌++◌, arith, replicate, u64_max,
  take, drop,
}
use kfsw_modules.Errno.{ok, err, eacces, ealready}
use kfsw_modules.Radio.Settings.{Settings}
use kfsw_modules.Radio.Bench.{bench, bench-Laws}
use kfsw_modules.Radio.Link.{
  Config, Link, Env, Packet, CspId, drawn, put_header, data_header, bytes_eq,
}
use kfsw_modules.Radio.Frames.{pass, refused, frame_start, nonce_of, encrypt_room, encode, decode}
use kfsw_modules.Radio.Frames.Secrecy.{sequence_of, encode_protects, decode_protects}
use kfsw_modules.Radio.Frames.Replay.{Ascending, passed, passed-Ascending, refusal_accounts}
use kfsw_modules.Radio.Frames.Roundtrip.{decode-encode}
use kfsw_modules.Radio.Control.{boot}

abbrev pub ground_side : Config
ground_side = record { local = 10; peer = 1; buffer_size = 256; payload_max = 200 }

abbrev pub space_side : Config
space_side = record { local = 1; peer = 10; buffer_size = 256; payload_max = 200 }

abbrev pub master_key : List ℕ
master_key = replicate 32 7

abbrev pub session_key : List ℕ
session_key = replicate 32 9

abbrev protected : Settings
protected = record { key = master_key; key_set = true; enabled = true; tx = true; rx = true }

abbrev pub env : Env
env = record {
  now = 5000;
  fresh = drawn (replicate 16 3);
  request = drawn (replicate 16 4);
  import_ok = true;
  send_hello = ok;
  send_reply = ok;
}

-- A started link without a session.
abbrev pub idle : Link
idle = record boot {
  settings = protected;
  master = some master_key;
  boot_nonce = replicate 16 1;
  request_nonce = replicate 16 2;
  initialized = true;
}

abbrev pub sender : Link
sender = record idle { tx_key = some session_key; tx_sequence = 4 }

abbrev pub receiver : Link
receiver = record idle { rx_key = some session_key; rx_sequence = 4 }

abbrev pub id : CspId
id = record { src = 10; dst = 1; sport = 20; dport = 7; pri = 2; flags = 0 }

abbrev pub telecommand : Packet
telecommand = record { id = id; bytes = 80 ∷ 73 ∷ 78 ∷ 71 ∷ [] }

encode_protects_example :
    (k : List ℕ) × (text : List ℕ) × (some session_key ≡ some k)
    × (bench.aead_encrypt k
          (nonce_of bench 10 5)
          (put_header bench id ++ frame_start bench 5)
          telecommand.bytes
          (encrypt_room ground_side bench)
        ≡ some text)
    × ((encode ground_side bench env telecommand sender).1
        ≡ record telecommand { bytes = frame_start bench 5 ++ text })
    × ((encode ground_side bench env telecommand sender).0.tx_sequence ≡ 5)
    × (5 ≤ u64_max)
unfolding encode boot
encode_protects_example =
    encode_protects ground_side bench env telecommand sender refl refl refl (omega arith)

-- The frame that the sender makes of the telecommand.
abbrev sent_frame : Packet
unfolding encode boot
sent_frame = (encode ground_side bench env telecommand sender).1

decode_protects_example :
    (k : List ℕ) × (some session_key ≡ some k)
    × (bench.aead_decrypt k
          (nonce_of bench 10 (sequence_of bench sent_frame))
          (put_header bench id ++ take data_header sent_frame.bytes)
          (drop data_header sent_frame.bytes)
          256
        ≡ some (decode space_side bench env sent_frame receiver).1.bytes)
    × (4 < sequence_of bench sent_frame)
    × ((decode space_side bench env sent_frame receiver).0.rx_sequence
        ≡ sequence_of bench sent_frame)
    × ((decode space_side bench env sent_frame receiver).0.rx_key ≡ some session_key)
unfolding decode boot sent_frame bytes_eq
decode_protects_example = decode_protects space_side bench env sent_frame receiver refl refl refl

passed-Ascending_example : Ascending 4 (
    passed space_side bench
      ((env, sent_frame) ∷ (env, telecommand) ∷ (env, sent_frame) ∷ [])
      receiver)
unfolding boot sent_frame
passed-Ascending_example =
    passed-Ascending space_side bench
      ((env, sent_frame) ∷ (env, telecommand) ∷ (env, sent_frame) ∷ []) receiver refl refl refl

-- Only the first of the three packets is passed on.
passed_once :
    passed space_side bench
      ((env, sent_frame) ∷ (env, telecommand) ∷ (env, sent_frame) ∷ [])
      receiver
    ≡ 5 ∷ []
unfolding passed decode boot sent_frame bytes_eq
passed_once = refl

refusal_accounts_example :
    let (l', packet', _) = decode space_side bench env telecommand receiver in
    (l'.rejected ≡ 1)
    × (l'.last_error ≡ err eacces)
    × (packet' ≡ telecommand)
    × (l'.rx_key ≡ some session_key)
    × (l'.rx_sequence ≡ 4)
    × (l'.tx_key ≡ none)
    × (l'.tx_sequence ≡ 0)
    × (l'.authenticated ≡ 0)
    × ((l'.replays ≡ 0)
        ⊎ ((eacces ≡ ealready) × (l'.replays ≡ 1) × (sequence_of bench telecommand ≤ 4)))
unfolding decode boot
refusal_accounts_example =
    refusal_accounts space_side bench env telecommand receiver eacces refl refl

decode-encode_example :
    let (la', frame, _) = encode ground_side bench env telecommand sender in
    let (lb', got, v) = decode space_side bench env frame receiver in
    (v ≡ pass)
    × (got ≡ telecommand)
    × (lb'.rx_sequence ≡ la'.tx_sequence)
    × ((decode space_side bench env frame lb').2 ≡ refused ealready)
unfolding encode boot
decode-encode_example =
    decode-encode ground_side space_side bench env env env telecommand sender receiver bench-Laws
      refl refl refl (omega arith) refl refl refl refl (omega arith) (omega arith)
