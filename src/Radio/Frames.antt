-- ===== src/Radio/Frames.antt =====
-- The codec of radio-uhf/src/radio_crypto.c: what it makes of a packet on its way out and in.
pub mod Secrecy
pub mod Replay
pub mod Roundtrip
pub mod Room
use kfsw_modules.Prelude.{
  ℕ, ◌+◌, ◌-◌, ◌%◌, ◌^◌, Bool, true, false, not, ◌&&◌, ◌||◌, Option, none, some, List, [], ◌∷◌,
  ◌++◌, ltb, leb, ◌==◌, if◌then◌else◌, length, get_or, take, drop, u64_max,
}
use kfsw_modules.Errno.{Errno, Ret, ok, err, eacces, eagain, eio, ealready, emsgsize, eoverflow}
use kfsw_modules.Radio.Platform.{Platform}
use kfsw_modules.Radio.Link.{
  Config, Link, Env, Packet, data_frame, hello, reply, frame_header, frame_value, put_header,
  data_header, tag_bytes,
}
use kfsw_modules.Radio.Handshake.{slice, is_none, connect_locked, control_received}

-- decode() returns 0 for a packet to pass on, 1 for one that it consumed, or an error.
pub data Verdict : Type 0 where
  pass : Verdict
  consumed : Verdict
  refused : Errno → Verdict

abbrev pub byte : List ℕ → ℕ → ℕ
byte bytes i = get_or bytes i 0

-- `framed`: at least four bytes, the first of them KR.
abbrev pub is_framed : List ℕ → Bool
is_framed bytes = leb 4 (length bytes) && byte bytes 0 == b'K' && byte bytes 1 == b'R'

abbrev pub is_control : List ℕ → Bool
is_control bytes =
    is_framed bytes
    && byte bytes 2 == 1
    && (byte bytes 3 == frame_value hello || byte bytes 3 == frame_value reply)

-- What decode() asks of a data frame, apart from the key.
abbrev pub is_malformed : List ℕ → Bool
is_malformed bytes =
    not (is_framed bytes)
    || not (byte bytes 2 == 1)
    || not (byte bytes 3 == frame_value data_frame)
    || ltb (length bytes) (data_header + tag_bytes)

-- The header of a data frame, its nonce and its additional data.
abbrev pub frame_start : Platform → ℕ → List ℕ
frame_start p sequence = frame_header data_frame ++ p.be64 sequence

abbrev pub nonce_of : Platform → ℕ → ℕ → List ℕ
nonce_of p sender sequence = p.be32 sender ++ p.be64 sequence

-- 32-bit counters of `status`.
abbrev pub inc32 : ℕ → ℕ
inc32 n = (n + 1) % 2 ^ 32

-- What psa_aead_encrypt leaves in the packet.
put_encrypted : List ℕ → Option (List ℕ) → Packet → Link → Link × Packet × Ret
put_encrypted start none packet l = (record l { last_error = err eio }, packet, err eio)
put_encrypted start (some text) packet l =
    (record l { last_error = ok }, record packet { bytes = start ++ text }, ok)

-- What follows a successful decryption.
accept : ℕ → List ℕ → Packet → Link → Link × Packet × Verdict
accept sequence text packet l =
    if leb sequence l.rx_sequence
    then (record l { replays = inc32 l.replays }, packet, refused ealready)
    else (
      record l { rx_sequence = sequence; authenticated = inc32 l.authenticated },
      record packet { bytes = text },
      pass,
    )

take_decrypted : ℕ → Option (List ℕ) → Packet → Link → Link × Packet × Verdict
unfolding accept
take_decrypted sequence none packet l = (l, packet, refused eacces)
take_decrypted sequence (some text) packet l = accept sequence text packet l

-- The accounting behind the label `done` of decode().
unfoldable pub finish : Link × Packet × Verdict → Link × Packet × Verdict
finish (l, packet, refused e) =
    (record l { rejected = inc32 l.rejected; last_error = err e }, packet, refused e)
finish (l, packet, v) = (l, packet, v)

unfoldable pub control_verdict : Packet → Link × Ret → Link × Packet × Verdict
control_verdict packet (l, ok) = (l, packet, consumed)
control_verdict packet (l, err e) = (l, packet, refused e)

module _ (c : Config) (p : Platform) where
  -- `scratch` behind the header, less the CRC that the codec's caller adds.
  abbrev pub encrypt_room : ℕ
  encrypt_room = c.buffer_size - data_header - 4

  encrypt_with : List ℕ → Packet → Link → Link × Packet × Ret
  unfolding put_encrypted put_header
  encrypt_with key packet l =
      let sequence = l.tx_sequence + 1 in
      let start = frame_start p sequence in
      put_encrypted start
        (p.aead_encrypt key (nonce_of p c.local sequence) (put_header p packet.id ++ start)
          packet.bytes encrypt_room)
        packet (record l { tx_sequence = sequence })

  encode_with : Env → Option (List ℕ) → Packet → Link → Link × Packet × Ret
  unfolding encrypt_with
  encode_with env none packet l =
      (record (connect_locked c p env l).0 { last_error = err eagain }, packet, err eagain)
  encode_with env (some key) packet l =
      if ltb c.payload_max (length packet.bytes)
      then (record l { last_error = err emsgsize }, packet, err emsgsize)
      else if l.tx_sequence == u64_max
      then (record l { last_error = err eoverflow }, packet, err eoverflow)
      else encrypt_with key packet l

  unfoldable pub encode : Env → Packet → Link → Link × Packet × Ret
  unfolding encode_with
  encode env packet l =
      if not l.settings.enabled || not l.settings.tx
      then (record l { last_error = ok }, packet, ok)
      else encode_with env l.tx_key packet l

  decrypt_with : List ℕ → Packet → Link → Link × Packet × Verdict
  unfolding take_decrypted put_header
  decrypt_with key packet l =
      let sequence = p.get_be64 (slice 4 8 packet.bytes) in
      take_decrypted sequence
        (p.aead_decrypt key (nonce_of p c.peer sequence)
          (put_header p packet.id ++ take data_header packet.bytes) (drop data_header packet.bytes)
          c.buffer_size)
        packet l

  decode_with : Option (List ℕ) → Packet → Link → Link × Packet × Verdict
  unfolding decrypt_with
  decode_with none packet l = (l, packet, refused eacces)
  decode_with (some key) packet l =
      if is_malformed packet.bytes then (l, packet, refused eacces) else decrypt_with key packet l

  unfoldable pub decode_plain : Packet → Link → Link × Packet × Verdict
  unfolding decode_with
  decode_plain packet l =
      if not l.settings.enabled || not l.settings.rx
      then (l, packet, if is_framed packet.bytes then refused eacces else pass)
      else decode_with l.rx_key packet l

  unfoldable pub decode : Env → Packet → Link → Link × Packet × Verdict
  unfolding finish control_verdict decode_plain
  decode env packet l = finish (
      if is_control packet.bytes
      then control_verdict packet (control_received c p env packet l)
      else decode_plain packet l)
