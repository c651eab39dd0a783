-- ===== src/Radio/Frames/Secrecy.antt =====
-- What the codec lets out and in (`encode` and `decode` of radio-uhf/src/radio_crypto.c).
use kfsw_modules.Prelude.{
  ℕ, ◌+◌, ◌≤◌, ◌<◌, ◌≡◌, ◌≢◌, Bool-cases, inl, inr, true, false, some, List, ◌++◌, arith, take,
  drop, none, u64_max,
}
use kfsw_modules.Errno.{ok, err, eagain}
use kfsw_modules.Radio.Platform.{Platform}
use kfsw_modules.Radio.Link.{Config, Link, Env, Packet, put_header, data_header}
use kfsw_modules.Radio.Handshake.{slice}
use kfsw_modules.Radio.Frames.{
  Verdict, pass, is_control, frame_start, nonce_of, encrypt_room, finish, decode_plain, encode,
  decode,
}

-- The sequence number that a data frame carries.
abbrev pub sequence_of : Platform → Packet → ℕ
sequence_of p packet = p.get_be64 (slice 4 8 packet.bytes)

-- With protection of transmitted packets on and a counter of 64 bits, a packet leaves only
-- encrypted: if encode() returns 0 there is a session key, the bytes are the header with the next
-- sequence number and the ciphertext under that number's nonce, and the number is used up without
-- wrapping.
pub encode_protects :
    (c : Config) (p : Platform) (env : Env) (packet : Packet) (l : Link)
    → l.settings.enabled ≡ true
    → l.settings.tx ≡ true
    → (encode c p env packet l).2 ≡ ok
    → l.tx_sequence ≤ u64_max
    → (k : List ℕ) × (text : List ℕ) × (l.tx_key ≡ some k)
      × (p.aead_encrypt k
            (nonce_of p c.local (l.tx_sequence + 1))
            (put_header p packet.id ++ frame_start p (l.tx_sequence + 1))
            packet.bytes
            (encrypt_room c p)
          ≡ some text)
      × ((encode c p env packet l).1
          ≡ record packet { bytes = frame_start p (l.tx_sequence + 1) ++ text })
      × ((encode c p env packet l).0.tx_sequence ≡ l.tx_sequence + 1)
      × (l.tx_sequence + 1 ≤ u64_max)
unfolding encode
encode_protects c p env packet l on tx h fits = ground arith

-- Without a session key encode() sends nothing.
pub encode_keyless :
    (c : Config) (p : Platform) (env : Env) (packet : Packet) (l : Link)
    → l.settings.enabled ≡ true
    → l.settings.tx ≡ true
    → l.tx_key ≡ none
    → ((encode c p env packet l).2 ≡ err eagain) × ((encode c p env packet l).1 ≡ packet)
unfolding encode
encode_keyless c p env packet l on tx key = ground arith

control-ne-pass :
    (c : Config) (p : Platform) (env : Env) (packet : Packet) (l : Link)
    → is_control packet.bytes ≡ true
    → (decode c p env packet l).2 ≢ pass
unfolding decode
control-ne-pass c p env packet l h = rw h (ground arith)

finish-pass : (r : Link × Packet × Verdict) → (finish r).2 ≡ pass → finish r ≡ r
unfolding finish
finish-pass r h = ground arith

-- A packet that decode() passes on went through its part for data frames and plain packets.
decode-pass :
    (c : Config) (p : Platform) (env : Env) (packet : Packet) (l : Link)
    → (decode c p env packet l).2 ≡ pass
    → (is_control packet.bytes ≡ false) × (decode c p env packet l ≡ decode_plain c p packet l)
unfolding decode
decode-pass c p env packet l h = elim (Bool-cases (is_control packet.bytes)) [
  | inl control ↦ absurd (control-ne-pass c p env packet l control h)
  | inr plain ↦ (plain, rw plain (finish-pass (decode_plain c p packet l) (rw plain at h)))
]

decode_plain_protects :
    (c : Config) (p : Platform) (packet : Packet) (l : Link)
    → l.settings.enabled ≡ true
    → l.settings.rx ≡ true
    → (decode_plain c p packet l).2 ≡ pass
    → (k : List ℕ) × (l.rx_key ≡ some k)
      × (p.aead_decrypt k
            (nonce_of p c.peer (sequence_of p packet))
            (put_header p packet.id ++ take data_header packet.bytes)
            (drop data_header packet.bytes)
            c.buffer_size
          ≡ some (decode_plain c p packet l).1.bytes)
      × (l.rx_sequence < sequence_of p packet)
      × ((decode_plain c p packet l).0.rx_sequence ≡ sequence_of p packet)
      × ((decode_plain c p packet l).0.rx_key ≡ l.rx_key)
unfolding decode_plain
decode_plain_protects c p packet l on rx h = ground arith

-- With protection of received packets on, decode() passes a packet on only if the link holds a
-- session key that decrypts the frame under the nonce of its sequence number, to the bytes passed
-- on, and that number is above the last one that the link accepted (`rx_sequence`); the number then
-- becomes the last one accepted, and the key stays.
pub decode_protects :
    (c : Config) (p : Platform) (env : Env) (packet : Packet) (l : Link)
    → l.settings.enabled ≡ true
    → l.settings.rx ≡ true
    → (decode c p env packet l).2 ≡ pass
    → (k : List ℕ) × (l.rx_key ≡ some k)
      × (p.aead_decrypt k
            (nonce_of p c.peer (sequence_of p packet))
            (put_header p packet.id ++ take data_header packet.bytes)
            (drop data_header packet.bytes)
            c.buffer_size
          ≡ some (decode c p env packet l).1.bytes)
      × (l.rx_sequence < sequence_of p packet)
      × ((decode c p env packet l).0.rx_sequence ≡ sequence_of p packet)
      × ((decode c p env packet l).0.rx_key ≡ l.rx_key)
decode_protects c p env packet l on rx h =
    let (_, e) = decode-pass c p env packet l h in
    rw e (decode_plain_protects c p packet l on rx (rw e at h))
