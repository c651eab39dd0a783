-- ===== src/Radio/Frames/Room.antt =====
-- The room that a frame takes in the packet's buffer (`encode` and `decode` of
-- radio-uhf/src/radio_crypto.c).
use kfsw_modules.Prelude.{
  ℕ, zero, suc, ◌+◌, ◌-◌, ◌≤◌, ◌≡◌, ap, ◌∙◌, true, List, [], ◌∷◌, arith, length, drop, u64_max,
  length-append,
}
use kfsw_modules.Errno.{ok}
use kfsw_modules.Radio.Platform.{Platform, Laws}
use kfsw_modules.Radio.Link.{Config, Link, Env, Packet}
use kfsw_modules.Radio.Frames.{pass, frame_start, encode, decode}
use kfsw_modules.Radio.Frames.Secrecy.{encode_protects, decode_protects}

length-drop : (n : ℕ) (xs : List ℕ) → length (drop n xs) ≡ length xs - n
length-drop zero xs = omega arith
length-drop (suc n) [] = omega arith
length-drop (suc n) (x ∷ xs) = omega (arith, length-drop n xs)

encode-fits :
    (c : Config) (p : Platform) (env : Env) (packet : Packet) (l : Link)
    → Laws p
    → 16 ≤ c.buffer_size
    → l.settings.enabled ≡ true
    → l.settings.tx ≡ true
    → l.tx_sequence ≤ u64_max
    → (encode c p env packet l).2 ≡ ok
    → let frame = (encode c p env packet l).1 in
      (length frame.bytes ≡ length packet.bytes + 28) × (length frame.bytes + 4 ≤ c.buffer_size)
encode-fits c p env packet l laws room on tx counter sent =
    let (k, text, _, sealed, written, _, _) = encode_protects c p env packet l on tx sent counter in
    let start = frame_start p (l.tx_sequence + 1) in
    let whole : length (encode c p env packet l).1.bytes ≡ 12 + length text =
      ap (λ f. length f.bytes) written
      ∙ omega (arith, length-append start text, laws.length-be64 (l.tx_sequence + 1)) in
    let grown = laws.length-encrypt k _ _ packet.bytes text _ sealed in
    let within = laws.encrypt-room k _ _ packet.bytes text _ sealed in
    (omega (arith, whole, grown), omega (arith, whole, within))

decode-shrinks :
    (c : Config) (p : Platform) (env : Env) (packet : Packet) (l : Link)
    → Laws p
    → l.settings.enabled ≡ true
    → l.settings.rx ≡ true
    → (decode c p env packet l).2 ≡ pass
    → length packet.bytes ≡ length (decode c p env packet l).1.bytes + 28
decode-shrinks c p env packet l laws on rx passed =
    let (k, _, opened, _, _, _) = decode_protects c p env packet l on rx passed in
    let cut = laws.length-decrypt k _ _ (drop 12 packet.bytes) _ _ opened in
    omega (arith, cut, length-drop 12 packet.bytes)

-- Protection costs exactly 28 bytes each way, and no frame outgrows its buffer. With protection on in
-- both directions, cryptography that behaves as documented, a counter of 64 bits and a buffer with
-- room for a header at all: what encode() returns 0 for has grown by 28 bytes and, with the four
-- bytes that the codec's caller adds, still fits the buffer; what decode() passes on is 28 bytes
-- shorter than the frame that brought it.
pub overhead_exact :
    (c : Config) (p : Platform) (env env' : Env) (packet frame : Packet) (l : Link)
    → Laws p
    → 16 ≤ c.buffer_size
    → l.settings.enabled ≡ true
    → l.settings.tx ≡ true
    → l.settings.rx ≡ true
    → l.tx_sequence ≤ u64_max
    → (encode c p env packet l).2 ≡ ok
    → (decode c p env' frame l).2 ≡ pass
    → let sealed = (encode c p env packet l).1 in
      (length sealed.bytes ≡ length packet.bytes + 28)
      × (length sealed.bytes + 4 ≤ c.buffer_size)
      × (length frame.bytes ≡ length (decode c p env' frame l).1.bytes + 28)
overhead_exact c p env env' packet frame l laws room on tx rx counter sent passed =
    let (grown, fits) = encode-fits c p env packet l laws room on tx counter sent in
    (grown, fits, decode-shrinks c p env' frame l laws on rx passed)
