-- ===== src/Radio/Frames/Roundtrip.antt =====
-- A frame that one end encodes and the other decodes (radio-uhf/src/radio_crypto.c).
use kfsw_modules.Prelude.{
  ℕ, ◌+◌, ◌≤◌, ◌<◌, ◌≡◌, refl, sym, ap, ◌∙◌, true, false, not, ◌||◌, some, List, ◌++◌, arith,
  if_false, length, take, drop, u64_max, take-append_exact, drop-append_exact, length-append,
}
use kfsw_modules.Errno.{ok, err, ealready}
use kfsw_modules.Radio.Platform.{Platform, Laws}
use kfsw_modules.Radio.Link.{Config, Link, Env, Packet, CspId, put_header}
use kfsw_modules.Radio.Handshake.{slice}
use kfsw_modules.Radio.Frames.{
  pass, refused, is_control, is_malformed, decrypt_with, decode_with, frame_start, nonce_of, accept,
  finish, decode_plain, encode, decode, inc32,
}
use kfsw_modules.Radio.Frames.Secrecy.{encode_protects}

-- What the receiver at `b` reads off the bytes that the sender at `a` wrote.
module _ (p : Platform) (laws : Laws p) (n : ℕ) (text : List ℕ) where
  start-append : take 12 (frame_start p n ++ text) ≡ frame_start p n
  start-append = take-append_exact 12 (frame_start p n) text (omega (arith, laws.length-be64 n))

  text-append : drop 12 (frame_start p n ++ text) ≡ text
  text-append = drop-append_exact 12 (frame_start p n) text (omega (arith, laws.length-be64 n))

  number-append : n ≤ u64_max → p.get_be64 (slice 4 8 (frame_start p n ++ text)) ≡ n
  number-append h =
      ap p.get_be64 (take-append_exact 8 (p.be64 n) text (laws.length-be64 n))
      ∙ laws.get-be64 n (omega arith)

  start-not_control : is_control (frame_start p n ++ text) ≡ false
  start-not_control = ground arith

  start-well_formed : 16 ≤ length text → is_malformed (frame_start p n ++ text) ≡ false
  start-well_formed h = ground (arith, laws.length-be64 n, length-append (p.be64 n) text)

module _ (c : Config) (p : Platform) (laws : Laws p) (id : CspId) (n : ℕ) (text k m : List ℕ) where
  abbrev frame : Packet
  frame = record { id = id; bytes = frame_start p n ++ text }

  decrypt_frame :
      (l : Link)
      → n ≤ u64_max
      → p.aead_decrypt k
          (nonce_of p c.peer n)
          (put_header p id ++ frame_start p n)
          text
          c.buffer_size
        ≡ some m
      → decrypt_with c p k frame l ≡ accept n m frame l
  unfolding decrypt_with
  decrypt_frame l fits opened =
      rw (number-append p laws n text fits)
        (rw (start-append p laws n text) (rw (text-append p laws n text) (rw opened refl)))

  decode-frame :
      (env : Env) (l : Link)
      → n ≤ u64_max
      → l.settings.enabled ≡ true
      → l.settings.rx ≡ true
      → l.rx_key ≡ some k
      → 16 ≤ length text
      → p.aead_decrypt k
          (nonce_of p c.peer n)
          (put_header p id ++ frame_start p n)
          text
          c.buffer_size
        ≡ some m
      → decode c p env frame l ≡ finish (accept n m frame l)
  unfolding decode
  decode-frame env l fits on rx key long opened =
      rw (start-not_control p laws n text) (ap finish plain)
    where
      plain : decode_plain c p frame l ≡ accept n m frame l
      plain =
          if_false (not l.settings.enabled || not l.settings.rx) _ _ (ground arith)
          ∙ ap (λ o. decode_with c p o frame l) key
          ∙ if_false (is_malformed frame.bytes) _ _ (start-well_formed p laws n text long)
          ∙ decrypt_frame l fits opened

  accept_new :
      (l : Link)
      → l.rx_sequence < n
      → finish (accept n m frame l) ≡ (
        record l { rx_sequence = n; authenticated = inc32 l.authenticated },
        record { id = id; bytes = m },
        pass,
      )
  unfolding finish accept
  accept_new l h = ground arith

  accept_old :
      (l : Link)
      → n ≤ l.rx_sequence
      → finish (accept n m frame l) ≡ (
        record l {
          replays = inc32 l.replays;
          rejected = inc32 l.rejected;
          last_error = err ealready;
        },
        frame,
        refused ealready,
      )
  unfolding finish accept
  accept_old l h = ground arith

  -- What decode() makes of the frame, according to its number.
  pub decode_new :
      (env : Env) (l : Link)
      → n ≤ u64_max
      → l.settings.enabled ≡ true
      → l.settings.rx ≡ true
      → l.rx_key ≡ some k
      → 16 ≤ length text
      → p.aead_decrypt k
          (nonce_of p c.peer n)
          (put_header p id ++ frame_start p n)
          text
          c.buffer_size
        ≡ some m
      → l.rx_sequence < n
      → decode c p env (record { id = id; bytes = frame_start p n ++ text }) l ≡ (
        record l { rx_sequence = n; authenticated = inc32 l.authenticated },
        record { id = id; bytes = m },
        pass,
      )
  decode_new env l fits on rx key long opened newer =
      decode-frame env l fits on rx key long opened ∙ accept_new l newer

  pub decode_old :
      (env : Env) (l : Link)
      → n ≤ u64_max
      → l.settings.enabled ≡ true
      → l.settings.rx ≡ true
      → l.rx_key ≡ some k
      → 16 ≤ length text
      → p.aead_decrypt k
          (nonce_of p c.peer n)
          (put_header p id ++ frame_start p n)
          text
          c.buffer_size
        ≡ some m
      → n ≤ l.rx_sequence
      → decode c p env (record { id = id; bytes = frame_start p n ++ text }) l ≡ (
        record l {
          replays = inc32 l.replays;
          rejected = inc32 l.rejected;
          last_error = err ealready;
        },
        record { id = id; bytes = frame_start p n ++ text },
        refused ealready,
      )
  decode_old env l fits on rx key long opened older =
      decode-frame env l fits on rx key long opened ∙ accept_old l older

  -- The frame is passed on, and its copy is not.
  decode_twice :
      (env env' : Env) (l : Link)
      → n ≤ u64_max
      → l.settings.enabled ≡ true
      → l.settings.rx ≡ true
      → l.rx_key ≡ some k
      → l.rx_sequence < n
      → 16 ≤ length text
      → p.aead_decrypt k
          (nonce_of p c.peer n)
          (put_header p id ++ frame_start p n)
          text
          c.buffer_size
        ≡ some m
      → let (l', got, v) = decode c p env frame l in
        (v ≡ pass)
        × (got ≡ record { id = id; bytes = m })
        × (l'.rx_sequence ≡ n)
        × ((decode c p env' frame l').2 ≡ refused ealready)
  decode_twice env env' l fits on rx key newer long opened =
      let e = decode-frame env l fits on rx key long opened ∙ accept_new l newer in
      let l' = record l { rx_sequence = n; authenticated = inc32 l.authenticated } in
      rw e (
        refl,
        refl,
        refl,
        ap (λ r. r.2) (decode-frame env' l' fits on rx key long opened)
            ∙ ap (λ r. r.2) (accept_old l' (omega arith)),
      )

-- What one end encodes the other decodes: if A's encode() returns 0 with protection on, B has A's
-- session key for receiving, B's peer is A, protection is on at B, the packet fits B's buffer, the
-- counter fits 64 bits and B has accepted no later number, then, with cryptography that behaves as
-- documented, B passes on exactly the packet that A was given and takes over its number, and a
-- second copy of the frame is refused as a replay.
pub decode-encode :
    (ca cb : Config) (p : Platform) (env env' env'' : Env) (packet : Packet) (la lb : Link)
    → Laws p
    → cb.peer ≡ ca.local
    → la.settings.enabled ≡ true
    → la.settings.tx ≡ true
    → la.tx_sequence ≤ u64_max
    → (encode ca p env packet la).2 ≡ ok
    → lb.settings.enabled ≡ true
    → lb.settings.rx ≡ true
    → lb.rx_key ≡ la.tx_key
    → lb.rx_sequence ≤ la.tx_sequence
    → length packet.bytes ≤ cb.buffer_size
    → let (la', frame, _) = encode ca p env packet la in
      let (lb', got, v) = decode cb p env' frame lb in
      (v ≡ pass)
      × (got ≡ packet)
      × (lb'.rx_sequence ≡ la'.tx_sequence)
      × ((decode cb p env'' frame lb').2 ≡ refused ealready)
decode-encode ca cb p env env' env'' packet la lb laws peers on tx fits sent on' rx keys old room =
    let (k, text, key, sealed, written, used, last) =
      encode_protects ca p env packet la on tx sent fits in
    let long : 16 ≤ length text = omega (arith, laws.length-encrypt k _ _ _ _ _ sealed) in
    let opened = laws.decrypt-encrypt k _ _ packet.bytes text _ cb.buffer_size sealed room in
    let (v, got, number, again) =
      decode_twice cb p laws packet.id (la.tx_sequence + 1) text k packet.bytes env' env'' lb last
        on' rx (keys ∙ key) (omega arith) long (rw peers opened) in
    rw written (v, got, number ∙ sym used, again)
