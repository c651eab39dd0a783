-- ===== src/Radio/Channel/Sends.antt =====
-- A session's invariant while the sender encodes and refused frames arrive.
use kfsw_modules.Prelude.{
  ℕ, suc, ◌+◌, ◌≤◌, ◌≡◌, ap, ◌∙◌, true, false, some, List, arith, length, u64_max,
}
use kfsw_modules.Errno.{Errno, ok}
use kfsw_modules.Radio.Platform.{Platform, Laws}
use kfsw_modules.Radio.Link.{Config, Link, Env, Packet}
use kfsw_modules.Radio.Frames.{refused, is_control, encode, decode}
use kfsw_modules.Radio.Frames.Secrecy.{encode_protects}
use kfsw_modules.Radio.Frames.Replay.{decode-keeps, refusal_accounts}
use kfsw_modules.Radio.Channel.{Sent, Channel, after_send}
use kfsw_modules.Radio.Channel.Numbers.{upto-newer, Falling-mono}
use kfsw_modules.Radio.Channel.Invariant.{AllSealed, Inv}

module _ (ca cb : Config) (p : Platform) where
  -- What encode() leaves alone while there is a session key.
  encode-keeps :
      (env : Env) (packet : Packet) (l : Link) (key : List ℕ)
      → l.settings.enabled ≡ true
      → l.settings.tx ≡ true
      → l.tx_key ≡ some key
      → l.tx_sequence ≤ u64_max
      → let l' = (encode ca p env packet l).0 in
        (l'.settings ≡ l.settings)
        × (l'.tx_key ≡ some key)
        × (l.tx_sequence ≤ l'.tx_sequence)
        × (l'.tx_sequence ≤ u64_max)
  unfolding encode
  encode-keeps env packet l key on tx k b = ground arith

  encode-fits :
      (env : Env) (packet : Packet) (l : Link)
      → l.settings.enabled ≡ true
      → l.settings.tx ≡ true
      → (encode ca p env packet l).2 ≡ ok
      → length packet.bytes ≤ ca.payload_max
  unfolding encode
  encode-fits env packet l on tx h = ground arith

  module _ (laws : Laws p) (peers : cb.peer ≡ ca.local)
      (room : ca.payload_max ≤ cb.buffer_size) where
    pub send-Inv :
        (key : List ℕ) (env : Env) (packet : Packet) (s : Channel)
        → Inv ca cb p key s
        → (encode ca p env packet s.sender).2 ≡ ok
        → Inv ca cb p key (after_send ca cb p env packet s)
    unfolding AllSealed
    send-Inv key env packet s v h =
        let l = s.sender in
        let l_rx : ℕ = s.receiver.rx_sequence in
        let l' : Link = (encode ca p env packet l).0 in
        let entry : Sent = record {
          number = l'.tx_sequence;
          offered = packet;
          frame = (encode ca p env packet l).1;
        } in
        let (same, kept, _, small) =
          encode-keeps env packet l key v.sender_enabled v.sender_tx v.sender_key v.bounded in
        let (k, text, e, sealed, written, used, last) =
          encode_protects ca p env packet l v.sender_enabled v.sender_tx h v.bounded in
        let one_key : k ≡ key = cc (e, v.sender_key) in
        let number : l'.tx_sequence ≡ l.tx_sequence + 1 = used in
        record {
          sender_enabled = ap (λ t. t.enabled) same ∙ v.sender_enabled;
          sender_tx = ap (λ t. t.tx) same ∙ v.sender_tx;
          receiver_enabled = v.receiver_enabled;
          receiver_rx = v.receiver_rx;
          sender_key = kept;
          receiver_key = v.receiver_key;
          counted = omega (arith, number, v.counted);
          bounded = small;
          falling = (
            omega arith,
            Falling-mono (suc l.tx_sequence) l'.tx_sequence s.sent v.falling (omega arith),
          );
          sealed = (
            record {
              text = text;
              sealed = rw number (rw (← one_key) sealed);
              written = rw number written;
              fits = omega (arith, room, encode-fits env packet l v.sender_enabled v.sender_tx h);
              bounded = small;
            },
            v.sealed,
          );
          in_order = rw (upto-newer l_rx entry s.sent (omega arith)) v.in_order;
        }

    pub fail-Inv :
        (key : List ℕ) (env : Env) (packet : Packet) (s : Channel)
        → Inv ca cb p key s
        → Inv ca cb p key (record s { sender = (encode ca p env packet s.sender).0 })
    fail-Inv key env packet s v =
        let (same, kept, grown, small) =
          encode-keeps env packet s.sender key v.sender_enabled v.sender_tx v.sender_key
            v.bounded in
        record {
          sender_enabled = ap (λ t. t.enabled) same ∙ v.sender_enabled;
          sender_tx = ap (λ t. t.tx) same ∙ v.sender_tx;
          receiver_enabled = v.receiver_enabled;
          receiver_rx = v.receiver_rx;
          sender_key = kept;
          receiver_key = v.receiver_key;
          counted = omega (arith, v.counted);
          bounded = small;
          falling = Falling-mono (suc s.sender.tx_sequence) _ s.sent v.falling (omega arith);
          sealed = v.sealed;
          in_order = v.in_order;
        }

    pub disturb-Inv :
        (key : List ℕ) (env : Env) (packet : Packet) (e : Errno) (s : Channel)
        → Inv ca cb p key s
        → is_control packet.bytes ≡ false
        → (decode cb p env packet s.receiver).2 ≡ refused e
        → Inv ca cb p key (record s { receiver = (decode cb p env packet s.receiver).0 })
    disturb-Inv key env packet e s v plain h =
        let (_, _, _, same_key, same_number, _, _, _, _) =
          refusal_accounts cb p env packet s.receiver e plain h in
        let (same, _) = decode-keeps cb p env packet s.receiver plain in
        record {
          sender_enabled = v.sender_enabled;
          sender_tx = v.sender_tx;
          receiver_enabled = ap (λ t. t.enabled) same ∙ v.receiver_enabled;
          receiver_rx = ap (λ t. t.rx) same ∙ v.receiver_rx;
          sender_key = v.sender_key;
          receiver_key = same_key ∙ v.receiver_key;
          counted = omega (arith, same_number, v.counted);
          bounded = v.bounded;
          falling = v.falling;
          sealed = v.sealed;
          in_order = rw same_number v.in_order;
        }
