-- ===== src/Radio/Channel.antt =====
-- Two ends of one session over a link that loses, repeats, delays and disturbs frames: what
-- radio-uhf/src/radio_crypto.c promises about the packets that arrive. The ends are two links with
-- the codec's encode() and decode(); the air between them is the list of the frames that went out.
pub mod Numbers
pub mod Invariant
pub mod Sends
pub mod Order
use kfsw_modules.Prelude.{
  ℕ, ◌≤◌, ◌≡◌, Bool, true, false, Option, none, some, List, [], ◌∷◌, get_elem?,
}
use kfsw_modules.Prelude.{u64_max}
use kfsw_modules.Errno.{Errno, Ret, ok, err}
use kfsw_modules.Radio.Platform.{Platform}
use kfsw_modules.Radio.Link.{Config, Link, Env, Packet}
use kfsw_modules.Radio.Frames.{Verdict, pass, consumed, refused, is_control, encode, decode}

-- A packet that was sent, with the frame that went out for it and the frame's number.
pub record Sent : Type 0 where
  pub number : ℕ
  pub offered : Packet
  pub frame : Packet

-- The newest entries stand first.
pub record Channel : Type 0 where
  pub sender : Link
  pub receiver : Link
  pub sent : List Sent
  pub delivered : List Packet

abbrev pub offered_of : List Sent → List Packet
offered_of [] = []
offered_of (x ∷ xs) = x.offered ∷ offered_of xs

abbrev pub delivered_with : Verdict → Packet → List Packet → List Packet
delivered_with pass packet packets = packet ∷ packets
delivered_with consumed packet packets = packets
delivered_with (refused _) packet packets = packets

module _ (ca cb : Config) (p : Platform) where
  -- encode() gave a frame.
  abbrev pub after_send : Env → Packet → Channel → Channel
  after_send env packet s =
      let (l, frame, _) = encode ca p env packet s.sender in
      record s {
        sender = l;
        sent = (record { number = l.tx_sequence; offered = packet; frame = frame }) ∷ s.sent;
      }

  -- A frame reached decode().
  abbrev pub after_arrival : Env → Packet → Channel → Channel
  after_arrival env frame s =
      let (l, packet, v) = decode cb p env frame s.receiver in
      record s { receiver = l; delivered = delivered_with v packet s.delivered }

  -- What can happen next. A frame that never arrives is lost; one that arrives twice, or behind a
  -- newer one, was repeated or overtaken; `disturb` is any other packet, no control frame, that
  -- decode() refuses.
  pub data Step (s : Channel) : Channel → Type 0 where
    send :
        (env : Env) (packet : Packet)
        → (encode ca p env packet s.sender).2 ≡ ok
        → Step s (after_send env packet s)
    fail :
        (env : Env) (packet : Packet) (e : Errno)
        → (encode ca p env packet s.sender).2 ≡ err e
        → Step s (record s { sender = (encode ca p env packet s.sender).0 })
    arrive :
        (env : Env) (i : ℕ) (x : Sent)
        → get_elem? s.sent i ≡ some x
        → Step s (after_arrival env x.frame s)
    disturb :
        (env : Env) (packet : Packet) (e : Errno)
        → is_control packet.bytes ≡ false
        → (decode cb p env packet s.receiver).2 ≡ refused e
        → Step s (record s { receiver = (decode cb p env packet s.receiver).0 })

  pub data Reach (s : Channel) : Channel → Type 0 where
    here : Reach s s
    next : {t u : Channel} → Reach s t → Step t u → Reach s u

-- A session as the handshake leaves it: both ends protect, hold one key for this direction, and
-- nothing is on its way.
pub record IsFresh (s : Channel) : Type 0 where
  pub sender_enabled : s.sender.settings.enabled ≡ true
  pub sender_tx : s.sender.settings.tx ≡ true
  pub receiver_enabled : s.receiver.settings.enabled ≡ true
  pub receiver_rx : s.receiver.settings.rx ≡ true
  pub key : List ℕ
  pub sender_key : s.sender.tx_key ≡ some key
  pub receiver_key : s.receiver.rx_key ≡ some key
  pub counted : s.receiver.rx_sequence ≤ s.sender.tx_sequence
  pub bounded : s.sender.tx_sequence ≤ u64_max
  pub unsent : s.sent ≡ []
  pub undelivered : s.delivered ≡ []
