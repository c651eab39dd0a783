-- ===== src/Radio/Channel/Order.antt =====
-- The packets that arrive are packets that were sent, in their order and each at most once
-- (`encode` and `decode` of radio-uhf/src/radio_crypto.c).
use mathlib.Core.List.{Sublist}
use mathlib.Core.List.Sublist
use native.Mathlib.Decide.{dec_lt}
use kfsw_modules.Prelude.{ℕ, suc, ◌≤◌, ◌<◌, ◌≡◌, some, List, ◌∷◌, ◌++◌, arith, length, get_elem?}
use kfsw_modules.Radio.Platform.{Platform, Laws}
use kfsw_modules.Radio.Link.{Config, Env, put_header}
use kfsw_modules.Radio.Frames.{frame_start, nonce_of}
use kfsw_modules.Radio.Frames.Roundtrip.{decode_new, decode_old}
use kfsw_modules.Radio.Channel.{
  Sent, Channel, offered_of, after_arrival, Step, send, fail, arrive, disturb, Reach, here, next,
  IsFresh,
}
use kfsw_modules.Radio.Channel.Numbers.{upto, upto-sublist, Falling-at, upto-at}
use kfsw_modules.Radio.Channel.Invariant.{IsSealed, AllSealed-at, Inv, IsFresh-Inv}
use kfsw_modules.Radio.Channel.Sends.{send-Inv, fail-Inv, disturb-Inv}

module _ (ca cb : Config) (p : Platform) where
  module _ (laws : Laws p) (peers : cb.peer ≡ ca.local)
      (room : ca.payload_max ≤ cb.buffer_size) where
    module _ (key : List ℕ) (env : Env) (s : Channel) (v : Inv ca cb p key s) (x : Sent)
        (sealing : IsSealed ca cb p key x) where
      abbrev arrived : Channel
      arrived = after_arrival ca cb p env x.frame s

      long : 16 ≤ length sealing.text
      long = omega (arith, laws.length-encrypt key _ _ _ _ _ sealing.sealed)

      opened :
          p.aead_decrypt key
            (nonce_of p cb.peer x.number)
            (put_header p x.offered.id ++ frame_start p x.number)
            sealing.text
            cb.buffer_size
          ≡ some x.offered.bytes
      opened = rw peers (
          laws.decrypt-encrypt key _ _ x.offered.bytes sealing.text _ cb.buffer_size sealing.sealed
            sealing.fits)

      arrive_old-Inv : x.number ≤ s.receiver.rx_sequence → Inv ca cb p key arrived
      arrive_old-Inv older = rw sealing.written (
          rw
            (decode_old cb p laws x.offered.id x.number sealing.text key x.offered.bytes env
              s.receiver sealing.bounded v.receiver_enabled v.receiver_rx v.receiver_key long opened
              older)
            (record {
              sender_enabled = v.sender_enabled;
              sender_tx = v.sender_tx;
              receiver_enabled = v.receiver_enabled;
              receiver_rx = v.receiver_rx;
              sender_key = v.sender_key;
              receiver_key = v.receiver_key;
              counted = v.counted;
              bounded = v.bounded;
              falling = v.falling;
              sealed = v.sealed;
              in_order = v.in_order;
            }))

      arrive_new-Inv :
          (i : ℕ)
          → get_elem? s.sent i ≡ some x
          → s.receiver.rx_sequence < x.number
          → Inv ca cb p key arrived
      arrive_new-Inv i at newer =
          let below : x.number < suc s.sender.tx_sequence =
            Falling-at (suc s.sender.tx_sequence) s.sent i x v.falling at in
          let (rest, found, sub) =
            upto-at (suc s.sender.tx_sequence) s.receiver.rx_sequence s.sent i x v.falling at
              newer in
          let ordered : Sublist (x.offered ∷ s.delivered) (offered_of (upto x.number s.sent)) =
            rw found (Sublist.cons-cons x.offered (Sublist.trans v.in_order sub)) in
          rw sealing.written (
            rw
              (decode_new cb p laws x.offered.id x.number sealing.text key x.offered.bytes env
                s.receiver sealing.bounded v.receiver_enabled v.receiver_rx v.receiver_key long
                opened newer)
              (record {
                sender_enabled = v.sender_enabled;
                sender_tx = v.sender_tx;
                receiver_enabled = v.receiver_enabled;
                receiver_rx = v.receiver_rx;
                sender_key = v.sender_key;
                receiver_key = v.receiver_key;
                counted = omega arith;
                bounded = v.bounded;
                falling = v.falling;
                sealed = v.sealed;
                in_order = ordered;
              }))

    Step-Inv :
        (key : List ℕ) {s t : Channel} → Step ca cb p s t → Inv ca cb p key s → Inv ca cb p key t
    Step-Inv key {s} (send env packet h) v = send-Inv ca cb p laws peers room key env packet s v h
    Step-Inv key {s} (fail env packet e h) v = fail-Inv ca cb p laws peers room key env packet s v
    Step-Inv key {s} (arrive env i x at) v =
        let sealing = AllSealed-at ca cb p key s.sent i x v.sealed at in
        elim (dec_lt s.receiver.rx_sequence x.number) [
          | yes newer ↦ arrive_new-Inv key env s v x sealing i at newer
          | no older ↦ arrive_old-Inv key env s v x sealing (omega arith)
        ]
    Step-Inv key {s} (disturb env packet e plain h) v =
        disturb-Inv ca cb p laws peers room key env packet e s v plain h

    Reach-Inv :
        (key : List ℕ) {s t : Channel} → Reach ca cb p s t → Inv ca cb p key s → Inv ca cb p key t
    Reach-Inv key here v = v
    Reach-Inv key (next r st) v = Step-Inv key st (Reach-Inv key r v)

-- The protected link keeps the contract of a lossy channel: from a fresh session between two ends
-- that are each other's peer and whose payloads fit, with cryptography that behaves as documented,
-- whatever the air loses, repeats or delays, and whatever packets it adds that are no control
-- frames and are refused, the packets that decode() has passed on are, byte for byte and in order,
-- some of the packets that encode() was given, each at most once.
pub Reach-sublist :
    (ca cb : Config) (p : Platform) {s t : Channel}
    → Laws p
    → cb.peer ≡ ca.local
    → ca.payload_max ≤ cb.buffer_size
    → IsFresh s
    → Reach ca cb p s t
    → Sublist t.delivered (offered_of t.sent)
Reach-sublist ca cb p {s} {t} laws peers room f r =
    let v = Reach-Inv ca cb p laws peers room f.key r (IsFresh-Inv ca cb p s f) in
    Sublist.trans v.in_order (upto-sublist t.receiver.rx_sequence t.sent)
