-- ===== src/Radio/Handshake/Keys.antt =====
-- A whole handshake: a request, its answer, and the key that both ends hold afterwards
-- (`control_received` of radio-uhf/src/radio_crypto.c).
use kfsw_modules.Prelude.{ℕ, ◌≡◌, ◌≢◌, refl, true, false, some, none, List, ◌++◌, arith, length}
use kfsw_modules.Errno.{ok}
use kfsw_modules.Radio.Platform.{Platform}
use kfsw_modules.Radio.Link.{Config, Link, Env, Packet, CspId}
use kfsw_modules.Radio.Handshake.{
  hello_body, reply_body, client_of, request_of, server_of, key_context, hello_received, is_hello,
  reply_received, control_received, derive_key,
}
use kfsw_modules.Radio.Handshake.Layout.{first_nonce, second_nonce, third_nonce}
use kfsw_modules.Radio.Handshake.Agreement.{IsBound, Answered, hello_received-Answered}

module _ (c : Config) (p : Platform) (env : Env) (packet : Packet) (l : Link) where
  pub control-hello :
      is_hello packet.bytes ≡ true
      → (control_received c p env packet l).1 ≡ ok
      → control_received c p env packet l ≡ hello_received c p env packet.bytes l
  unfolding control_received
  control-hello h r = ground arith

  pub control-reply :
      is_hello packet.bytes ≡ false
      → (control_received c p env packet l).1 ≡ ok
      → control_received c p env packet l ≡ reply_received c p env packet.bytes l
  unfolding control_received
  control-reply h r = ground arith

reply_received-key :
    (c : Config) (p : Platform) (env : Env) (m frame : List ℕ) (l : Link)
    → l.master ≡ some m
    → (reply_received c p env frame l).1 ≡ ok
    → let l' = (reply_received c p env frame l).0 in
      (l'.tx_key
        ≡ p.mac_compute m
            (key_context p c.local c.peer l.boot_nonce l.request_nonce (server_of frame)))
      × (l'.tx_key ≢ none)
      × (l'.tx_sequence ≡ 0)
      × (l'.pending ≡ false)
unfolding reply_received derive_key
reply_received-key c p env m frame l master h = ground arith

-- The packets that arrive with A's request and with B's answer to it.
abbrev pub hello_packet : CspId → List ℕ → Link → Packet
hello_packet id tag la = record { id = id; bytes = hello_body la ++ tag }

abbrev pub reply_packet : CspId → List ℕ → Link → Link → Packet
reply_packet id tag la lb = record {
  id = id;
  bytes = reply_body la.boot_nonce la.request_nonce lb ++ tag;
}

-- A handshake that both ends accept leaves them one key for the direction from A to B. With A's
-- master key at B, an inbound key at B that its last handshake determined, 16-byte nonces, and each
-- end configured as the other's peer: if B accepts A's request and A, which has made no newer
-- request, accepts the answer to it, then A's key for transmitting is B's key for receiving, A
-- counts from zero and A waits for no further answer.
pub handshake_keys_agree :
    (ca cb : Config) (p : Platform) (ea eb : Env) (m tag tag' : List ℕ) (ib ia : CspId)
    (la lb : Link)
    → cb.local ≡ ca.peer
    → cb.peer ≡ ca.local
    → la.master ≡ some m
    → lb.master ≡ some m
    → IsBound cb p m lb
    → length la.boot_nonce ≡ 16
    → length la.request_nonce ≡ 16
    → (control_received cb p eb (hello_packet ib tag la) lb).1 ≡ ok
    → let lb' = (control_received cb p eb (hello_packet ib tag la) lb).0 in
      length lb'.server_nonce ≡ 16
      → (control_received ca p ea (reply_packet ia tag' la lb') la).1 ≡ ok
      → let la' = (control_received ca p ea (reply_packet ia tag' la lb') la).0 in
        (la'.tx_key ≡ lb'.rx_key)
        × (la'.tx_key ≢ none)
        × (la'.tx_sequence ≡ 0)
        × (la'.pending ≡ false)
handshake_keys_agree ca cb p ea eb m tag tag' ib ia la lb l1 l2 ma mb bound hb hr acc_b hs acc_a =
    let lb' = (control_received cb p eb (hello_packet ib tag la) lb).0 in
    let frame_a = (hello_packet ib tag la).bytes in
    let frame_b = (reply_packet ia tag' la lb').bytes in
    let eb_path = control-hello cb p eb (hello_packet ib tag la) lb refl acc_b in
    let ea_path = control-reply ca p ea (reply_packet ia tag' la lb') la refl acc_a in
    let inbound : Answered cb p m (client_of frame_a) (request_of frame_a) lb' =
      rw eb_path (hello_received-Answered cb p eb m frame_a lb mb bound (rw eb_path at acc_b)) in
    let (key, present, zero_start, settled) =
      reply_received-key ca p ea m frame_b la ma (rw ea_path at acc_a) in
    let client : client_of frame_a ≡ la.boot_nonce =
      first_nonce la.boot_nonce la.request_nonce hb hr tag in
    let request : request_of frame_a ≡ la.request_nonce =
      second_nonce la.boot_nonce la.request_nonce hb hr tag in
    let server : server_of frame_b ≡ lb'.server_nonce =
      third_nonce la.boot_nonce la.request_nonce lb'.server_nonce hb hr hs tag' in
    let same : (reply_received ca p ea frame_b la).0.tx_key ≡ lb'.rx_key =
      cc (key, inbound.derived, inbound.installed, client, request, server, l1, l2) in
    rw ea_path (same, present, zero_start, settled)
