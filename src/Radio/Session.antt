-- ===== src/Radio/Session.antt =====
-- From no session to the first packet that arrives: the request, its answer and the first data frame
-- over an undisturbed link (`kfsw_radio_uhf_crypto_connect`, `encode` and `decode` of
-- radio-uhf/src/radio_crypto.c).
use kfsw_modules.Prelude.{
  ℕ, ◌≤◌, ◌≡◌, ◌≢◌, refl, sym, ap, ◌∙◌, Option-cases, inl, inr, true, false, some, none, List, ◌∷◌,
  ◌++◌, arith, length,
}
use kfsw_modules.Errno.{ok}
use kfsw_modules.Radio.Platform.{Platform, Laws}
use kfsw_modules.Radio.Link.{Config, Link, Env, Packet, drawn, too_soon, put_header}
use kfsw_modules.Radio.Handshake.{
  hello_body, reply_body, control_received, connect, sign_control, control_id, reply_received,
  derive_key,
}
use kfsw_modules.Radio.Handshake.Agreement.{IsBound}
use kfsw_modules.Radio.Handshake.Keys.{control-reply, handshake_keys_agree}
use kfsw_modules.Radio.Handshake.Session.{Signs, requested, connect-requested}
use kfsw_modules.Radio.Handshake.Acceptance.{control-Accepted, control-settled}
use kfsw_modules.Radio.Frames.{
  pass, consumed, encrypt_room, encode, decode, is_control, frame_start, nonce_of,
}
use kfsw_modules.Radio.Frames.Roundtrip.{decode-encode}

-- Encryption succeeds on every packet that is not too long for a frame.
abbrev pub Encrypts : Platform → Config → Type 0
Encrypts p c =
    (k n a text : List ℕ)
    → length text ≤ c.payload_max
    → (e : List ℕ) × (p.aead_encrypt k n a text (encrypt_room c p) ≡ some e)

-- A link that can ask for a session now, with the nonce `request`.
pub record CanAsk (env : Env) (m request : List ℕ) (l : Link) : Type 0 where
  pub master : l.master ≡ some m
  pub enabled : l.settings.enabled ≡ true
  pub tx : l.settings.tx ≡ true
  pub due : too_soon env.now l.last_request ≡ false
  pub random : env.request ≡ drawn request
  pub sends : env.send_hello ≡ ok
  pub boot_bytes : length l.boot_nonce ≡ 16
  pub request_bytes : length request ≡ 16

-- A link that can answer the request now, with the nonce `fresh`; it is not the request that it
-- answered last.
pub record CanAnswer (env : Env) (m request fresh : List ℕ) (l : Link) : Type 0 where
  pub master : l.master ≡ some m
  pub enabled : l.settings.enabled ≡ true
  pub rx : l.settings.rx ≡ true
  pub due : too_soon env.now l.last_hello ≡ false
  pub random : env.fresh ≡ drawn fresh
  pub imports : env.import_ok ≡ true
  pub sends : env.send_reply ≡ ok
  pub fresh_bytes : length fresh ≡ 16
  pub new : l.peer_request ≢ request

-- A control frame as the peer receives it.
abbrev pub arriving : Config → List ℕ → Packet
arriving from frame = record { id = control_id from.local from.peer; bytes = frame }

decode-consumed :
    (c : Config) (p : Platform) (env : Env) (packet : Packet) (l : Link)
    → is_control packet.bytes ≡ true
    → (control_received c p env packet l).1 ≡ ok
    → (decode c p env packet l).2 ≡ consumed
      × (decode c p env packet l).0 ≡ (control_received c p env packet l).0
unfolding decode
decode-consumed c p env packet l h r = ground arith

reply_received-settings :
    (c : Config) (p : Platform) (env : Env) (frame : List ℕ) (l : Link)
    → (reply_received c p env frame l).0.settings ≡ l.settings
unfolding reply_received derive_key
reply_received-settings c p env frame l = ground arith

encode-ok :
    (c : Config) (p : Platform) (env : Env) (packet : Packet) (l : Link)
    → Encrypts p c
    → l.tx_key ≢ none
    → l.tx_sequence ≡ 0
    → length packet.bytes ≤ c.payload_max
    → (encode c p env packet l).2 ≡ ok
unfolding encode
encode-ok c p env packet l encrypts keyed zero_start fits = elim (Option-cases l.tx_key) [
  | inl absent ↦ absurd (keyed absent)
  | inr (k, present) ↦
      let start = frame_start p 1 in
      let (_, sealed) =
        encrypts k (nonce_of p c.local 1) (put_header p packet.id ++ start) packet.bytes fits in
      ground (arith, present, sealed)
]

-- The first packet of a session whose two ends hold one key.
first_packet :
    (ca cb : Config) (p : Platform) (ea eb : Env) (packet : Packet) (la lb : Link)
    → Laws p
    → Encrypts p ca
    → cb.peer ≡ ca.local
    → la.settings.enabled ≡ true
    → la.settings.tx ≡ true
    → lb.settings.enabled ≡ true
    → lb.settings.rx ≡ true
    → la.tx_key ≡ lb.rx_key
    → la.tx_key ≢ none
    → la.tx_sequence ≡ 0
    → lb.rx_sequence ≡ 0
    → length packet.bytes ≤ ca.payload_max
    → length packet.bytes ≤ cb.buffer_size
    → let (_, frame, r) = encode ca p ea packet la in
      let (_, got, v) = decode cb p eb frame lb in (r ≡ ok) × (v ≡ pass) × (got ≡ packet)
first_packet ca cb p ea eb packet la lb laws encrypts l2 on tx on' rx keys keyed zero_a zero_b fits
      room =
    let sent = encode-ok ca p ea packet la encrypts keyed zero_a fits in
    let (v, got, _, _) =
      decode-encode ca cb p ea eb eb packet la lb laws l2 on tx (omega arith) sent on' rx (sym keys)
        (omega arith) room in
    (sent, v, got)

module _ (ca cb : Config) (p : Platform) (m fresh : List ℕ) (laws : Laws p) (signs : Signs p m)
    (encrypts : Encrypts p ca) (l1 : cb.local ≡ ca.peer) (l2 : cb.peer ≡ ca.local) where
  -- From the request on: `la` has made it, with the tag that it signed.
  answered-session :
      (ea ea' eb eb' : Env) (tag : List ℕ) (la lb : Link) (packet : Packet)
      → la.master ≡ some m
      → la.settings.enabled ≡ true
      → la.settings.tx ≡ true
      → la.pending ≡ true
      → length la.boot_nonce ≡ 16
      → length la.request_nonce ≡ 16
      → sign_control ca p la (hello_body la) ≡ some tag
      → CanAnswer eb m la.request_nonce fresh lb
      → IsBound cb p m lb
      → ea.import_ok ≡ true
      → length packet.bytes ≤ ca.payload_max
      → length packet.bytes ≤ cb.buffer_size
      → let (lb1, _, v) = decode cb p eb (arriving ca (hello_body la ++ tag)) lb in
        (v ≡ consumed)
        × (more : List (List ℕ)) × (reply : List ℕ) × (lb1.sent ≡ more ++ reply ∷ lb.sent)
        × (let (la1, _, v') = decode ca p ea (arriving cb reply) la in
            (v' ≡ consumed)
            × (la1.tx_key ≡ lb1.rx_key)
            × (la1.tx_key ≢ none)
            × (let (_, frame, r) = encode ca p ea' packet la1 in
                let (_, got, v'') = decode cb p eb' frame lb1 in
                (r ≡ ok) × (v'' ≡ pass) × (got ≡ packet)))
  answered-session ea ea' eb eb' tag la lb packet ma on tx waits hb hr signed can bound imports fits
        room =
      let (acc_b, accepted) =
        control-Accepted ca cb p laws eb m tag la lb l1 l2 ma can.master can.enabled fresh hb hr
          signed signs can.imports can.sends can.random can.new can.due in
      let hello = arriving ca (hello_body la ++ tag) in
      let lb1 = (control_received cb p eb hello lb).0 in
      let acc_a =
        control-settled cb ca p laws ea m accepted.tag lb1 la (sym l2) (sym l1)
          (accepted.master ∙ can.master) ma on la.boot_nonce la.request_nonce hb hr
          (ap length accepted.server_nonce ∙ can.fresh_bytes) accepted.signed signs imports waits
          refl refl in
      let reply = arriving cb (reply_body la.boot_nonce la.request_nonce lb1 ++ accepted.tag) in
      let la1 = (control_received ca p ea reply la).0 in
      let (v, same_b) = decode-consumed cb p eb hello lb (ground arith) acc_b in
      let (v', same_a) = decode-consumed ca p ea reply la (ground arith) acc_a in
      let (keys, keyed, zero_a, _) =
        handshake_keys_agree ca cb p ea eb m tag accepted.tag hello.id reply.id la lb l1 l2 ma
          can.master bound hb hr acc_b (ap length accepted.server_nonce ∙ can.fresh_bytes) acc_a in
      let kept_a : la1.settings ≡ la.settings =
        ap (λ x. x.0.settings) (control-reply ca p ea reply la refl acc_a)
        ∙ reply_received-settings ca p ea reply.bytes la in
      let arrived =
        first_packet ca cb p ea' eb' packet la1 lb1 laws encrypts l2 (rw kept_a on) (rw kept_a tx)
          (rw accepted.settings can.enabled) (rw accepted.settings can.rx) keys keyed zero_a
          accepted.rx_sequence fits room in
      rw same_b (v, accepted.more, reply.bytes, accepted.sent, rw same_a (v', keys, keyed, arrived))

-- A session comes about, and carries packets. Two links hold the same master key, each is the other's
-- peer, and an inbound session at B is the one of its last handshake; A can ask for a session and B
-- can answer, which is to say that protection is on, the random numbers and the codec's calls
-- succeed, the retry time has passed and A's nonce is new to B; tags and encryption are computed,
-- and keys imported. Then connect() returns 0 and hands the codec a frame; if that frame is the next
-- to arrive at B, B consumes it and hands the codec a reply; if that reply is the next frame to
-- arrive at A, A consumes it; both ends then hold one key; and a packet encoded at A before any
-- other frame arrives there, of any size that fits, gets 0, and B, if it is the next frame there,
-- passes it on as it was. The frames that B may hand over beside its reply, a request of its own
-- among them, are not delivered to A here.
pub connect-establishes :
    (ca cb : Config) (p : Platform) (ea ea' ea'' eb eb' : Env) (m request fresh : List ℕ)
    (la lb : Link) (packet : Packet)
    → Laws p
    → Signs p m
    → Encrypts p ca
    → cb.local ≡ ca.peer
    → cb.peer ≡ ca.local
    → CanAsk ea m request la
    → CanAnswer eb m request fresh lb
    → IsBound cb p m lb
    → ea'.import_ok ≡ true
    → length packet.bytes ≤ ca.payload_max
    → length packet.bytes ≤ cb.buffer_size
    → let (la1, result) = connect ca p ea la in
      (result ≡ ok)
      × (hello : List ℕ) × (la1.sent ≡ hello ∷ la.sent)
      × (let (lb1, _, v) = decode cb p eb (arriving ca hello) lb in
          (v ≡ consumed)
          × (more : List (List ℕ)) × (reply : List ℕ) × (lb1.sent ≡ more ++ reply ∷ lb.sent)
          × (let (la2, _, v') = decode ca p ea' (arriving cb reply) la1 in
              (v' ≡ consumed)
              × (la2.tx_key ≡ lb1.rx_key)
              × (la2.tx_key ≢ none)
              × (let (_, frame, r) = encode ca p ea'' packet la2 in
                  let (_, got, v'') = decode cb p eb' frame lb1 in
                  (r ≡ ok) × (v'' ≡ pass) × (got ≡ packet))))
unfolding sign_control
connect-establishes ca cb p ea ea' ea'' eb eb' m request fresh la lb packet laws signs encrypts l1
      l2 asks answers bound imports fits room =
    let (tag, signed, made) =
      connect-requested ca p ea m la request asks.master asks.enabled asks.due asks.random
        asks.sends signs in
    let la1 = requested ea.now request tag la in
    rw made (
      refl,
      hello_body la1 ++ tag,
      refl,
      answered-session ca cb p m fresh laws signs encrypts l1 l2 ea' ea'' eb eb' tag la1 lb packet
          asks.master asks.enabled asks.tx refl asks.boot_bytes asks.request_bytes signed answers
          bound imports fits room,
    )
