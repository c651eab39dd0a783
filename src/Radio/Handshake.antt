-- ===== src/Radio/Handshake.antt =====
-- The handshake of radio-uhf/src/radio_crypto.c: the request of an outbound session, the reply to
-- the peer's, and the keys that both derive.
pub mod Agreement
pub mod Layout
pub mod Keys
pub mod Bound
pub mod Session
pub mod Answering
pub mod Acceptance
pub mod Restart
use kfsw_modules.Prelude.{
  ℕ, ◌+◌, ◌*◌, ◌-◌, Bool, true, false, not, ◌&&◌, ◌||◌, Option, none, some, List, [], ◌∷◌, ◌++◌,
  ◌==◌, if◌then◌else◌, length, get_or, take, drop,
}
use kfsw_modules.Prelude.Int.{ℤ, pos}
use kfsw_modules.Errno.{Errno, Ret, ok, err, is_ok, eacces, eagain, eio, ealready}
use kfsw_modules.Radio.Platform.{Platform}
use kfsw_modules.Radio.Link.{
  Config, Link, Env, CspId, Packet, FrameType, hello, reply, Random, drawn, no_random, bytes_eq,
  too_soon, frame_header, label, mac_with, verify_with, put_header, frame_value, nonce_bytes,
  mac_bytes, hello_bytes, reply_bytes,
}

-- Bytes `from` to `from + count` of a buffer.
abbrev pub slice : ℕ → ℕ → List ℕ → List ℕ
slice from count frame = take count (drop from frame)

abbrev pub is_none : Option (List ℕ) → Bool
is_none none = true
is_none (some _) = false

-- The identity that a control frame is signed under.
abbrev pub control_id : ℕ → ℕ → CspId
control_id src dst = record { src = src; dst = dst; sport = 0; dport = 0; pri = 0; flags = 0 }

install : Bool → List ℕ → Link → Link
install true key l = record l { tx_key = some key; tx_sequence = 0 }
install false key l = record l { rx_key = some key; rx_sequence = 0 }

-- derive_key() on the material that psa_mac_compute gives, and psa_import_key after it.
install_derived : Bool → Bool → Option (List ℕ) → Link → Link × Ret
unfolding install
install_derived transmit import_ok none l = (l, err eio)
install_derived transmit import_ok (some material) l =
    if import_ok then (install transmit material l, ok) else (l, err eio)

-- The frame with its tag, handed to the codec.
send_signed : List ℕ → Ret → Option (List ℕ) → Link → Link × Ret
send_signed body result none l = (l, err eacces)
send_signed body result (some tag) l = (record l { sent = (body ++ tag) ∷ l.sent }, result)

-- The HELLO frame without its tag.
abbrev pub hello_body : Link → List ℕ
hello_body l = frame_header hello ++ (l.boot_nonce ++ l.request_nonce)

mark_pending : Option (List ℕ) → Link → Link
mark_pending none l = l
mark_pending (some _) l = record l { pending = true }

-- The REPLY frame without its tag.
abbrev pub reply_body : List ℕ → List ℕ → Link → List ℕ
reply_body client request l = frame_header reply ++ (client ++ (request ++ l.server_nonce))

abbrev pub client_of : List ℕ → List ℕ
client_of frame = slice 4 nonce_bytes frame

abbrev pub request_of : List ℕ → List ℕ
request_of frame = slice (4 + nonce_bytes) nonce_bytes frame

abbrev pub server_of : List ℕ → List ℕ
server_of frame = slice (4 + 2 * nonce_bytes) nonce_bytes frame

-- `new_boot` and `duplicate` of hello_received().
abbrev pub is_new_boot : List ℕ → Link → Bool
is_new_boot frame l = is_none l.rx_key || not (bytes_eq l.peer_boot (client_of frame))

abbrev pub is_duplicate : List ℕ → Link → Bool
is_duplicate frame l = not (is_new_boot frame l) && bytes_eq l.peer_request (request_of frame)

-- What derive_key() on a REPLY leaves: `pending` falls if it succeeds.
settle : Link × Ret → Link × Ret
settle (l, ok) = (record l { pending = false }, ok)
settle (l, err e) = (l, err e)

abbrev pub is_hello : List ℕ → Bool
is_hello frame = get_or frame 3 0 == frame_value hello

abbrev pub expected_size : List ℕ → ℕ
expected_size frame = if is_hello frame then hello_bytes else reply_bytes

-- The context that a session key is the MAC of, from the node `src` that encrypts to `dst`.
unfoldable pub key_context : Platform → ℕ → ℕ → List ℕ → List ℕ → List ℕ → List ℕ
key_context p src dst client_boot request server =
    label ++ (p.be16 src ++ (p.be16 dst ++ (client_boot ++ (request ++ server))))

module _ (c : Config) (p : Platform) where
  -- sign_control(frame, size, false): the tag of the bytes in front of it.
  unfoldable pub sign_control : Link → List ℕ → Option (List ℕ)
  unfolding put_header
  sign_control l body = mac_with p l.master (put_header p (control_id c.local c.peer) ++ body)

  -- sign_control(frame, size, true)
  unfoldable pub verify_control : Link → List ℕ → ℕ → Bool
  unfolding put_header
  verify_control l frame size =
      verify_with p l.master
        (put_header p (control_id c.peer c.local) ++ take (size - mac_bytes) frame)
        (slice (size - mac_bytes) mac_bytes frame)

  unfoldable pub derive_key : Env → List ℕ → List ℕ → List ℕ → Bool → Link → Link × Ret
  unfolding install_derived key_context
  derive_key env client_boot request server transmit l =
      install_derived transmit env.import_ok
        (mac_with p l.master (
          if transmit
          then key_context p c.local c.peer client_boot request server
          else key_context p c.peer c.local client_boot request server))
        l

  -- radio_random() writes to `request_nonce` itself, also where it fails.
  request_with : Env → Random → Link → Link × Ret
  unfolding send_signed mark_pending sign_control
  request_with env (no_random _ left) l =
      (record l { request_nonce = left ++ drop (length left) l.request_nonce }, err eio)
  request_with env (drawn nonce) l =
      let l' = record l { request_nonce = nonce } in
      let tag = sign_control l' (hello_body l') in
      send_signed (hello_body l') env.send_hello tag (mark_pending tag l')

  unfoldable pub connect_locked : Env → Link → Link × Ret
  unfolding request_with
  connect_locked env l =
      if is_none l.master || not l.settings.enabled
      then (l, err eacces)
      else if too_soon env.now l.last_request
      then (l, err eagain)
      else request_with env env.request (record l { last_request = pos env.now })

  -- kfsw_radio_uhf_crypto_connect
  unfoldable pub connect : Env → Link → Link × Ret
  unfolding connect_locked
  connect env l =
      let (l', result) = connect_locked env l in (record l' { last_error = result }, result)

  -- A peer restart also invalidates the old outbound session.
  restart_outbound : Bool → Env → Link × Ret → Link × Ret
  unfolding connect_locked
  restart_outbound new_boot env (l, result) =
      if new_boot && not l.pending
      then ((connect_locked env (record l { tx_key = none })).0, result)
      else (l, result)

  unfoldable pub send_reply : Bool → Env → List ℕ → List ℕ → Link → Link × Ret
  unfolding restart_outbound send_signed sign_control
  send_reply new_boot env client request l =
      let body = reply_body client request l in
      restart_outbound new_boot env (send_signed body env.send_reply (sign_control l body) l)

  -- What a request that was derived from `fresh` leaves, or the error that ended it.
  unfoldable pub adopt : Bool → Env → List ℕ → List ℕ → List ℕ → Link × Ret → Link × Ret
  adopt new_boot env client request fresh (l, err e) = (l, err e)
  adopt new_boot env client request fresh (l, ok) =
      send_reply new_boot env client request
        (record l { peer_boot = client; peer_request = request; server_nonce = fresh })

  unfoldable pub answer_new : Bool → Env → List ℕ → List ℕ → Random → Link → Link × Ret
  unfolding adopt
  answer_new new_boot env client request (no_random _ _) l = (l, err eio)
  answer_new new_boot env client request (drawn fresh) l =
      adopt new_boot env client request fresh (derive_key env client request fresh false l)

  -- The rest of hello_received() for a duplicate and for a new request.
  unfoldable pub answer : Env → List ℕ → Bool → Bool → Link → Link × Ret
  answer env frame new_boot true l = send_reply new_boot env (client_of frame) (request_of frame) l
  answer env frame new_boot false l =
      answer_new new_boot env (client_of frame) (request_of frame) env.fresh l

  unfoldable pub hello_received : Env → List ℕ → Link → Link × Ret
  hello_received env frame l =
      if not (is_duplicate frame l) && too_soon env.now l.last_hello
      then (l, err eagain)
      else answer env frame (is_new_boot frame l) (is_duplicate frame l)
          (record l { last_hello = pos env.now })

  unfoldable pub reply_received : Env → List ℕ → Link → Link × Ret
  unfolding settle
  reply_received env frame l =
      if not l.pending
        || not (bytes_eq (client_of frame) l.boot_nonce)
        || not (bytes_eq (request_of frame) l.request_nonce)
      then (l, err ealready)
      else settle (derive_key env l.boot_nonce l.request_nonce (server_of frame) true l)

  -- The guards of control_received() in front of the signature.
  abbrev pub well_addressed : CspId → Bool
  well_addressed id =
      id.src == c.peer
      && id.dst == c.local
      && id.sport == 0
      && id.dport == 0
      && id.flags == 0
      && id.pri == 0

  unfoldable pub control_received : Env → Packet → Link → Link × Ret
  control_received env packet l =
      if not (length packet.bytes == expected_size packet.bytes)
        || not (well_addressed packet.id)
        || is_none l.master
        || not l.settings.enabled
        || not (verify_control l packet.bytes (expected_size packet.bytes))
      then (l, err eacces)
      else if is_hello packet.bytes
      then hello_received env packet.bytes l
      else reply_received env packet.bytes l
