-- ===== src/Radio/Pace.antt =====
-- How often the link asks for a session: connect_locked() of radio-uhf/src/radio_crypto.c and the calls
-- that lead to it.
pub mod Bound
use kfsw_modules.Prelude.{
  ℕ, ◌+◌, ◌≤◌, ◌≡◌, ◌⊎◌, inl, inr, refl, ap, ◌∙◌, Bool, true, false, not, Option, none, some, List,
  [], ◌∷◌, ◌++◌, arith, ◌==◌, ◌&&◌, ◌||◌, if◌then◌else◌, if_true, if_false, get_or, Bool-cases,
}
use kfsw_modules.Prelude.Int.{ℤ, pos}
use kfsw_modules.Errno.{Errno, Ret, ok, err}
use kfsw_modules.Radio.Platform.{Platform}
use kfsw_modules.Radio.Link.{Config, Link, Env, Packet, Random, drawn, no_random, too_soon}
use kfsw_modules.Radio.Handshake.{
  is_hello, is_duplicate, is_new_boot, server_of, connect_locked, connect, send_reply, adopt,
  answer_new, answer, hello_received, reply_received, control_received, derive_key,
}
use kfsw_modules.Radio.Frames.{
  Verdict, finish, control_verdict, decode_plain, is_control, encode, decode,
}

-- The requests among the frames that were handed to the codec.
abbrev pub requests : List (List ℕ) → ℕ
requests [] = 0
requests (frame ∷ rest) = (if is_hello frame then 1 else 0) + requests rest

-- What a call does to the requests: it makes none and leaves the clock of the last one, or it makes at
-- most one, no sooner than RETRY_MS after the last.
abbrev pub Asks : Env → Link → Link → Type 0
Asks env l l' =
    ((requests l'.sent ≡ requests l.sent) × (l'.last_request ≡ l.last_request))
    ⊎ ((too_soon env.now l.last_request ≡ false)
        × (l'.last_request ≡ pos env.now)
        × (requests l'.sent ≤ requests l.sent + 1))

module _ (c : Config) (p : Platform) where
  connect_locked-Asks : (env : Env) (l : Link) → Asks env l (connect_locked c p env l).0
  unfolding connect_locked
  connect_locked-Asks env l = ground arith

  pub connect-Asks : (env : Env) (l : Link) → Asks env l (connect c p env l).0
  unfolding connect
  connect-Asks env l = ground (arith, connect_locked-Asks env l)

  send_reply-Asks :
      (new_boot : Bool) (env : Env) (client request : List ℕ) (l : Link)
      → Asks env l (send_reply c p new_boot env client request l).0
  unfolding send_reply
  send_reply-Asks new_boot env client request l = ground arith

  derive_key-same :
      (env : Env) (client request server : List ℕ) (transmit : Bool) (l : Link)
      → ((derive_key c p env client request server transmit l).0.sent ≡ l.sent)
        × ((derive_key c p env client request server transmit l).0.last_request ≡ l.last_request)
  unfolding derive_key
  derive_key-same env client request server transmit l = ground arith

  Asks-same :
      (env : Env) (l m l' : Link)
      → m.sent ≡ l.sent
      → m.last_request ≡ l.last_request
      → Asks env m l'
      → Asks env l l'
  Asks-same env l m l' same clock h = ground (arith, same, clock, h)

  adopt-Asks :
      (new_boot : Bool) (env : Env) (client request fresh : List ℕ) (l : Link) (r : Link × Ret)
      → r.0.sent ≡ l.sent
      → r.0.last_request ≡ l.last_request
      → Asks env l (adopt c p new_boot env client request fresh r).0
  unfolding adopt
  adopt-Asks new_boot env client request fresh l (m, err e) same clock =
      inl (ap requests same, clock)
  adopt-Asks new_boot env client request fresh l (m, ok) same clock =
      let m' : Link = record m {
        peer_boot = client;
        peer_request = request;
        server_nonce = fresh;
      } in
      Asks-same env l m' (send_reply c p new_boot env client request m').0 same clock
        (send_reply-Asks new_boot env client request m')

  answer_new-Asks :
      (new_boot : Bool) (env : Env) (client request : List ℕ) (r : Random) (l : Link)
      → Asks env l (answer_new c p new_boot env client request r l).0
  unfolding answer_new
  answer_new-Asks new_boot env client request (no_random e left) l = inl (refl, refl)
  answer_new-Asks new_boot env client request (drawn fresh) l =
      let (same, clock) = derive_key-same env client request fresh false l in
      adopt-Asks new_boot env client request fresh l
        (derive_key c p env client request fresh false l) same clock

  answer-Asks :
      (env : Env) (frame : List ℕ) (new_boot duplicate : Bool) (l : Link)
      → Asks env l (answer c p env frame new_boot duplicate l).0
  unfolding answer
  answer-Asks env frame new_boot true l = send_reply-Asks new_boot env _ _ l
  answer-Asks env frame new_boot false l = answer_new-Asks new_boot env _ _ env.fresh l

  hello_received-Asks :
      (env : Env) (frame : List ℕ) (l : Link) → Asks env l (hello_received c p env frame l).0
  unfolding hello_received
  hello_received-Asks env frame l =
      elim (Bool-cases (not (is_duplicate frame l) && too_soon env.now l.last_hello)) [
        | inl h ↦ rw h (inl (refl, refl))
        | inr h ↦ rw h (
            answer-Asks env frame (is_new_boot frame l) (is_duplicate frame l)
              (record l { last_hello = pos env.now }))
      ]

  reply_received-Asks :
      (env : Env) (frame : List ℕ) (l : Link) → Asks env l (reply_received c p env frame l).0
  unfolding reply_received
  reply_received-Asks env frame l =
      ground (arith, derive_key-same env l.boot_nonce l.request_nonce (server_of frame) true l)

  control_received-Asks :
      (env : Env) (packet : Packet) (l : Link) → Asks env l (control_received c p env packet l).0
  unfolding control_received
  control_received-Asks env packet l =
      ground (arith, hello_received-Asks env packet.bytes l, reply_received-Asks env packet.bytes l)

  Asks-then :
      (env : Env) (l m l' : Link)
      → Asks env l m
      → l'.sent ≡ m.sent
      → l'.last_request ≡ m.last_request
      → Asks env l l'
  Asks-then env l m l' h same clock = ground (arith, same, clock, h)

  finish-same :
      (q : Link × Packet × Verdict)
      → ((finish q).0.sent ≡ q.0.sent) × ((finish q).0.last_request ≡ q.0.last_request)
  unfolding finish
  finish-same q = ground arith

  control_verdict-link : (packet : Packet) (q : Link × Ret) → (control_verdict packet q).0 ≡ q.0
  unfolding control_verdict
  control_verdict-link packet q = ground arith

  decode_plain-same :
      (packet : Packet) (l : Link)
      → ((decode_plain c p packet l).0.sent ≡ l.sent)
        × ((decode_plain c p packet l).0.last_request ≡ l.last_request)
  unfolding decode_plain
  decode_plain-same packet l = ground arith

  decode_control :
      (env : Env) (packet : Packet) (l : Link)
      → Asks env l (finish (control_verdict packet (control_received c p env packet l))).0
  decode_control env packet l =
      let q = control_received c p env packet l in
      let (same, clock) = finish-same (control_verdict packet q) in
      let link = control_verdict-link packet q in
      Asks-then env l q.0 (finish (control_verdict packet q)).0 (control_received-Asks env packet l)
        (same ∙ ap (λ t. t.sent) link) (clock ∙ ap (λ t. t.last_request) link)

  decode_data :
      (env : Env) (packet : Packet) (l : Link) → Asks env l (finish (decode_plain c p packet l)).0
  decode_data env packet l =
      let (same, clock) = finish-same (decode_plain c p packet l) in
      let (kept, still) = decode_plain-same packet l in
      inl (ap requests (same ∙ kept), clock ∙ still)

  pub decode-Asks :
      (env : Env) (packet : Packet) (l : Link) → Asks env l (decode c p env packet l).0
  unfolding decode
  decode-Asks env packet l = elim (Bool-cases (is_control packet.bytes)) [
    | inl h ↦ rw h (decode_control env packet l)
    | inr h ↦ rw h (decode_data env packet l)
  ]

  pub encode-Asks :
      (env : Env) (packet : Packet) (l : Link) → Asks env l (encode c p env packet l).0
  unfolding encode
  encode-Asks env packet l = ground (arith, connect_locked-Asks env l)
