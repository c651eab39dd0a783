-- ===== src/Radio/Control/Unchanged.antt =====
-- Packets and requests leave the settings as they are (`encode`, `decode` and
-- `kfsw_radio_uhf_crypto_connect` of radio-uhf/src/radio_crypto.c).
use kfsw_modules.Prelude.{
  ℕ, ◌≡◌, refl, ◌∙◌, Bool, Bool-cases, ◌&&◌, inl, inr, true, false, not, List, [], ◌∷◌, arith,
}
use kfsw_modules.Errno.{Ret, ok, err}
use kfsw_modules.Radio.Platform.{Platform}
use kfsw_modules.Radio.Link.{Config, Link, Env, Packet, Random, drawn, no_random, too_soon}
use kfsw_modules.Radio.Handshake.{
  connect, connect_locked, send_reply, derive_key, adopt, answer_new, answer, hello_received,
  reply_received, control_received, is_duplicate, is_new_boot, server_of,
}
use kfsw_modules.Prelude.Int.{pos}
use kfsw_modules.Radio.Frames.{
  Verdict, encode, decode, decode_plain, finish, control_verdict, is_control,
}
use kfsw_modules.Radio.Pace.Bound.{Traffic, connects, encodes, decodes}
use kfsw_modules.Radio.Pace.Bound

-- What a change of the settings reads of the link.
pub record SameSettings (a b : Link) : Type 0 where
  pub settings : b.settings ≡ a.settings
  pub initialized : b.initialized ≡ a.initialized

kept-SameSettings : {l : Link} → SameSettings l l
kept-SameSettings = record { settings = refl; initialized = refl }

-- One step after another.
then_also : {a b l : Link} → SameSettings a b → SameSettings b l → SameSettings a l
then_also h k = record {
  settings = k.settings ∙ h.settings;
  initialized = k.initialized ∙ h.initialized;
}

module _ (c : Config) (p : Platform) (env : Env) where
  connect_locked-SameSettings : (l : Link) → SameSettings l (connect_locked c p env l).0
  unfolding connect_locked
  connect_locked-SameSettings l = ground arith

  connect-SameSettings : (l : Link) → SameSettings l (connect c p env l).0
  unfolding connect
  connect-SameSettings l = ground (arith, connect_locked-SameSettings l)

  encode-SameSettings : (packet : Packet) (l : Link) → SameSettings l (encode c p env packet l).0
  unfolding encode
  encode-SameSettings packet l = ground (arith, connect_locked-SameSettings l)

  send_reply-SameSettings :
      (new_boot : Bool) (client request : List ℕ) (l : Link)
      → SameSettings l (send_reply c p new_boot env client request l).0
  unfolding send_reply
  send_reply-SameSettings new_boot client request l = ground arith

  derive_key-SameSettings :
      (client request server : List ℕ) (transmit : Bool) (l : Link)
      → SameSettings l (derive_key c p env client request server transmit l).0
  unfolding derive_key
  derive_key-SameSettings client request server transmit l = ground arith

  adopt-SameSettings :
      (new_boot : Bool) (client request fresh : List ℕ) (r : Link × Ret)
      → SameSettings r.0 (adopt c p new_boot env client request fresh r).0
  unfolding adopt
  adopt-SameSettings new_boot client request fresh (l, err e) = kept-SameSettings
  adopt-SameSettings new_boot client request fresh (l, ok) =
      let l1 = record l { peer_boot = client; peer_request = request; server_nonce = fresh } in
      let kept = send_reply-SameSettings new_boot client request l1 in
      record { settings = kept.settings; initialized = kept.initialized }

  answer_new-SameSettings :
      (new_boot : Bool) (client request : List ℕ) (r : Random) (l : Link)
      → SameSettings l (answer_new c p new_boot env client request r l).0
  unfolding answer_new
  answer_new-SameSettings new_boot client request (no_random e left) l = kept-SameSettings
  answer_new-SameSettings new_boot client request (drawn fresh) l =
      then_also (derive_key-SameSettings client request fresh false l) (
        adopt-SameSettings new_boot client request fresh
          (derive_key c p env client request fresh false l))

  answer-SameSettings :
      (frame : List ℕ) (new_boot duplicate : Bool) (l : Link)
      → SameSettings l (answer c p env frame new_boot duplicate l).0
  unfolding answer
  answer-SameSettings frame new_boot true l = send_reply-SameSettings new_boot _ _ l
  answer-SameSettings frame new_boot false l = answer_new-SameSettings new_boot _ _ env.fresh l

  hello_received-SameSettings :
      (frame : List ℕ) (l : Link) → SameSettings l (hello_received c p env frame l).0
  unfolding hello_received
  hello_received-SameSettings frame l =
      elim (Bool-cases (not (is_duplicate frame l) && too_soon env.now l.last_hello)) [
        | inl h ↦ rw h kept-SameSettings
        | inr h ↦
            let l1 = record l { last_hello = pos env.now } in
            let kept = answer-SameSettings frame (is_new_boot frame l) (is_duplicate frame l) l1 in
            rw h (record { settings = kept.settings; initialized = kept.initialized })
      ]

  reply_received-SameSettings :
      (frame : List ℕ) (l : Link) → SameSettings l (reply_received c p env frame l).0
  unfolding reply_received
  reply_received-SameSettings frame l =
      ground (arith, derive_key-SameSettings l.boot_nonce l.request_nonce (server_of frame) true l)

  control_received-SameSettings :
      (packet : Packet) (l : Link) → SameSettings l (control_received c p env packet l).0
  unfolding control_received
  control_received-SameSettings packet l = ground (
    arith,
    hello_received-SameSettings packet.bytes l,
    reply_received-SameSettings packet.bytes l,
  )

  finish-SameSettings : (q : Link × Packet × Verdict) → SameSettings q.0 (finish q).0
  unfolding finish
  finish-SameSettings q = ground arith

  verdict-SameSettings :
      (packet : Packet) (q : Link × Ret) → SameSettings q.0 (control_verdict packet q).0
  unfolding control_verdict
  verdict-SameSettings packet q = ground arith

  plain-SameSettings : (packet : Packet) (l : Link) → SameSettings l (decode_plain c p packet l).0
  unfolding decode_plain
  plain-SameSettings packet l = ground arith

  decode-SameSettings : (packet : Packet) (l : Link) → SameSettings l (decode c p env packet l).0
  unfolding decode
  decode-SameSettings packet l = elim (Bool-cases (is_control packet.bytes)) [
    | inl h ↦
        let q = control_received c p env packet l in
        rw h (
          then_also (control_received-SameSettings packet l) (
            then_also (verdict-SameSettings packet q)
              (finish-SameSettings (control_verdict packet q))))
    | inr h ↦
        rw h (
          then_also (plain-SameSettings packet l) (finish-SameSettings (decode_plain c p packet l)))
  ]

module _ (c : Config) (p : Platform) where
  step-SameSettings :
      (env : Env) (call : Traffic) (l : Link) → SameSettings l (Bound.step c p env call l)
  unfolding Bound.step
  step-SameSettings env connects l = connect-SameSettings c p env l
  step-SameSettings env (encodes packet) l = encode-SameSettings c p env packet l
  step-SameSettings env (decodes packet) l = decode-SameSettings c p env packet l

  pub run-SameSettings :
      (calls : List (Env × Traffic)) (l : Link) → SameSettings l (Bound.run c p calls l)
  unfolding Bound.run
  run-SameSettings [] l = kept-SameSettings
  run-SameSettings ((env, call) ∷ rest) l =
      then_also (step-SameSettings env call l) (run-SameSettings rest (Bound.step c p env call l))
