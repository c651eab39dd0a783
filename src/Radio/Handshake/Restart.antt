-- ===== src/Radio/Handshake/Restart.antt =====
-- What a restart of the peer does to the outbound session (`hello_received` of
-- radio-uhf/src/radio_crypto.c).
use kfsw_modules.Prelude.{
  ℕ, ◌≡◌, ◌⊎◌, inl, inr, Bool, true, false, not, ◌&&◌, if_true, if_false, sym, none, some, Option,
  List, arith, ◌∙◌, refl, ap,
}
use kfsw_modules.Prelude.Int.{pos}
use kfsw_modules.Errno.{Ret, ok, err, eagain}
use kfsw_modules.Radio.Platform.{Platform}
use kfsw_modules.Radio.Link.{Config, Link, Env, Packet, Random, drawn, no_random, too_soon}
use kfsw_modules.Radio.Handshake.{
  client_of, request_of, hello_received, is_hello, control_received, derive_key, answer, answer_new,
  adopt, is_duplicate, is_new_boot, send_reply, connect_locked, restart_outbound, send_signed,
  reply_body, sign_control,
}
use kfsw_modules.Radio.Handshake.Keys.{control-hello}
use kfsw_modules.Radio.Frames.{encode}
use kfsw_modules.Radio.Frames.Secrecy.{encode_keyless}

-- No outbound session; and no answer that the link waits for, unless its last request before `now`
-- was a second ago or more.
pub record Ended (now : ℕ) (l l' : Link) : Type 0 where
  pub tx_key : l'.tx_key ≡ none
  pub waits : (l'.pending ≡ false) ⊎ (too_soon now l.last_request ≡ false)
  pub settings : l'.settings ≡ l.settings

-- What a request asks of the link besides the keys.
record Quiet (a b : Link) : Type 0 where
  pending : b.pending ≡ a.pending
  last_request : b.last_request ≡ a.last_request
  settings : b.settings ≡ a.settings

Quiet-Ended : {now : ℕ} {a b l : Link} → Quiet a b → Ended now b l → Ended now a l
Quiet-Ended {now} {a} {b} {l} q h = record {
  tx_key = h.tx_key;
  waits = elim h.waits [
    | inl none_sent ↦ inl none_sent
    | inr late ↦ inr (ap (too_soon now) (sym q.last_request) ∙ late)
  ];
  settings = h.settings ∙ q.settings;
}

module _ (c : Config) (p : Platform) (env : Env) where
  connect_locked-Ended :
      (l : Link)
      → l.tx_key ≡ none
      → l.pending ≡ false
      → Ended env.now l (connect_locked c p env l).0
  unfolding connect_locked
  connect_locked-Ended l key waits = record {
    tx_key = ground (arith, key);
    waits = ground (arith, waits);
    settings = ground arith;
  }

  restart_outbound-Ended :
      (l : Link) (r : Ret)
      → l.pending ≡ false
      → Ended env.now l (restart_outbound c p true env (l, r)).0
  unfolding restart_outbound
  restart_outbound-Ended l r waits =
      let ended = connect_locked-Ended (record l { tx_key = none }) refl waits in
      let renewed : restart_outbound c p true env (l, r)
          ≡ ((connect_locked c p env (record l { tx_key = none })).0, r) =
        if_true (not l.pending) _ _ (ap not waits) in
      rw renewed (record { tx_key = ended.tx_key; waits = ended.waits; settings = ended.settings })

  send_signed-Quiet :
      (body : List ℕ) (r : Ret) (tag : Option (List ℕ)) (l : Link)
      → Quiet l (send_signed body r tag l).0
  unfolding send_signed
  send_signed-Quiet body r none l = record { pending = refl; last_request = refl; settings = refl }
  send_signed-Quiet body r (some t) l = record {
    pending = refl;
    last_request = refl;
    settings = refl;
  }

  send_reply-Ended :
      (client request : List ℕ) (l : Link)
      → l.pending ≡ false
      → Ended env.now l (send_reply c p true env client request l).0
  unfolding send_reply
  send_reply-Ended client request l waits =
      let body = reply_body client request l in
      let (l1, r) = send_signed body env.send_reply (sign_control c p l body) l in
      let quiet = send_signed-Quiet body env.send_reply (sign_control c p l body) l in
      Quiet-Ended quiet (restart_outbound-Ended l1 r (quiet.pending ∙ waits))

  derive_key-Quiet :
      (client request server : List ℕ) (l : Link)
      → Quiet l (derive_key c p env client request server false l).0
  unfolding derive_key
  derive_key-Quiet client request server l = record {
    pending = ground arith;
    last_request = ground arith;
    settings = ground arith;
  }

  adopt-Ended :
      (client request fresh : List ℕ) (l : Link) (r : Ret)
      → l.pending ≡ false
      → (adopt c p true env client request fresh (l, r)).1 ≡ ok
      → Ended env.now l (adopt c p true env client request fresh (l, r)).0
  unfolding adopt
  adopt-Ended client request fresh l ok waits h =
      Quiet-Ended (record { pending = refl; last_request = refl; settings = refl })
        (send_reply-Ended client request
          (record l { peer_boot = client; peer_request = request; server_nonce = fresh }) waits)
  adopt-Ended client request fresh l (err e) waits h = absurd (cc)

  answer_new-Ended :
      (client request : List ℕ) (r : Random) (l : Link)
      → l.pending ≡ false
      → (answer_new c p true env client request r l).1 ≡ ok
      → Ended env.now l (answer_new c p true env client request r l).0
  unfolding answer_new
  answer_new-Ended client request (no_random e left) l waits h = absurd (cc)
  answer_new-Ended client request (drawn fresh) l waits h =
      let (l1, r) = derive_key c p env client request fresh false l in
      let quiet = derive_key-Quiet client request fresh l in
      Quiet-Ended quiet (adopt-Ended client request fresh l1 r (quiet.pending ∙ waits) h)

  answer-Ended :
      (frame : List ℕ) (new_boot duplicate : Bool) (l : Link)
      → new_boot ≡ true
      → duplicate ≡ false
      → l.pending ≡ false
      → (answer c p env frame new_boot duplicate l).1 ≡ ok
      → Ended env.now l (answer c p env frame new_boot duplicate l).0
  unfolding answer
  answer-Ended frame new_boot true l new fresh waits h = absurd (cc)
  answer-Ended frame false false l new fresh waits h = absurd (cc)
  answer-Ended frame true false l new fresh waits h =
      answer_new-Ended (client_of frame) (request_of frame) env.fresh l waits h

  hello_received-Ended :
      (frame : List ℕ) (l : Link)
      → is_new_boot frame l ≡ true
      → l.pending ≡ false
      → (hello_received c p env frame l).1 ≡ ok
      → Ended env.now l (hello_received c p env frame l).0
  unfolding hello_received
  hello_received-Ended frame l new waits h =
      let late : (not (is_duplicate frame l) && too_soon env.now l.last_hello) ≡ false =
        ground arith in
      let first : is_duplicate frame l ≡ false = ground (arith, new) in
      rw (if_false _ _ _ late) (
        Quiet-Ended (record { pending = refl; last_request = refl; settings = refl })
          (answer-Ended frame (is_new_boot frame l) (is_duplicate frame l)
            (record l { last_hello = pos env.now }) new first waits
            (rw (if_false _ _ _ late) at h)))

-- A request of a peer that has restarted ends the outbound session, whatever its age: when the link
-- waits for no answer and accepts a request under a boot nonce that it does not know, it has no
-- transmit key any more, encode() answers the next packet with EAGAIN and leaves it unencrypted in
-- the sender's hands, if packets are to be protected; and the link waits for the answer to a request
-- of its own only if its last one was a second ago or more.
pub control_received-Ended :
    (c : Config) (p : Platform) (env env' : Env) (packet packet' : Packet) (l : Link)
    → is_hello packet.bytes ≡ true
    → is_new_boot packet.bytes l ≡ true
    → l.pending ≡ false
    → l.settings.enabled ≡ true
    → l.settings.tx ≡ true
    → (control_received c p env packet l).1 ≡ ok
    → let l' = (control_received c p env packet l).0 in
      (l'.tx_key ≡ none)
      × ((encode c p env' packet' l').2 ≡ err eagain)
      × ((encode c p env' packet' l').1 ≡ packet')
      × ((l'.pending ≡ false) ⊎ (too_soon env.now l.last_request ≡ false))
control_received-Ended c p env env' packet packet' l hello new waits on tx h =
    let path = control-hello c p env packet l hello h in
    let ended : Ended env.now l (control_received c p env packet l).0 =
      rw path (hello_received-Ended c p env packet.bytes l new waits (rw path at h)) in
    let l' = (control_received c p env packet l).0 in
    let (sent, kept) =
      encode_keyless c p env' packet' l' (rw ended.settings on) (rw ended.settings tx)
        ended.tx_key in
    (ended.tx_key, sent, kept, ended.waits)
