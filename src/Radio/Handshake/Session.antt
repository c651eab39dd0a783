-- ===== src/Radio/Handshake/Session.antt =====
-- A handshake that nothing disturbs (`kfsw_radio_uhf_crypto_connect`, `hello_received` and
-- `reply_received` of radio-uhf/src/radio_crypto.c).
use kfsw_modules.Prelude.{
  ℕ, ◌+◌, ◌-◌, ◌≡◌, refl, ap, ◌∙◌, Bool, Bool-cases, true, false, not, ◌&&◌, ◌||◌, inl, inr,
  take-all, Option, some, none, List, [], ◌∷◌, ◌++◌, arith, length, take-append_exact,
  drop-append_exact,
}
use kfsw_modules.Prelude.Int.{pos}
use kfsw_modules.Errno.{Ret, ok}
use kfsw_modules.Radio.Platform.{Platform, Laws}
use kfsw_modules.Radio.Link.{Config, Link, Env, Random, drawn, no_random, too_soon, put_header}
use kfsw_modules.Radio.Handshake.{
  hello_body, reply_body, connect, sign_control, verify_control, control_id, send_reply,
  connect_locked, restart_outbound, request_with, send_signed, mark_pending, is_none,
}
use kfsw_modules.Radio.Handshake.Agreement.{connect_locked-SameInbound}

-- A tag is computed for every message under the key.
abbrev pub Signs : Platform → List ℕ → Type 0
Signs p m = (message : List ℕ) → (tag : List ℕ) × (p.mac_compute m message ≡ some tag)

-- The link when a request with the nonce `request` has been made at `now`.
abbrev pub requested : ℕ → List ℕ → List ℕ → Link → Link
requested now request tag l =
    let l' = record l { last_request = pos now; request_nonce = request; pending = true } in
    record l' { sent = (hello_body l' ++ tag) ∷ l.sent; last_error = ok }

module _ (c : Config) (p : Platform) (env : Env) (m : List ℕ) (l : Link) where
  pub connect-requested :
      (request : List ℕ)
      → l.master ≡ some m
      → l.settings.enabled ≡ true
      → too_soon env.now l.last_request ≡ false
      → env.request ≡ drawn request
      → env.send_hello ≡ ok
      → Signs p m
      → (tag : List ℕ) × (sign_control c p l (hello_body (record l { request_nonce = request }))
          ≡ some tag)
        × (connect c p env l ≡ (requested env.now request tag l, ok))
  unfolding connect sign_control
  connect-requested request master on due random sends signs =
      let (tag, mac) = signs (
        put_header p (control_id c.local c.peer)
        ++ hello_body (record l { request_nonce = request })) in
      (tag, ground (arith, mac), ground (arith, mac))

-- What one end signs the other verifies.
module _ (ca cb : Config) (p : Platform) (m body tag : List ℕ) (la lb : Link) where
  pub signed-verified :
      (size : ℕ)
      → Laws p
      → cb.local ≡ ca.peer
      → cb.peer ≡ ca.local
      → la.master ≡ some m
      → lb.master ≡ some m
      → sign_control ca p la body ≡ some tag
      → length body + 32 ≡ size
      → verify_control cb p lb (body ++ tag) size ≡ true
  unfolding sign_control verify_control
  signed-verified size laws l1 l2 ma mb signed sized =
      let start : size - 32 ≡ length body = omega arith in
      let mac : p.mac_compute m (put_header p (control_id ca.local ca.peer) ++ body) ≡ some tag =
        cc (ma, signed) in
      rw (start, mb, l1, l2)
        (rw
          (
            take-append_exact (length body) body tag refl,
            drop-append_exact (length body) body tag refl,
            take-all 32 tag (omega (arith, laws.length-mac m _ tag mac)),
          )
          (laws.verify-mac m _ tag mac))

-- The answer to a request: the frames that it hands to the codec are the reply and, when a peer that
-- restarted makes the link ask for a session of its own, a request behind it.
pub record Replied (c : Config) (p : Platform) (client request : List ℕ) (l l' : Link)
    : Type 0 where
  pub tag : List ℕ
  pub signed : sign_control c p l' (reply_body client request l') ≡ some tag
  pub more : List (List ℕ)
  pub sent : l'.sent ≡ more ++ (reply_body client request l' ++ tag) ∷ l.sent
  pub settings : l'.settings ≡ l.settings
  pub rx_key : l'.rx_key ≡ l.rx_key
  pub rx_sequence : l'.rx_sequence ≡ l.rx_sequence
  pub server_nonce : l'.server_nonce ≡ l.server_nonce
  pub master : l'.master ≡ l.master

send_signed-sent :
    (body : List ℕ) (r : Ret) (tag : Option (List ℕ)) (l : Link)
    → (more : List (List ℕ)) × ((send_signed body r tag l).0.sent ≡ more ++ l.sent)
unfolding send_signed
send_signed-sent body r none l = ([], refl)
send_signed-sent body r (some tag) l = ((body ++ tag) ∷ [], refl)

mark_pending-sent : (tag : Option (List ℕ)) (l : Link) → (mark_pending tag l).sent ≡ l.sent
unfolding mark_pending
mark_pending-sent none l = refl
mark_pending-sent (some tag) l = refl

module _ (c : Config) (p : Platform) (env : Env) where
  request_with-sent :
      (r : Random) (l : Link)
      → (more : List (List ℕ)) × ((request_with c p env r l).0.sent ≡ more ++ l.sent)
  unfolding request_with
  request_with-sent (no_random e left) l = ([], refl)
  request_with-sent (drawn nonce) l =
      let l' = record l { request_nonce = nonce } in
      let tag = sign_control c p l' (hello_body l') in
      let (more, sent) =
        send_signed-sent (hello_body l') env.send_hello tag (mark_pending tag l') in
      (more, sent ∙ ap (λ s. more ++ s) (mark_pending-sent tag l'))

  connect_locked-sent :
      (l : Link) → (more : List (List ℕ)) × ((connect_locked c p env l).0.sent ≡ more ++ l.sent)
  unfolding connect_locked
  connect_locked-sent l =
      let (more, sent) = request_with-sent env.request (record l { last_request = pos env.now }) in
      elim (Bool-cases (is_none l.master || not l.settings.enabled)) [
        | inl refused ↦ ([], ground (arith, refused))
        | inr allowed ↦ elim (Bool-cases (too_soon env.now l.last_request)) [
          | inl early ↦ ([], ground (arith, allowed, early))
          | inr due ↦ (more, ground (arith, allowed, due, sent))
        ]
      ]

  connect_locked-settings : (l : Link) → (connect_locked c p env l).0.settings ≡ l.settings
  unfolding connect_locked
  connect_locked-settings l = ground arith

  restart_outbound-Replied :
      (client request tag : List ℕ) (new_boot : Bool) (l : Link)
      → sign_control c p l (reply_body client request l) ≡ some tag
      → let l1 = record l { sent = (reply_body client request l ++ tag) ∷ l.sent } in
        ((restart_outbound c p new_boot env (l1, ok)).1 ≡ ok)
        × Replied c p client request l (restart_outbound c p new_boot env (l1, ok)).0
  unfolding restart_outbound sign_control
  restart_outbound-Replied client request tag new_boot l signed =
      let l1 = record l { sent = (reply_body client request l ++ tag) ∷ l.sent } in
      let asking = record l1 { tx_key = none } in
      let (more, sent) = connect_locked-sent asking in
      let same = connect_locked-SameInbound c p env asking in
      elim (Bool-cases (new_boot && not l.pending)) [
        | inl renewed ↦ rw renewed (
          refl,
          record {
            tag = tag;
            signed = rw (same.server_nonce, same.master) signed;
            more = more;
            sent = rw same.server_nonce sent;
            settings = connect_locked-settings asking;
            rx_key = same.rx_key;
            rx_sequence = same.rx_sequence;
            server_nonce = same.server_nonce;
            master = same.master;
          },
        )
        | inr kept ↦ rw kept (
          refl,
          record {
            tag = tag;
            signed = signed;
            more = [];
            sent = refl;
            settings = refl;
            rx_key = refl;
            rx_sequence = refl;
            server_nonce = refl;
            master = refl;
          },
        )
      ]

  pub send_reply-Replied :
      (m client request : List ℕ) (new_boot : Bool) (l : Link)
      → l.master ≡ some m
      → env.send_reply ≡ ok
      → Signs p m
      → ((send_reply c p new_boot env client request l).1 ≡ ok)
        × Replied c p client request l (send_reply c p new_boot env client request l).0
  unfolding send_reply sign_control
  send_reply-Replied m client request new_boot l master sends signs =
      let (tag, mac) =
        signs (put_header p (control_id c.local c.peer) ++ reply_body client request l) in
      let signed : sign_control c p l (reply_body client request l) ≡ some tag = rw master mac in
      rw (signed, sends) (restart_outbound-Replied client request tag new_boot l signed)
