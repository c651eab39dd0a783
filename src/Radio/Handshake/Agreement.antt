-- ===== src/Radio/Handshake/Agreement.antt =====
-- The two ends of a handshake derive one key (`hello_received`, `control_received` and `derive_key`
-- of radio-uhf/src/radio_crypto.c).
use kfsw_modules.Prelude.{
  ℕ, ◌≡◌, refl, ap, ◌∙◌, Bool, true, false, not, ◌&&◌, some, none, Option, List, [], ◌∷◌, arith,
  if_false,
}
use kfsw_modules.Prelude.Int.{pos}
use kfsw_modules.Errno.{Ret, ok, err}
use kfsw_modules.Radio.Platform.{Platform}
use kfsw_modules.Radio.Link.{Config, Link, Env, Random, drawn, no_random, bytes_eq, too_soon}
use kfsw_modules.Radio.Handshake.{
  client_of, request_of, key_context, connect_locked, send_reply, answer_new, answer,
  hello_received, derive_key, is_duplicate, is_new_boot, adopt,
}

-- What belongs to the inbound session.
pub record SameInbound (a b : Link) : Type 0 where
  pub rx_key : b.rx_key ≡ a.rx_key
  pub rx_sequence : b.rx_sequence ≡ a.rx_sequence
  pub peer_boot : b.peer_boot ≡ a.peer_boot
  pub peer_request : b.peer_request ≡ a.peer_request
  pub server_nonce : b.server_nonce ≡ a.server_nonce
  pub master : b.master ≡ a.master

pub bytes_eq_sound : (xs ys : List ℕ) → bytes_eq xs ys ≡ true → xs ≡ ys
unfolding bytes_eq
bytes_eq_sound [] [] h = refl
bytes_eq_sound [] (y ∷ ys) h = cc
bytes_eq_sound (x ∷ xs) [] h = cc
bytes_eq_sound (x ∷ xs) (y ∷ ys) h = ground (arith, bytes_eq_sound xs ys)

pub bytes_eq_refl : (xs : List ℕ) → bytes_eq xs xs ≡ true
unfolding bytes_eq
bytes_eq_refl [] = refl
bytes_eq_refl (x ∷ xs) = ground (arith, bytes_eq_refl xs)

module _ (c : Config) (p : Platform) where
  pub connect_locked-SameInbound :
      (env : Env) (l : Link) → SameInbound l (connect_locked c p env l).0
  unfolding connect_locked
  connect_locked-SameInbound env l = ground arith

  pub send_reply-SameInbound :
      (new_boot : Bool) (env : Env) (client request : List ℕ) (l : Link)
      → SameInbound l (send_reply c p new_boot env client request l).0
  unfolding send_reply
  send_reply-SameInbound new_boot env client request l = ground arith

  -- The inbound key is the one that the peer's last handshake determines.
  pub record IsBound (m : List ℕ) (l : Link) : Type 0 where
    pub key :
        (k : List ℕ)
        → l.rx_key ≡ some k
        → p.mac_compute m (key_context p c.peer c.local l.peer_boot l.peer_request l.server_nonce)
          ≡ some k

  -- The inbound session is the one of the handshake that `client` and `request` name.
  pub record Answered (m client request : List ℕ) (l : Link) : Type 0 where
    pub boot : l.peer_boot ≡ client
    pub asked : l.peer_request ≡ request
    pub key : List ℕ
    pub installed : l.rx_key ≡ some key
    pub derived :
        p.mac_compute m (key_context p c.peer c.local client request l.server_nonce) ≡ some key

  Answered-SameInbound :
      {m client request : List ℕ} {a b : Link}
      → SameInbound a b
      → Answered m client request a
      → Answered m client request b
  Answered-SameInbound s h = record {
    boot = s.peer_boot ∙ h.boot;
    asked = s.peer_request ∙ h.asked;
    key = h.key;
    installed = s.rx_key ∙ h.installed;
    derived = rw s.server_nonce h.derived;
  }

  duplicate-Answered :
      (m frame : List ℕ) (l : Link)
      → is_duplicate frame l ≡ true
      → IsBound m l
      → Answered m (client_of frame) (request_of frame) l
  duplicate-Answered m frame l h bound = go l.rx_key refl
    where
      boot : l.peer_boot ≡ client_of frame
      boot = bytes_eq_sound l.peer_boot (client_of frame) (ground arith)

      asked : l.peer_request ≡ request_of frame
      asked = bytes_eq_sound l.peer_request (request_of frame) (ground arith)

      go : (o : Option (List ℕ)) → l.rx_key ≡ o → Answered m (client_of frame) (request_of frame) l
      go none e = absurd (ground arith)
      go (some k) e = record {
        boot = boot;
        asked = asked;
        key = k;
        installed = e;
        derived = rw (← boot) (rw (← asked) (bound.key k e));
      }

  pub derive_inbound :
      (env : Env) (m client request server : List ℕ) (l : Link)
      → l.master ≡ some m
      → (derive_key c p env client request server false l).1 ≡ ok
      → (k : List ℕ) × (p.mac_compute m (key_context p c.peer c.local client request server)
          ≡ some k)
        × ((derive_key c p env client request server false l).0
            ≡ record l { rx_key = some k; rx_sequence = 0 })
  unfolding derive_key
  derive_inbound env m client request server l master h = ground arith

  adopt-Answered :
      (new_boot : Bool) (env : Env) (m client request fresh k : List ℕ) (l : Link) (r : Ret)
      → p.mac_compute m (key_context p c.peer c.local client request fresh) ≡ some k
      → l.rx_key ≡ some k
      → (adopt c p new_boot env client request fresh (l, r)).1 ≡ ok
      → Answered m client request (adopt c p new_boot env client request fresh (l, r)).0
  unfolding adopt
  adopt-Answered new_boot env m client request fresh k l ok mac key h =
      Answered-SameInbound
        (send_reply-SameInbound new_boot env client request
          (record l { peer_boot = client; peer_request = request; server_nonce = fresh }))
        (record { boot = refl; asked = refl; key = k; installed = key; derived = mac })
  adopt-Answered new_boot env m client request fresh k l (err e) mac key h = cc

  answer_new-Answered :
      (new_boot : Bool) (env : Env) (m client request : List ℕ) (r : Random) (l : Link)
      → l.master ≡ some m
      → (answer_new c p new_boot env client request r l).1 ≡ ok
      → Answered m client request (answer_new c p new_boot env client request r l).0
  unfolding answer_new
  answer_new-Answered new_boot env m client request (no_random e left) l master h = cc
  answer_new-Answered new_boot env m client request (drawn fresh) l master h =
      let derived : (derive_key c p env client request fresh false l).1 ≡ ok = ground arith in
      let (k, mac, e) = derive_inbound env m client request fresh l master derived in
      adopt-Answered new_boot env m client request fresh k
        (derive_key c p env client request fresh false l).0
        (derive_key c p env client request fresh false l).1 mac (ap (λ x. x.rx_key) e) h

  answer-Answered :
      (env : Env) (m frame : List ℕ) (new_boot duplicate : Bool) (l : Link)
      → l.master ≡ some m
      → is_duplicate frame l ≡ duplicate
      → IsBound m l
      → (answer c p env frame new_boot duplicate l).1 ≡ ok
      → Answered m
          (client_of frame)
          (request_of frame)
          (answer c p env frame new_boot duplicate l).0
  unfolding answer
  answer-Answered env m frame new_boot true l master dup bound h =
      Answered-SameInbound
        (send_reply-SameInbound new_boot env (client_of frame) (request_of frame) l)
        (duplicate-Answered m frame l dup bound)
  answer-Answered env m frame new_boot false l master dup bound h =
      answer_new-Answered new_boot env m (client_of frame) (request_of frame) env.fresh l master h

  -- A request that is answered with 0 leaves the inbound session of exactly that handshake, derived
  -- now or, for a request that was answered before, then.
  pub hello_received-Answered :
      (env : Env) (m frame : List ℕ) (l : Link)
      → l.master ≡ some m
      → IsBound m l
      → (hello_received c p env frame l).1 ≡ ok
      → Answered m (client_of frame) (request_of frame) (hello_received c p env frame l).0
  unfolding hello_received
  hello_received-Answered env m frame l master bound h =
      let late : (not (is_duplicate frame l) && too_soon env.now l.last_hello) ≡ false =
        ground arith in
      rw (if_false _ _ _ late) (
        answer-Answered env m frame (is_new_boot frame l) (is_duplicate frame l)
          (record l { last_hello = pos env.now }) master refl (record { key = bound.key })
          (rw (if_false _ _ _ late) at h))
