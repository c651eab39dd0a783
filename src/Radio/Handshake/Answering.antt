-- ===== src/Radio/Handshake/Answering.antt =====
-- A new request is accepted and answered (`derive_key` and `hello_received` of
-- radio-uhf/src/radio_crypto.c).
use kfsw_modules.Prelude.{ℕ, ◌≡◌, refl, Bool, true, false, some, List, ◌∷◌, ◌++◌}
use kfsw_modules.Prelude.Int.{pos}
use kfsw_modules.Errno.{ok}
use kfsw_modules.Radio.Platform.{Platform}
use kfsw_modules.Radio.Link.{Config, Link, Env, Random, drawn, too_soon}
use kfsw_modules.Radio.Handshake.{
  reply_body, client_of, request_of, key_context, hello_received, derive_key, sign_control, answer,
  answer_new, adopt, is_duplicate, is_new_boot,
}
use kfsw_modules.Radio.Handshake.Session.{Signs, send_reply-Replied}

-- The link after a new request was accepted: its inbound session starts over, and the reply that
-- it signed went to the codec.
pub record Accepted (c : Config) (p : Platform) (client request fresh : List ℕ) (l l' : Link)
    : Type 0 where
  pub tag : List ℕ
  pub signed : sign_control c p l' (reply_body client request l') ≡ some tag
  pub more : List (List ℕ)
  pub sent : l'.sent ≡ more ++ (reply_body client request l' ++ tag) ∷ l.sent
  pub settings : l'.settings ≡ l.settings
  pub rx_sequence : l'.rx_sequence ≡ 0
  pub server_nonce : l'.server_nonce ≡ fresh
  pub master : l'.master ≡ l.master

module _ (c : Config) (p : Platform) (env : Env) (m : List ℕ) (signs : Signs p m)
    (imports : env.import_ok ≡ true) where
  pub derive_key-ok :
      (client request server : List ℕ) (transmit : Bool) (l : Link)
      → l.master ≡ some m
      → (derive_key c p env client request server transmit l).1 ≡ ok
  unfolding derive_key
  derive_key-ok client request server true l master =
      let (_, mac) = signs (key_context p c.local c.peer client request server) in
      rw (master, mac, imports) refl
  derive_key-ok client request server false l master =
      let (_, mac) = signs (key_context p c.peer c.local client request server) in
      rw (master, mac, imports) refl

  derive_key-inbound :
      (client request server : List ℕ) (l : Link)
      → l.master ≡ some m
      → (k : List ℕ) × (derive_key c p env client request server false l
          ≡ (record l { rx_key = some k; rx_sequence = 0 }, ok))
  unfolding derive_key
  derive_key-inbound client request server l master =
      let (k, mac) = signs (key_context p c.peer c.local client request server) in
      (k, rw (master, mac, imports) refl)

  answer_new-Accepted :
      (client request fresh : List ℕ) (random : Random) (new_boot : Bool) (l : Link)
      → l.master ≡ some m
      → env.send_reply ≡ ok
      → random ≡ drawn fresh
      → let (l', r) = answer_new c p new_boot env client request random l in
        (r ≡ ok) × Accepted c p client request fresh l l'
  unfolding answer_new adopt
  answer_new-Accepted client request fresh random new_boot l master sends drew =
      let (k, derived) = derive_key-inbound client request fresh l master in
      let base = record l {
        rx_key = some k;
        rx_sequence = 0;
        peer_boot = client;
        peer_request = request;
        server_nonce = fresh;
      } in
      let (done, replied) =
        send_reply-Replied c p env m client request new_boot base master sends signs in
      rw (drew, derived)
        (
          done,
          record {
            tag = replied.tag;
            signed = replied.signed;
            more = replied.more;
            sent = replied.sent;
            settings = replied.settings;
            rx_sequence = replied.rx_sequence;
            server_nonce = replied.server_nonce;
            master = replied.master;
          },
        )

  pub hello_received-Accepted :
      (frame fresh : List ℕ) (l : Link)
      → l.master ≡ some m
      → env.send_reply ≡ ok
      → env.fresh ≡ drawn fresh
      → is_duplicate frame l ≡ false
      → too_soon env.now l.last_hello ≡ false
      → let (l', r) = hello_received c p env frame l in
        (r ≡ ok) × Accepted c p (client_of frame) (request_of frame) fresh l l'
  unfolding hello_received answer
  hello_received-Accepted frame fresh l master sends random new due =
      let l1 = record l { last_hello = pos env.now } in
      let (done, accepted) =
        answer_new-Accepted (client_of frame) (request_of frame) fresh env.fresh
          (is_new_boot frame l) l1 master sends random in
      rw (new, due)
        (
          done,
          record {
            tag = accepted.tag;
            signed = accepted.signed;
            more = accepted.more;
            sent = accepted.sent;
            settings = accepted.settings;
            rx_sequence = accepted.rx_sequence;
            server_nonce = accepted.server_nonce;
            master = accepted.master;
          },
        )
