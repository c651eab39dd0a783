-- ===== src/Radio/Handshake/Acceptance.antt =====
-- The two ends accept a request and its answer (`control_received`, `hello_received` and
-- `reply_received` of radio-uhf/src/radio_crypto.c).
use kfsw_modules.Prelude.{
  ℕ, ◌+◌, ◌≡◌, ◌≢◌, refl, ◌∙◌, Bool-cases, inl, inr, true, false, if◌then◌else◌, some, List, ◌++◌,
  arith, length, length-append,
}
use kfsw_modules.Errno.{ok}
use kfsw_modules.Radio.Platform.{Platform, Laws}
use kfsw_modules.Radio.Link.{Config, Link, Env, Packet, put_header, drawn, too_soon, bytes_eq}
use kfsw_modules.Radio.Handshake.{
  hello_body, reply_body, client_of, request_of, server_of, hello_received, is_hello, expected_size,
  reply_received, control_received, sign_control, control_id, is_duplicate,
}
use kfsw_modules.Radio.Handshake.Agreement.{bytes_eq_sound, bytes_eq_refl}
use kfsw_modules.Radio.Handshake.Layout.{first_nonce, second_nonce, reply_client, reply_request}
use kfsw_modules.Radio.Handshake.Keys.{hello_packet}
use kfsw_modules.Radio.Handshake.Session.{Signs, signed-verified}
use kfsw_modules.Radio.Handshake.Answering.{Accepted, derive_key-ok, hello_received-Accepted}

-- A signed frame of the peer passes the guards of control_received().
module _ (ca cb : Config) (p : Platform) (laws : Laws p) (env : Env) (m body tag : List ℕ)
    (la lb : Link) (l1 : cb.local ≡ ca.peer) (l2 : cb.peer ≡ ca.local) (ma : la.master ≡ some m)
    (mb : lb.master ≡ some m) (on : lb.settings.enabled ≡ true)
    (signed : sign_control ca p la body ≡ some tag) where
  abbrev arrival : Packet
  arrival = record { id = control_id ca.local ca.peer; bytes = body ++ tag }

  whole_frame : length (body ++ tag) ≡ length body + 32
  unfolding sign_control
  whole_frame =
      let mac : p.mac_compute m (put_header p (control_id ca.local ca.peer) ++ body) ≡ some tag =
        cc (ma, signed) in
      omega (arith, length-append body tag, laws.length-mac m _ tag mac)

  control-passed :
      expected_size (body ++ tag) ≡ length body + 32
      → control_received cb p env arrival lb ≡ (
          if is_hello (body ++ tag)
          then hello_received cb p env (body ++ tag) lb
          else reply_received cb p env (body ++ tag) lb)
  unfolding control_received
  control-passed sized =
      let verified =
        signed-verified ca cb p m body tag la lb (length body + 32) laws l1 l2 ma mb signed refl in
      rw sized (ground (arith, whole_frame, verified))

names-Accepted :
    {c : Config} {p : Platform} {client client' request request' fresh : List ℕ} {l l' : Link}
    → client ≡ client'
    → request ≡ request'
    → Accepted c p client request fresh l l'
    → Accepted c p client' request' fresh l l'
names-Accepted same_client same_request h = rw (← same_client) (rw (← same_request) h)

new_request :
    (frame : List ℕ) (l : Link) → l.peer_request ≢ request_of frame → is_duplicate frame l ≡ false
new_request frame l h = elim (Bool-cases (bytes_eq l.peer_request (request_of frame))) [
  | inl same ↦ absurd (h (bytes_eq_sound l.peer_request (request_of frame) same))
  | inr differs ↦ ground (arith, differs)
]

module _ (ca cb : Config) (p : Platform) (laws : Laws p) (env : Env) (m tag : List ℕ) (la lb : Link)
    (l1 : cb.local ≡ ca.peer) (l2 : cb.peer ≡ ca.local) (ma : la.master ≡ some m)
    (mb : lb.master ≡ some m) (on : lb.settings.enabled ≡ true) where
  -- B accepts the request that A signed.
  pub control-Accepted :
      (fresh : List ℕ)
      → length la.boot_nonce ≡ 16
      → length la.request_nonce ≡ 16
      → sign_control ca p la (hello_body la) ≡ some tag
      → Signs p m
      → env.import_ok ≡ true
      → env.send_reply ≡ ok
      → env.fresh ≡ drawn fresh
      → lb.peer_request ≢ la.request_nonce
      → too_soon env.now lb.last_hello ≡ false
      → let packet = hello_packet (control_id ca.local ca.peer) tag la in
        let (lb', r) = control_received cb p env packet lb in
        (r ≡ ok) × Accepted cb p la.boot_nonce la.request_nonce fresh lb lb'
  control-Accepted fresh hb hr signed signs imports sends random new due =
      let frame = hello_body la ++ tag in
      let nonces = length-append la.boot_nonce la.request_nonce in
      let client : client_of frame ≡ la.boot_nonce =
        first_nonce la.boot_nonce la.request_nonce hb hr tag in
      let request : request_of frame ≡ la.request_nonce =
        second_nonce la.boot_nonce la.request_nonce hb hr tag in
      let fresh_request : is_duplicate frame lb ≡ false =
        new_request frame lb (λ same. new (same ∙ request)) in
      let passed =
        control-passed ca cb p laws env m (hello_body la) tag la lb l1 l2 ma mb on signed
          (omega (arith, nonces)) in
      let (done, accepted) =
        hello_received-Accepted cb p env m signs imports frame fresh lb mb sends random
          fresh_request due in
      rw passed (done, names-Accepted client request accepted)

  -- A accepts the reply that B signed to the request that A waits for.
  pub control-settled :
      (client request : List ℕ)
      → length client ≡ 16
      → length request ≡ 16
      → length la.server_nonce ≡ 16
      → sign_control ca p la (reply_body client request la) ≡ some tag
      → Signs p m
      → env.import_ok ≡ true
      → lb.pending ≡ true
      → lb.boot_nonce ≡ client
      → lb.request_nonce ≡ request
      → (control_received cb p env
          (record { id = control_id ca.local ca.peer; bytes = reply_body client request la ++ tag })
          lb).1
        ≡ ok
  unfolding reply_received
  control-settled client request hc hr hs signed signs imports waits boot asked =
      let frame = reply_body client request la ++ tag in
      let sized : 84 ≡ length (reply_body client request la) + 32 = omega (
        arith,
        length-append client (request ++ la.server_nonce),
        length-append request la.server_nonce,
      ) in
      let passed =
        control-passed ca cb p laws env m (reply_body client request la) tag la lb l1 l2 ma mb on
          signed sized in
      let named : bytes_eq (client_of frame) lb.boot_nonce ≡ true =
        rw (reply_client client (request ++ la.server_nonce) tag hc, boot) (bytes_eq_refl client) in
      let asked_for : bytes_eq (request_of frame) lb.request_nonce ≡ true =
        rw (reply_request client request la.server_nonce tag hc hr, asked)
          (bytes_eq_refl request) in
      let derived =
        derive_key-ok cb p env m signs imports lb.boot_nonce lb.request_nonce (server_of frame) true
          lb mb in
      rw passed (ground (arith, named, asked_for, derived))
