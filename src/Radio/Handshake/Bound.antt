-- ===== src/Radio/Handshake/Bound.antt =====
-- What the handshake does to the inbound key (`hello_received`, `control_received` and
-- `kfsw_radio_uhf_crypto_connect` of radio-uhf/src/radio_crypto.c).
use kfsw_modules.Prelude.{
  ℕ, ◌≡◌, ◌≢◌, refl, sym, ap, ◌∙◌, Bool, true, false, Option, none, some, List, arith,
  if◌then◌else◌,
}
use kfsw_modules.Prelude.Int.{pos}
use kfsw_modules.Errno.{Errno, Ret, ok, err}
use kfsw_modules.Radio.Platform.{Platform}
use kfsw_modules.Radio.Link.{Config, Link, Env, Packet, Random, drawn, no_random, mac_with}
use kfsw_modules.Radio.Handshake.{
  key_context, answer_new, answer, adopt, hello_received, reply_received, control_received,
  derive_key, server_of, is_duplicate, is_new_boot, client_of, request_of, settle, install_derived,
}
use kfsw_modules.Radio.Handshake.Agreement.{
  SameInbound, send_reply-SameInbound, derive_inbound, IsBound,
}

-- What keeps the inbound key and all that determines it.
pub record SameKeys (a b : Link) : Type 0 where
  pub rx_key : b.rx_key ≡ a.rx_key
  pub peer_boot : b.peer_boot ≡ a.peer_boot
  pub peer_request : b.peer_request ≡ a.peer_request
  pub server_nonce : b.server_nonce ≡ a.server_nonce
  pub master : b.master ≡ a.master

pub SameInbound-SameKeys : {a b : Link} → SameInbound a b → SameKeys a b
SameInbound-SameKeys h = record {
  rx_key = h.rx_key;
  peer_boot = h.peer_boot;
  peer_request = h.peer_request;
  server_nonce = h.server_nonce;
  master = h.master;
}

module _ (c : Config) (p : Platform) where
  -- An inbound key is the one that the master key and the last handshake determine.
  pub record IsKeyed (l : Link) : Type 0 where
    pub key :
        (k : List ℕ)
        → l.rx_key ≡ some k
        → (m : List ℕ) × (l.master ≡ some m)
          × (p.mac_compute m
                (key_context p c.peer c.local l.peer_boot l.peer_request l.server_nonce)
              ≡ some k)

  pub IsKeyed-SameKeys : {a b : Link} → SameKeys a b → IsKeyed a → IsKeyed b
  IsKeyed-SameKeys s h = record {
    key = λ k e.
        let (m, known, mac) = h.key k (sym s.rx_key ∙ e) in
        (m, s.master ∙ known, rw s.peer_boot (rw s.peer_request (rw s.server_nonce mac)));
  }

  pub keyless-IsKeyed : (l : Link) → l.rx_key ≡ none → IsKeyed l
  keyless-IsKeyed l h = record { key = λ k e. absurd (ground (arith, h, e)) }

  -- The form in which two ends that agree on a master key use it.
  pub IsKeyed-IsBound : (m : List ℕ) (l : Link) → l.master ≡ some m → IsKeyed l → IsBound c p m l
  IsKeyed-IsBound m l known h = record {
    key = λ k e.
        let (m', known', mac) = h.key k e in
        let same : m' ≡ m = cc (known, known') in rw (← same) mac;
  }

  install_derived-failed :
      (import_ok : Bool) (o : Option (List ℕ)) (l : Link) (e : Errno)
      → (install_derived false import_ok o l).1 ≡ err e
      → (install_derived false import_ok o l).0 ≡ l
  unfolding install_derived
  install_derived-failed import_ok none l e h = refl
  install_derived-failed true (some k) l e h = absurd (cc)
  install_derived-failed false (some k) l e h = refl

  install_none :
      (import_ok : Bool) (l : Link) (o : Option (List ℕ))
      → o ≡ none
      → (install_derived false import_ok o l).1 ≢ ok
  unfolding install_derived
  install_none import_ok l o e h = ground arith

  settle-SameKeys :
      (import_ok : Bool) (o : Option (List ℕ)) (l : Link)
      → SameKeys l (settle (install_derived true import_ok o l)).0
  unfolding install_derived settle
  settle-SameKeys import_ok none l = ground arith
  settle-SameKeys true (some k) l = ground arith
  settle-SameKeys false (some k) l = ground arith

  reply_received-SameKeys :
      (env : Env) (frame : List ℕ) (l : Link) → SameKeys l (reply_received c p env frame l).0
  unfolding reply_received derive_key
  reply_received-SameKeys env frame l = go _
    where
      go :
          (b : Bool)
          → SameKeys l
              (if b
                then (l, err Errno.ealready)
                else settle
                    (derive_key c p env l.boot_nonce l.request_nonce (server_of frame) true l)).0
      go true = ground arith
      go false = settle-SameKeys env.import_ok _ l

  -- A master key, and the inbound key that it gives for this handshake.
  record IsDerived (client request fresh : List ℕ) (l : Link) : Type 0 where
    m : List ℕ
    k : List ℕ
    known : l.master ≡ some m
    installed : l.rx_key ≡ some k
    mac : p.mac_compute m (key_context p c.peer c.local client request fresh) ≡ some k

  IsDerived-IsKeyed :
      (client request fresh : List ℕ) (l : Link)
      → IsDerived client request fresh l
      → IsKeyed (record l { peer_boot = client; peer_request = request; server_nonce = fresh })
  IsDerived-IsKeyed client request fresh l h = record {
    key = λ k e. let same : h.k ≡ k = cc (h.installed, e) in (h.m, h.known, h.mac ∙ ap some same);
  }

  derive_key-IsDerived :
      (env : Env) (client request fresh : List ℕ) (l : Link)
      → (derive_key c p env client request fresh false l).1 ≡ ok
      → IsDerived client request fresh (derive_key c p env client request fresh false l).0
  unfolding derive_key
  derive_key-IsDerived env client request fresh l h = go l.master refl
    where
      go :
          (o : Option (List ℕ))
          → l.master ≡ o
          → IsDerived client request fresh (derive_key c p env client request fresh false l).0
      go none e = absurd (
          install_none env.import_ok l
            (mac_with p l.master (key_context p c.peer c.local client request fresh)) (rw e refl) h)
      go (some m) e =
          let (k, mac, same) = derive_inbound c p env m client request fresh l e h in
          record {
            m = m;
            k = k;
            known = ap (λ x. x.master) same ∙ e;
            installed = ap (λ x. x.rx_key) same;
            mac = mac;
          }

  adopt-IsKeyed :
      (new_boot : Bool) (env : Env) (client request fresh : List ℕ) (q : Link × Ret)
      → ((e : Errno) → q.1 ≡ err e → IsKeyed q.0)
      → (q.1 ≡ ok → IsDerived client request fresh q.0)
      → IsKeyed (adopt c p new_boot env client request fresh q).0
  unfolding adopt
  adopt-IsKeyed new_boot env client request fresh (l, err e) bad good = bad e refl
  adopt-IsKeyed new_boot env client request fresh (l, ok) bad good =
      IsKeyed-SameKeys
        (SameInbound-SameKeys (
          send_reply-SameInbound c p new_boot env client request
            (record l { peer_boot = client; peer_request = request; server_nonce = fresh })))
        (IsDerived-IsKeyed client request fresh l (good refl))

  derive_key-kept :
      (env : Env) (client request fresh : List ℕ) (l : Link) (e : Errno)
      → (derive_key c p env client request fresh false l).1 ≡ err e
      → (derive_key c p env client request fresh false l).0 ≡ l
  unfolding derive_key
  derive_key-kept env client request fresh l e h = install_derived-failed env.import_ok _ l e h

  answer-IsKeyed :
      (env : Env) (frame : List ℕ) (new_boot duplicate : Bool) (l : Link)
      → IsKeyed l
      → IsKeyed (answer c p env frame new_boot duplicate l).0
  unfolding answer answer_new
  answer-IsKeyed env frame new_boot true l h =
      IsKeyed-SameKeys
        (SameInbound-SameKeys
          (send_reply-SameInbound c p new_boot env (client_of frame) (request_of frame) l))
        h
  answer-IsKeyed env frame new_boot false l h = drawn_or_not env.fresh
    where
      drawn_or_not :
          (r : Random)
          → IsKeyed (answer_new c p new_boot env (client_of frame) (request_of frame) r l).0
      drawn_or_not (no_random e left) = h
      drawn_or_not (drawn fresh) =
          adopt-IsKeyed new_boot env (client_of frame) (request_of frame) fresh
            (derive_key c p env (client_of frame) (request_of frame) fresh false l)
            (λ e bad. rw (derive_key-kept env (client_of frame) (request_of frame) fresh l e bad) h)
            (derive_key-IsDerived env (client_of frame) (request_of frame) fresh l)

  hello_received-IsKeyed :
      (env : Env) (frame : List ℕ) (l : Link)
      → IsKeyed l
      → IsKeyed (hello_received c p env frame l).0
  unfolding hello_received
  hello_received-IsKeyed env frame l h = go _
    where
      later : IsKeyed (record l { last_hello = pos env.now })
      later = record { key = h.key }

      go :
          (b : Bool)
          → IsKeyed
              (if b
                then (l, err Errno.eagain)
                else answer c p env frame
                    (is_new_boot frame l)
                    (is_duplicate frame l)
                    (record l { last_hello = pos env.now })).0
      go true = h
      go false = answer-IsKeyed env frame _ _ (record l { last_hello = pos env.now }) later

  -- A handshake frame, valid or not, keeps the inbound key the one of its handshake.
  pub control_received-IsKeyed :
      (env : Env) (packet : Packet) (l : Link)
      → IsKeyed l
      → IsKeyed (control_received c p env packet l).0
  unfolding control_received
  control_received-IsKeyed env packet l h = guarded _ _
    where
      guarded :
          (b d : Bool)
          → IsKeyed
              (if b
                then (l, err Errno.eacces)
                else if d
                then hello_received c p env packet.bytes l
                else reply_received c p env packet.bytes l).0
      guarded true d = h
      guarded false true = hello_received-IsKeyed env packet.bytes l h
      guarded false false = IsKeyed-SameKeys (reply_received-SameKeys env packet.bytes l) h
