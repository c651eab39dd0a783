-- ===== src/Radio/Control/Closed.antt =====
-- From a change of the settings to the next handshake (`save_settings`, `encode` and `decode` of
-- radio-uhf/src/radio_crypto.c).
use kfsw_modules.Prelude.{
  ℕ, ◌≡◌, ◌≢◌, ap, ◌∙◌, Bool, true, false, not, ◌&&◌, none, List, [], ◌∷◌, arith,
}
use kfsw_modules.Errno.{ok, err, eagain}
use kfsw_modules.Radio.Platform.{Platform}
use kfsw_modules.Radio.Settings.{Settings}
use kfsw_modules.Radio.Store.{FileSystem, store_save}
use kfsw_modules.Radio.Store.Roundtrip.{View}
use kfsw_modules.Radio.Link.{Config, Link, Env, Packet, drawn}
use kfsw_modules.Radio.Handshake.{connect_locked, connect}
use kfsw_modules.Radio.Frames.{pass, is_control, finish, decode_plain, encode, decode}
use kfsw_modules.Radio.Frames.Secrecy.{encode_keyless, decode_protects}
use kfsw_modules.Radio.Frames.Replay.{decode-plain}
use kfsw_modules.Radio.Pace.Bound.{Traffic, connects, encodes, decodes, step, run}
use kfsw_modules.Radio.Control.{save_settings}
use kfsw_modules.Radio.Control.Changes.{saved_change_is_installed}
use kfsw_modules.Radio.Control.Unchanged.{run-SameSettings}

-- No handshake frame is among the packets that arrive.
abbrev is_quiet : Traffic → Bool
is_quiet (decodes packet) = not (is_control packet.bytes)
is_quiet _ = true

abbrev pub all_quiet : List (Env × Traffic) → Bool
all_quiet [] = true
all_quiet ((env, call) ∷ rest) = is_quiet call && all_quiet rest

record IsKeyless (l : Link) : Type 0 where
  tx_key : l.tx_key ≡ none
  rx_key : l.rx_key ≡ none

module _ (c : Config) (p : Platform) (env : Env) where
  connect_locked-IsKeyless : (l : Link) → IsKeyless l → IsKeyless (connect_locked c p env l).0
  unfolding connect_locked
  connect_locked-IsKeyless l h = ground (arith, h)

  connect-IsKeyless : (l : Link) → IsKeyless l → IsKeyless (connect c p env l).0
  unfolding connect
  connect-IsKeyless l h = ground (arith, connect_locked-IsKeyless l h)

  encode-IsKeyless :
      (packet : Packet) (l : Link) → IsKeyless l → IsKeyless (encode c p env packet l).0
  unfolding encode
  encode-IsKeyless packet l h = ground (arith, connect_locked-IsKeyless l h, h.tx_key)

  decode-IsKeyless :
      (packet : Packet) (l : Link)
      → is_control packet.bytes ≡ false
      → IsKeyless l
      → IsKeyless (decode c p env packet l).0
  decode-IsKeyless packet l plain h =
      rw (decode-plain c p env packet l plain)
        (unfold finish decode_plain in ground (arith, h.rx_key, h.tx_key))

  decode_keyless :
      (packet : Packet) (l : Link)
      → l.settings.enabled ≡ true
      → l.settings.rx ≡ true
      → l.rx_key ≡ none
      → (decode c p env packet l).2 ≢ pass
  decode_keyless packet l on rx key h =
      let (k, some_key, _, _, _, _) = decode_protects c p env packet l on rx h in
      ground (arith, key, some_key)

module _ (c : Config) (p : Platform) where
  step-IsKeyless :
      (env : Env) (call : Traffic) (l : Link)
      → is_quiet call ≡ true
      → IsKeyless l
      → IsKeyless (step c p env call l)
  unfolding step
  step-IsKeyless env connects l q h = connect-IsKeyless c p env l h
  step-IsKeyless env (encodes packet) l q h = encode-IsKeyless c p env packet l h
  step-IsKeyless env (decodes packet) l q h =
      decode-IsKeyless c p env packet l (ground (arith, q)) h

  run-IsKeyless :
      (calls : List (Env × Traffic)) (l : Link)
      → all_quiet calls ≡ true
      → IsKeyless l
      → IsKeyless (run c p calls l)
  unfolding run
  run-IsKeyless [] l q h = h
  run-IsKeyless ((env, call) ∷ rest) l q h =
      run-IsKeyless rest (step c p env call l) (ground (arith, q))
        (step-IsKeyless env call l (ground (arith, q)) h)

-- After a change that was saved, with its nonce drawn, and that leaves protection on in both
-- directions, the link fails closed: however often a session was asked for since, and whatever
-- packets were given to encode() and decode(), no handshake frame and no further change of the
-- settings among them, encode() answers the next packet with EAGAIN and leaves it as it was in the
-- sender's hands, and decode() does not pass the next one on, whichever frame it is.
pub change_fails_closed :
    {D : Type 0} (c : Config) (p : Platform) (fs : FileSystem D) (view : View fs) (env env' : Env)
    (next : Settings) (changed_key : Bool) (l : Link) (d : D) (fresh : List ℕ)
    (calls : List (Env × Traffic)) (packet : Packet)
    → env.fresh ≡ drawn fresh
    → (store_save p fs next d).1 ≡ ok
    → next.enabled ≡ true
    → next.tx ≡ true
    → next.rx ≡ true
    → all_quiet calls ≡ true
    → let l' = run c p calls (save_settings p fs env next changed_key l d).1 in
      ((encode c p env' packet l').2 ≡ err eagain)
      × ((encode c p env' packet l').1 ≡ packet)
      × ((decode c p env' packet l').2 ≢ pass)
change_fails_closed c p fs view env env' next changed_key l d fresh calls packet random saved on tx
      rx quiet =
    let l0 = (save_settings p fs env next changed_key l d).1 in
    let l' = run c p calls l0 in
    let (changed, _) =
      saved_change_is_installed p fs view env next changed_key l d fresh random saved in
    let same : l'.settings ≡ next = (run-SameSettings c p calls l0).settings ∙ changed.settings in
    let keyless =
      run-IsKeyless c p calls l0 quiet
        (record { tx_key = changed.tx_key; rx_key = changed.rx_key }) in
    let on' : l'.settings.enabled ≡ true = ap (λ s. s.enabled) same ∙ on in
    let tx' : l'.settings.tx ≡ true = ap (λ s. s.tx) same ∙ tx in
    let rx' : l'.settings.rx ≡ true = ap (λ s. s.rx) same ∙ rx in
    let (sent, kept) = encode_keyless c p env' packet l' on' tx' keyless.tx_key in
    (sent, kept, decode_keyless c p env' packet l' on' rx' keyless.rx_key)
