-- ===== src/Radio/Runs.antt =====
-- The link over any sequence of the calls that reach it: kfsw_radio_uhf_crypto_init and _connect, the
-- codec's encode and decode, and the setters of the parameter table (radio-uhf/src/radio_crypto.c).
use kfsw_modules.Prelude.{ℕ, ◌≡◌, refl, Bool, true, false, List, [], ◌∷◌, arith, if◌then◌else◌}
use kfsw_modules.Errno.{Ret}
use kfsw_modules.Radio.Platform.{Platform}
use kfsw_modules.Radio.Store.{FileSystem}
use kfsw_modules.Radio.Link.{Config, Link, Env, Packet}
use kfsw_modules.Radio.Handshake.{connect, control_received}
use kfsw_modules.Radio.Handshake.Agreement.{connect_locked-SameInbound}
use kfsw_modules.Radio.Handshake.Bound.{
  SameKeys, SameInbound-SameKeys, IsKeyed, IsKeyed-SameKeys, keyless-IsKeyed,
  control_received-IsKeyed,
}
use kfsw_modules.Radio.Frames
use kfsw_modules.Radio.Frames.{
  Verdict, pass, consumed, refused, encode, decode, decode_plain, finish, is_control,
}
use kfsw_modules.Radio.Control.Bound.{set_key-IsKeyed, set_switch-IsKeyed, init-IsKeyed}
use kfsw_modules.Radio.Control.{boot, init, set_key, set_switch}

pub data Call : Type 0 where
  starts : Ret → Bool → Call
  connects : Call
  encodes : Packet → Call
  decodes : Packet → Call
  sets_key : List ℕ → Call
  sets_switch : ℕ → Bool → Call

module _ {D : Type 0} (c : Config) (p : Platform) (fs : FileSystem D) where
  -- One call, with what its calls outside the module will return.
  unfoldable pub step : Env → Call → D × Link → D × Link
  step env (starts registered crypto_ok) (d, l) =
      let (d', l', _) = init p fs env registered crypto_ok l d in (d', l')
  step env connects (d, l) = (d, (connect c p env l).0)
  step env (encodes packet) (d, l) = (d, (encode c p env packet l).0)
  step env (decodes packet) (d, l) = (d, (decode c p env packet l).0)
  step env (sets_key text) (d, l) = set_key p fs env text l d
  step env (sets_switch which value) (d, l) = set_switch p fs env which value l d

  unfoldable pub run : List (Env × Call) → D × Link → D × Link
  run [] a = a
  run ((env, call) ∷ calls) a = run calls (step env call a)

  encode-SameKeys :
      (env : Env) (packet : Packet) (l : Link) → SameKeys l (encode c p env packet l).0
  unfolding encode
  encode-SameKeys env packet l =
      ground (arith, SameInbound-SameKeys (connect_locked-SameInbound c p env l))

  connect-SameKeys : (env : Env) (l : Link) → SameKeys l (connect c p env l).0
  unfolding connect
  connect-SameKeys env l =
      ground (arith, SameInbound-SameKeys (connect_locked-SameInbound c p env l))

  decode_plain-SameKeys : (packet : Packet) (l : Link) → SameKeys l (decode_plain c p packet l).0
  unfolding decode_plain
  decode_plain-SameKeys packet l = ground arith

  finish-SameKeys : (q : Link × Packet × Verdict) → SameKeys q.0 (finish q).0
  unfolding finish
  finish-SameKeys q = ground arith

  control_verdict-link :
      (packet : Packet) (q : Link × Ret) → (Frames.control_verdict packet q).0 ≡ q.0
  unfolding Frames.control_verdict
  control_verdict-link packet q = ground arith

  decode-IsKeyed :
      (env : Env) (packet : Packet) (l : Link)
      → IsKeyed c p l
      → IsKeyed c p (decode c p env packet l).0
  unfolding decode
  decode-IsKeyed env packet l h = go (is_control packet.bytes)
    where
      go :
          (b : Bool)
          → IsKeyed c p
              (finish (
                if b
                then Frames.control_verdict packet (control_received c p env packet l)
                else decode_plain c p packet l)).0
      go true =
          IsKeyed-SameKeys c p
            (finish-SameKeys (Frames.control_verdict packet (control_received c p env packet l)))
            (rw (control_verdict-link packet (control_received c p env packet l))
              (control_received-IsKeyed c p env packet l h))
      go false =
          IsKeyed-SameKeys c p (finish-SameKeys (decode_plain c p packet l))
            (IsKeyed-SameKeys c p (decode_plain-SameKeys packet l) h)

  step-IsKeyed :
      (env : Env) (call : Call) (a : D × Link) → IsKeyed c p a.1 → IsKeyed c p (step env call a).1
  unfolding step
  step-IsKeyed env (starts registered crypto_ok) (d, l) h =
      init-IsKeyed c p fs env registered crypto_ok l d h
  step-IsKeyed env connects (d, l) h = IsKeyed-SameKeys c p (connect-SameKeys env l) h
  step-IsKeyed env (encodes packet) (d, l) h = IsKeyed-SameKeys c p (encode-SameKeys env packet l) h
  step-IsKeyed env (decodes packet) (d, l) h = decode-IsKeyed env packet l h
  step-IsKeyed env (sets_key text) (d, l) h = set_key-IsKeyed c p fs env text l d h
  step-IsKeyed env (sets_switch which value) (d, l) h =
      set_switch-IsKeyed c p fs env which value l d h

  run_from-IsKeyed :
      (calls : List (Env × Call)) (a : D × Link) → IsKeyed c p a.1 → IsKeyed c p (run calls a).1
  unfolding run
  run_from-IsKeyed [] a h = h
  run_from-IsKeyed ((env, call) ∷ calls) a h =
      run_from-IsKeyed calls (step env call a) (step-IsKeyed env call a h)

-- After any sequence of calls from the boot, whatever the peer sends and whatever the calls outside
-- the module return, an inbound session key is the one that the current master key gives for the
-- last handshake: no change of the key, no failure half way and no frame leaves an older one.
pub run-IsKeyed :
    {D : Type 0} (c : Config) (p : Platform) (fs : FileSystem D) (calls : List (Env × Call)) (d : D)
    → IsKeyed c p (run c p fs calls (d, boot)).1
unfolding boot
run-IsKeyed c p fs calls d = run_from-IsKeyed c p fs calls (d, boot) (keyless-IsKeyed c p boot refl)
