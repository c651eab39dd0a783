-- ===== src/Radio/HandshakeExamples.antt =====
-- The handshake at concrete inputs, on the bench platform.
use kfsw_modules.Prelude.{
  ℕ, ◌≡◌, ◌≢◌, ◌⊎◌, refl, true, false, Option, none, some, List, [], arith, replicate,
}
use kfsw_modules.Errno.{err, eagain}
use kfsw_modules.Radio.Bench.{bench}
use kfsw_modules.Radio.Link.{Link, Packet, CspId, bytes_eq, too_soon}
use kfsw_modules.Radio.Handshake.{
  control_received, hello_body, reply_body, sign_control, hello_received, reply_received,
  derive_key, verify_control, answer, answer_new, adopt, send_reply,
}
use kfsw_modules.Radio.Handshake.Agreement.{IsBound}
use kfsw_modules.Radio.Handshake.Keys.{hello_packet, reply_packet, handshake_keys_agree}
use kfsw_modules.Radio.Frames.{encode}
use kfsw_modules.Radio.Control.{boot}
use kfsw_modules.Radio.Handshake.Restart.{control_received-Ended}
use kfsw_modules.Prelude.Int.{pos}
use kfsw_modules.Radio.Examples.{
  ground_side, space_side, env, idle, master_key, session_key, telecommand,
}

-- The ground side has asked for a session, the space side has none.
abbrev asking : Link
asking = record idle { request_nonce = replicate 16 4; pending = true }

abbrev control : ℕ → ℕ → CspId
control src dst = record { src = src; dst = dst; sport = 0; dport = 0; pri = 0; flags = 0 }

abbrev given : Option (List ℕ) → List ℕ
given none = []
given (some bytes) = bytes

abbrev hello_tag : List ℕ
unfolding sign_control boot
hello_tag = given (sign_control ground_side bench asking (hello_body asking))

abbrev hello_arrival : Packet
unfolding hello_tag boot
hello_arrival = hello_packet (control 10 1) hello_tag asking

abbrev answering : Link
unfolding control_received hello_arrival boot
answering = (control_received space_side bench env hello_arrival idle).0

abbrev reply_tag : List ℕ
unfolding sign_control answering boot
reply_tag = given (
    sign_control space_side bench answering
      (reply_body asking.boot_nonce asking.request_nonce answering))

abbrev asked : Link
unfolding control_received answering reply_tag boot
asked =
    (control_received ground_side bench env (reply_packet (control 1 10) reply_tag asking answering)
      asking).0

pub idle-IsBound : IsBound space_side bench master_key idle
unfolding boot
idle-IsBound = record { key = λ k h. absurd (ground arith) }

-- The two ends hold the same key, and it is not the master key.
keys_agree : asked.tx_key ≡ answering.rx_key
unfolding control_received asked answering hello_arrival hello_tag reply_tag boot verify_control
    hello_received reply_received answer answer_new adopt send_reply derive_key bytes_eq
keys_agree = refl

handshake_keys_agree_example :
    let lb' =
      (control_received space_side bench env
        (hello_packet (control 10 1) hello_tag asking)
        idle).0 in
    let la' =
      (control_received ground_side bench env
        (reply_packet (control 1 10) reply_tag asking lb')
        asking).0 in
    (la'.tx_key ≡ lb'.rx_key) × (la'.tx_key ≢ none) × (la'.tx_sequence ≡ 0) × (la'.pending ≡ false)
unfolding control_received boot hello_tag reply_tag answering hello_arrival verify_control
    hello_received reply_received answer answer_new adopt send_reply derive_key bytes_eq
handshake_keys_agree_example =
    handshake_keys_agree ground_side space_side bench env env master_key hello_tag reply_tag
      (control 10 1) (control 1 10) asking idle refl refl refl refl idle-IsBound refl refl refl refl
      refl

-- A link whose outbound session was set up half a second ago.
abbrev fresh_session : Link
fresh_session = record idle { tx_key = some session_key; last_request = pos 4500 }

control_received-Ended_example :
    let l' = (control_received space_side bench env hello_arrival fresh_session).0 in
    (l'.tx_key ≡ none)
    × ((encode space_side bench env telecommand l').2 ≡ err eagain)
    × ((encode space_side bench env telecommand l').1 ≡ telecommand)
    × ((l'.pending ≡ false) ⊎ (too_soon 5000 (pos 4500) ≡ false))
unfolding control_received boot hello_tag hello_arrival verify_control hello_received answer
    answer_new adopt send_reply derive_key bytes_eq
control_received-Ended_example =
    control_received-Ended space_side bench env env hello_arrival telecommand fresh_session refl
      refl refl refl refl refl
