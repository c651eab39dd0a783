-- ===== src/Radio/SessionExamples.antt =====
-- A session from its request to its first packet, and the sizes of the frames, at concrete inputs on
-- the bench platform.
use kfsw_modules.Prelude.{
  ℕ, ◌+◌, ◌≤◌, ◌≡◌, ◌≢◌, refl, arith, List, ◌∷◌, ◌++◌, length, none, some, [], false, replicate,
}
use kfsw_modules.Errno.{ok}
use kfsw_modules.Radio.Bench.{bench, bench-Laws, bench_encrypts}
use kfsw_modules.Radio.Handshake.{
  connect, control_received, verify_control, hello_received, reply_received, answer, answer_new,
  adopt, send_reply, derive_key,
}
use kfsw_modules.Radio.Handshake.Session.{Signs}
use kfsw_modules.Radio.Frames.{pass, consumed, encode, decode}
use kfsw_modules.Radio.Frames.Room.{overhead_exact}
use kfsw_modules.Radio.Link.{Link, Packet, bytes_eq}
use kfsw_modules.Radio.Control.{boot}
use kfsw_modules.Radio.Session.{Encrypts, CanAsk, CanAnswer, arriving, connect-establishes}
use kfsw_modules.Radio.HandshakeExamples.{idle-IsBound}
use kfsw_modules.Radio.Examples.{
  ground_side, space_side, env, idle, master_key, telecommand, sender, receiver, session_key,
}

bench-Signs : Signs bench master_key
bench-Signs message = (_, refl)

bench-Encrypts : Encrypts bench ground_side
bench-Encrypts k n a text fits = bench_encrypts k n a text 240 (omega arith)

idle-CanAsk : CanAsk env master_key (replicate 16 4) idle
unfolding boot
idle-CanAsk = record {
  master = refl;
  enabled = refl;
  tx = refl;
  due = refl;
  random = refl;
  sends = refl;
  boot_bytes = refl;
  request_bytes = refl;
}

idle-CanAnswer : CanAnswer env master_key (replicate 16 4) (replicate 16 3) idle
unfolding boot
idle-CanAnswer = record {
  master = refl;
  enabled = refl;
  rx = refl;
  due = refl;
  random = refl;
  imports = refl;
  sends = refl;
  fresh_bytes = refl;
  new = λ h. absurd (cc);
}

connect-establishes_example :
    let (la1, result) = connect ground_side bench env idle in
    (result ≡ ok)
    × (hello : List ℕ) × (la1.sent ≡ hello ∷ idle.sent)
    × (let (lb1, _, v) = decode space_side bench env (arriving ground_side hello) idle in
        (v ≡ consumed)
        × (more : List (List ℕ)) × (reply : List ℕ) × (lb1.sent ≡ more ++ reply ∷ idle.sent)
        × (let (la2, _, v') = decode ground_side bench env (arriving space_side reply) la1 in
            (v' ≡ consumed)
            × (la2.tx_key ≡ lb1.rx_key)
            × (la2.tx_key ≢ none)
            × (let (_, frame, r) = encode ground_side bench env telecommand la2 in
                let (_, got, v'') = decode space_side bench env frame lb1 in
                (r ≡ ok) × (v'' ≡ pass) × (got ≡ telecommand))))
connect-establishes_example =
    connect-establishes ground_side space_side bench env env env env env master_key (replicate 16 4)
      (replicate 16 3) idle idle telecommand bench-Laws bench-Signs bench-Encrypts refl refl
      idle-CanAsk idle-CanAnswer idle-IsBound refl (omega arith) (omega arith)

-- A link with a session in both directions.
abbrev both_ways : Link
unfolding boot
both_ways = record receiver { tx_key = some session_key; tx_sequence = 4 }

abbrev frame_in : Packet
unfolding encode boot
frame_in = (encode ground_side bench env telecommand sender).1

overhead_exact_example :
    let sealed = (encode space_side bench env telecommand both_ways).1 in
    (length sealed.bytes ≡ 4 + 28)
    × (length sealed.bytes + 4 ≤ 256)
    × (length frame_in.bytes ≡ length (decode space_side bench env frame_in both_ways).1.bytes + 28)
unfolding encode decode boot bytes_eq both_ways frame_in
overhead_exact_example =
    overhead_exact space_side bench env env telecommand frame_in both_ways bench-Laws (omega arith)
      refl refl refl (omega arith) refl refl

-- The first frame that an end has handed to its codec.
abbrev newest : Link → List ℕ
newest l = elim l.sent [ [] ↦ [] | frame ∷ _ ↦ frame ]

abbrev second : Link → List ℕ
second l = elim l.sent [ _ ∷ frame ∷ _ ↦ frame | _ ↦ [] ]

-- Two ends that have just started: A asks, B answers and asks in its turn.
abbrev asked : Link
unfolding connect boot
asked = (connect ground_side bench env idle).0

abbrev answered : Link
unfolding decode asked boot
answered = (decode space_side bench env (arriving ground_side (newest asked)) idle).0

abbrev established : Link
unfolding decode asked answered boot
established = (decode ground_side bench env (arriving space_side (second answered)) asked).0

abbrev dropped : Link
unfolding decode established answered boot
dropped = (decode ground_side bench env (arriving space_side (newest answered)) established).0

-- B's own request takes from A the session that B's reply has just given it, and A asks for no
-- other: its last request is not a second old.
cold_start :
    (established.tx_key ≡ answered.rx_key)
    × (dropped.tx_key ≡ none)
    × (dropped.pending ≡ false)
    × (length dropped.sent ≡ 2)
unfolding dropped established answered asked connect decode boot bytes_eq control_received
    verify_control hello_received reply_received answer answer_new adopt send_reply derive_key
cold_start = (refl, refl, refl, refl)
