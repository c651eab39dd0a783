-- ===== src/Radio/ChannelExamples.antt =====
-- A session over a lossy link at a concrete run, on the bench platform.
use mathlib.Core.List.{Sublist}
use kfsw_modules.Prelude.{ℕ, ◌≡◌, refl, [], ◌∷◌, arith}
use kfsw_modules.Radio.Bench.{bench, bench-Laws}
use kfsw_modules.Radio.Link.{Packet, bytes_eq}
use kfsw_modules.Radio.Frames.{encode, decode}
use kfsw_modules.Radio.Control.{boot}
use kfsw_modules.Radio.Examples.{
  ground_side, space_side, env, session_key, id, sender, receiver, telecommand,
}
use kfsw_modules.Radio.Channel.{
  Sent, Channel, after_send, after_arrival, Reach, send, arrive, here, next, IsFresh,
}
use kfsw_modules.Radio.Channel.Order.{Reach-sublist}

abbrev second : Packet
second = record { id = id; bytes = 65 ∷ 66 ∷ [] }

abbrev fresh : Channel
unfolding boot
fresh = record { sender = sender; receiver = receiver; sent = []; delivered = [] }

fresh-IsFresh : IsFresh fresh
unfolding boot
fresh-IsFresh = record {
  sender_enabled = refl;
  sender_tx = refl;
  receiver_enabled = refl;
  receiver_rx = refl;
  key = session_key;
  sender_key = refl;
  receiver_key = refl;
  counted = omega arith;
  bounded = omega arith;
  unsent = refl;
  undelivered = refl;
}

abbrev both_sent : Channel
unfolding encode boot
both_sent =
    after_send ground_side space_side bench env second
      (after_send ground_side space_side bench env telecommand fresh)

-- The second packet overtakes the first; then both frames arrive, the second one again.
abbrev arrival : ℕ → Sent → Channel → Channel
arrival i x s = after_arrival ground_side space_side bench env x.frame s

abbrev first_entry : Sent
unfolding encode boot
first_entry = record {
  number = 5;
  offered = telecommand;
  frame = (encode ground_side bench env telecommand sender).1;
}

abbrev second_entry : Sent
unfolding encode boot
second_entry = record {
  number = 6;
  offered = second;
  frame =
      (encode ground_side bench env second (encode ground_side bench env telecommand sender).0).1;
}

abbrev arrived : Channel
unfolding decode boot both_sent first_entry second_entry
arrived = arrival 0 second_entry (arrival 1 first_entry (arrival 0 second_entry both_sent))

arrived-Reach : Reach ground_side space_side bench fresh arrived
unfolding encode decode boot
arrived-Reach =
    next
      (next
        (next (next (next here (send env telecommand refl)) (send env second refl))
          (arrive env 0 second_entry refl))
        (arrive env 1 first_entry refl))
      (arrive env 0 second_entry refl)

delivered_once : arrived.delivered ≡ second ∷ []
unfolding arrived decode boot bytes_eq
delivered_once = refl

Reach-sublist_example : Sublist (second ∷ []) (second ∷ telecommand ∷ [])
unfolding encode decode boot bytes_eq
Reach-sublist_example =
    Reach-sublist ground_side space_side bench bench-Laws refl (omega arith) fresh-IsFresh
      arrived-Reach
