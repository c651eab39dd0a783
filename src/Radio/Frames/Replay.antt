-- ===== src/Radio/Frames/Replay.antt =====
-- Replayed frames (`decode` of radio-uhf/src/radio_crypto.c), and the counters that report them.
use kfsw_modules.Prelude.{
  ℕ, ◌≤◌, ◌<◌, ◌≡◌, refl, ap, ◌∙◌, ◌⊎◌, Bool, true, false, not, ◌&&◌, List, [], ◌∷◌, arith,
}
use kfsw_modules.Errno.{Errno, err, ealready}
use kfsw_modules.Radio.Platform.{Platform}
use kfsw_modules.Radio.Link.{Config, Link, Env, Packet}
use kfsw_modules.Radio.Frames.{
  Verdict, pass, consumed, refused, is_control, finish, decode_plain, decode, inc32,
}
use kfsw_modules.Radio.Frames.Secrecy.{sequence_of, decode_protects}

-- Every number lies above the one in front of it, the first above `bound`.
abbrev pub Ascending : ℕ → List ℕ → Type 0
Ascending bound [] = Unit
Ascending bound (x ∷ xs) = (bound < x) × Ascending x xs

abbrev pub no_control : List (Env × Packet) → Bool
no_control [] = true
no_control ((env, packet) ∷ rest) = not (is_control packet.bytes) && no_control rest

abbrev pub keep_passed : Verdict → ℕ → List ℕ → List ℕ
keep_passed pass n ns = n ∷ ns
keep_passed consumed n ns = ns
keep_passed (refused _) n ns = ns

keep_passed-Ascending :
    (v : Verdict) (n : ℕ) (ns : List ℕ) (bound : ℕ)
    → (v ≡ pass → (bound < n) × Ascending n ns)
    → Ascending bound ns
    → Ascending bound (keep_passed v n ns)
keep_passed-Ascending pass n ns bound hit miss = hit refl
keep_passed-Ascending consumed n ns bound hit miss = miss
keep_passed-Ascending (refused _) n ns bound hit miss = miss

module _ (c : Config) (p : Platform) where
  -- The sequence numbers of the frames that are passed on, in the order of their arrival.
  unfoldable pub passed : List (Env × Packet) → Link → List ℕ
  passed [] l = []
  passed ((env, packet) ∷ rest) l =
      let (l', _, v) = decode c p env packet l in
      keep_passed v (sequence_of p packet) (passed rest l')

  pub decode-plain :
      (env : Env) (packet : Packet) (l : Link)
      → is_control packet.bytes ≡ false
      → decode c p env packet l ≡ finish (decode_plain c p packet l)
  unfolding decode
  decode-plain env packet l h = rw h refl

  -- What a packet that is not a control frame keeps of the session.
  pub decode-keeps :
      (env : Env) (packet : Packet) (l : Link)
      → is_control packet.bytes ≡ false
      → ((decode c p env packet l).0.settings ≡ l.settings)
        × (l.rx_sequence ≤ (decode c p env packet l).0.rx_sequence)
  decode-keeps env packet l h =
      rw (decode-plain env packet l h) (unfold finish decode_plain in ground arith)

  passed-Ascending_from :
      (arrivals : List (Env × Packet)) (l : Link) (bound : ℕ)
      → l.settings.enabled ≡ true
      → l.settings.rx ≡ true
      → no_control arrivals ≡ true
      → bound ≤ l.rx_sequence
      → Ascending bound (passed arrivals l)
  unfolding passed
  passed-Ascending_from [] l bound on rx n h = tt
  passed-Ascending_from ((env, packet) ∷ rest) l bound on rx n h =
      let l' : Link = (decode c p env packet l).0 in
      let (same, grows) = decode-keeps env packet l (ground arith) in
      let on' : l'.settings.enabled ≡ true = ap (λ s. s.enabled) same ∙ on in
      let rx' : l'.settings.rx ≡ true = ap (λ s. s.rx) same ∙ rx in
      let later : (b : ℕ) → b ≤ l'.rx_sequence → Ascending b (passed rest l') =
        λ b. passed-Ascending_from rest l' b on' rx' (ground arith) in
      keep_passed-Ascending (decode c p env packet l).2 (sequence_of p packet) (passed rest l')
        bound
        (λ e.
          let (_, _, _, above, now, _) = decode_protects c p env packet l on rx e in
          (omega arith, later (sequence_of p packet) (omega arith)))
        (later bound (omega arith))

-- Along any sequence of data frames and plain packets, with protection of received packets on and
-- no new session between them, the sequence numbers of the frames that are passed on are strictly
-- ascending from the last one accepted before: no frame is passed on twice.
pub passed-Ascending :
    (c : Config) (p : Platform) (arrivals : List (Env × Packet)) (l : Link)
    → l.settings.enabled ≡ true
    → l.settings.rx ≡ true
    → no_control arrivals ≡ true
    → Ascending l.rx_sequence (passed c p arrivals l)
passed-Ascending c p arrivals l on rx n =
    passed-Ascending_from c p arrivals l l.rx_sequence on rx n (omega arith)

-- A data frame or plain packet that decode() refuses is counted as rejected, with its error, and
-- leaves the packet, both keys, both sequence numbers and the count of accepted frames as they were.
-- It is counted as a replay, if at all, with -EALREADY and only if its number is not above the last
-- one accepted.
pub refusal_accounts :
    (c : Config) (p : Platform) (env : Env) (packet : Packet) (l : Link) (e : Errno)
    → is_control packet.bytes ≡ false
    → (decode c p env packet l).2 ≡ refused e
    → let (l', packet', _) = decode c p env packet l in
      (l'.rejected ≡ inc32 l.rejected)
      × (l'.last_error ≡ err e)
      × (packet' ≡ packet)
      × (l'.rx_key ≡ l.rx_key)
      × (l'.rx_sequence ≡ l.rx_sequence)
      × (l'.tx_key ≡ l.tx_key)
      × (l'.tx_sequence ≡ l.tx_sequence)
      × (l'.authenticated ≡ l.authenticated)
      × ((l'.replays ≡ l.replays)
          ⊎ ((e ≡ ealready)
              × (l'.replays ≡ inc32 l.replays)
              × (sequence_of p packet ≤ l.rx_sequence)))
refusal_accounts c p env packet l e n h =
    rw (decode-plain c p env packet l n) (
      unfold finish decode_plain in ground (arith, ap (λ r. r.2) (decode-plain c p env packet l n)))
