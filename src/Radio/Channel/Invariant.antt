-- ===== src/Radio/Channel/Invariant.antt =====
-- What holds between the two ends of a session and the frames between them.
use mathlib.Core.List.{Sublist}
use mathlib.Core.List.Sublist
use kfsw_modules.Prelude.{
  ℕ, zero, suc, ◌≤◌, ◌≡◌, true, some, List, [], ◌∷◌, ◌++◌, length, get_elem?, u64_max,
}
use kfsw_modules.Radio.Platform.{Platform}
use kfsw_modules.Radio.Link.{Config, put_header}
use kfsw_modules.Radio.Frames.{frame_start, nonce_of, encrypt_room}
use kfsw_modules.Radio.Channel.{Sent, Channel, offered_of, IsFresh}
use kfsw_modules.Radio.Channel.Numbers.{upto, Falling}

module _ (ca cb : Config) (p : Platform) where
  -- The frame is the packet, sealed under its number.
  pub record IsSealed (key : List ℕ) (x : Sent) : Type 0 where
    pub text : List ℕ
    pub sealed :
        p.aead_encrypt key
          (nonce_of p ca.local x.number)
          (put_header p x.offered.id ++ frame_start p x.number)
          x.offered.bytes
          (encrypt_room ca p)
        ≡ some text
    pub written : x.frame ≡ record x.offered { bytes = frame_start p x.number ++ text }
    pub fits : length x.offered.bytes ≤ cb.buffer_size
    pub bounded : x.number ≤ u64_max

  unfoldable pub AllSealed : List ℕ → List Sent → Type 0
  AllSealed key [] = Unit {0}
  AllSealed key (x ∷ xs) = IsSealed key x × AllSealed key xs

  pub AllSealed-at :
      (key : List ℕ) (xs : List Sent) (i : ℕ) (x : Sent)
      → AllSealed key xs
      → get_elem? xs i ≡ some x
      → IsSealed key x
  unfolding AllSealed
  AllSealed-at key [] i x a g = absurd (cc)
  AllSealed-at key (y ∷ xs) zero x a g = let same : y ≡ x = cc (g) in rw (← same) a.0
  AllSealed-at key (y ∷ xs) (suc i) x a g = AllSealed-at key xs i x a.1 g

  pub record Inv (key : List ℕ) (s : Channel) : Type 0 where
    pub sender_enabled : s.sender.settings.enabled ≡ true
    pub sender_tx : s.sender.settings.tx ≡ true
    pub receiver_enabled : s.receiver.settings.enabled ≡ true
    pub receiver_rx : s.receiver.settings.rx ≡ true
    pub sender_key : s.sender.tx_key ≡ some key
    pub receiver_key : s.receiver.rx_key ≡ some key
    pub counted : s.receiver.rx_sequence ≤ s.sender.tx_sequence
    pub bounded : s.sender.tx_sequence ≤ u64_max
    pub falling : Falling (suc s.sender.tx_sequence) s.sent
    pub sealed : AllSealed key s.sent
    pub in_order : Sublist s.delivered (offered_of (upto s.receiver.rx_sequence s.sent))

  pub IsFresh-Inv : (s : Channel) (f : IsFresh s) → Inv f.key s
  unfolding AllSealed
  IsFresh-Inv s f = record {
    sender_enabled = f.sender_enabled;
    sender_tx = f.sender_tx;
    receiver_enabled = f.receiver_enabled;
    receiver_rx = f.receiver_rx;
    sender_key = f.sender_key;
    receiver_key = f.receiver_key;
    counted = f.counted;
    bounded = f.bounded;
    falling = rw f.unsent tt;
    sealed = rw f.unsent tt;
    in_order = rw f.unsent (rw f.undelivered (Sublist.refl []));
  }
