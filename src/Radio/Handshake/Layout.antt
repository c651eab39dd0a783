-- ===== src/Radio/Handshake/Layout.antt =====
-- Where the nonces stand in the control frames (`connect_locked` and `hello_received` of
-- radio-uhf/src/radio_crypto.c).
use mathlib.Core.List.{append_assoc}
use kfsw_modules.Prelude.{
  ℕ, ◌≡◌, List, ◌++◌, arith, length, take, drop, take-append_exact, drop-append_exact,
  length-append,
}

module _ (a b : List ℕ) (ha : length a ≡ 16) (hb : length b ≡ 16) (rest : List ℕ) where
  pub first_nonce : take 16 ((a ++ b) ++ rest) ≡ a
  first_nonce = rw append_assoc (take-append_exact 16 a (b ++ rest) ha)

  pub second_nonce : take 16 (drop 16 ((a ++ b) ++ rest)) ≡ b
  second_nonce =
      rw append_assoc (rw (drop-append_exact 16 a (b ++ rest) ha) (take-append_exact 16 b rest hb))

module _ (a b s : List ℕ) (ha : length a ≡ 16) (hb : length b ≡ 16) (hs : length s ≡ 16)
    (rest : List ℕ) where
  pub third_nonce : take 16 (drop 32 ((a ++ (b ++ s)) ++ rest)) ≡ s
  third_nonce = rw regroup (
      rw (drop-append_exact 32 (a ++ b) (s ++ rest) (omega (arith, length-append a b)))
        (take-append_exact 16 s rest hs))
    where
      regroup : (a ++ (b ++ s)) ++ rest ≡ (a ++ b) ++ (s ++ rest)
      regroup = simp append_assoc

pub reply_client : (a b rest : List ℕ) → length a ≡ 16 → take 16 ((a ++ b) ++ rest) ≡ a
reply_client a b rest h = rw append_assoc (take-append_exact 16 a (b ++ rest) h)

pub reply_request :
    (a b s rest : List ℕ)
    → length a ≡ 16
    → length b ≡ 16
    → take 16 (drop 16 ((a ++ (b ++ s)) ++ rest)) ≡ b
reply_request a b s rest ha hb =
    rw (append_assoc a (b ++ s) rest)
      (rw (drop-append_exact 16 a ((b ++ s) ++ rest) ha) (reply_client b s rest hb))
