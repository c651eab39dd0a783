-- ===== src/Temp/Values.antt =====
-- The arithmetic of the temperature example: the sensor's two parts, and the digits that are printed.
use kfsw_modules.Prelude.{
  ℕ, ◌+◌, ◌-◌, ◌∙◌, ◌*◌, ◌/◌, ◌<◌, ◌≤◌, ◌≡◌, refl, true, ◌⊎◌, inl, inr, arith, if◌then◌else◌,
}
use kfsw_modules.Prelude.Int.{ℤ, pos, negsuc, pos_part, neg_part, difference, scale, tdiv, ◌+ℤ◌}
use kfsw_modules.Errno.{ok}
use kfsw_modules.Temp.{value, sensor_read, printed}

-- The two parts carry one sign.
abbrev pub SameSign : ℤ → ℤ → Type 0
SameSign a b = ((neg_part a ≡ 0) × (neg_part b ≡ 0)) ⊎ ((pos_part a ≡ 0) × (pos_part b ≡ 0))

pos_part-difference : (a b : ℕ) → pos_part (difference a b) ≡ a - b
pos_part-difference a b = ground arith

neg_part-difference : (a b : ℕ) → neg_part (difference a b) ≡ b - a
neg_part-difference a b = ground arith

-- The parts of what the sensor read computes.
milli_c_parts :
    (a b : ℤ)
    → (pos_part (scale 1000 a +ℤ tdiv b 1000)
        ≡ ((1000 * pos_part a - 1000 * neg_part a) + (pos_part b / 1000 - neg_part b / 1000))
          - ((1000 * neg_part a - 1000 * pos_part a) + (neg_part b / 1000 - pos_part b / 1000)))
      × (neg_part (scale 1000 a +ℤ tdiv b 1000)
          ≡ ((1000 * neg_part a - 1000 * pos_part a) + (neg_part b / 1000 - pos_part b / 1000))
            - ((1000 * pos_part a - 1000 * neg_part a) + (pos_part b / 1000 - neg_part b / 1000)))
milli_c_parts a b =
    let p = pos_part-difference (1000 * pos_part a) (1000 * neg_part a) in
    let n = neg_part-difference (1000 * pos_part a) (1000 * neg_part a) in
    let q = pos_part-difference (pos_part b / 1000) (neg_part b / 1000) in
    let m = neg_part-difference (pos_part b / 1000) (neg_part b / 1000) in
    (pos_part-difference _ _ ∙ rw (p, n, q, m) refl, neg_part-difference _ _ ∙ rw (p, n, q, m) refl)

-- A read that succeeds, of whole degrees and millionths that carry one sign, yields the temperature
-- in thousandths of a degree, rounded towards zero on either side of it; below two million degrees
-- it lies strictly inside an int32_t, so that it is never the value that stands for no reading.
pub sensor_read_exact :
    (val1 val2 : ℤ)
    → SameSign val1 val2
    → pos_part val1 + neg_part val1 < 2000000
    → pos_part val2 + neg_part val2 < 1000000
    → (milli_c : ℤ) × (sensor_read true ok ok val1 val2 ≡ value milli_c)
      × (pos_part milli_c ≡ (1000000 * pos_part val1 + pos_part val2) / 1000)
      × (neg_part milli_c ≡ (1000000 * neg_part val1 + neg_part val2) / 1000)
      × (pos_part milli_c + neg_part milli_c ≤ 2147483647)
unfolding sensor_read
sensor_read_exact val1 val2 s h k =
    let (p, n) = milli_c_parts val1 val2 in
    (
      scale 1000 val1 +ℤ tdiv val2 1000,
      refl,
      elim s [ inl same ↦ omega arith | inr same ↦ omega arith ],
      elim s [ inl same ↦ omega arith | inr same ↦ omega arith ],
      elim s [ inl same ↦ omega arith | inr same ↦ omega arith ],
    )

-- The sign, the whole degrees and the three digits that the shell prints are the reading.
pub printed_exact :
    (milli_c : ℤ)
    → let out = printed milli_c in
      (out.thousandths < 1000)
      × ((if out.negative
            then difference 0 (1000 * out.whole + out.thousandths)
            else pos (1000 * out.whole + out.thousandths))
          ≡ milli_c)
unfolding printed
printed_exact (pos n) = ground arith
printed_exact (negsuc n) = ground arith
