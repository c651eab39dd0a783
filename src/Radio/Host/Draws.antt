-- ===== src/Radio/Host/Draws.antt =====
-- Drawing random bytes ends, and either with all of them or after a call that gave none
-- (radio-uhf/src/radio_crypto_host.c).
use native.Mathlib.Nat.{mul-le-mul_right}
use kfsw_modules.Prelude.{
  ℕ, zero, suc, ◌+◌, ◌-◌, ◌*◌, ◌≤◌, ◌<◌, ◌≡◌, ◌≢◌, ◌⊎◌, inl, inr, refl, some, List, [], ◌++◌, Bool,
  length, length-append, arith, Bool-cases, ◌==◌, true, false,
}
use kfsw_modules.Errno.{eperm}
use kfsw_modules.Prelude.Int.{ℤ, pos, negsuc}
use kfsw_modules.Radio.Link.{drawn, no_random}
use kfsw_modules.Radio.Host.{
  Answer, got, interrupted, failed, Getrandom, Turn, again, returned, turn, host_loop, host_random,
  radio_random_host,
}

-- getrandom() gives no more bytes than were asked for, and among any `k + 1` calls in a row there is
-- one that no signal interrupts, whatever size it asks for.
pub record IsKernel (k : ℕ) (getrandom : Getrandom) : Type 0 where
  pub within :
      (call size : ℕ) (bytes : List ℕ) → getrandom call size ≡ got bytes → length bytes ≤ size
  pub quiet :
      (call : ℕ)
      → (wait : ℕ) × (wait ≤ k) × ((size : ℕ) → getrandom (call + wait) size ≢ interrupted)

-- An answer that ends the loop with -1.
abbrev pub is_broken : Answer → Bool
is_broken (got bytes) = length bytes == 0
is_broken interrupted = false
is_broken failed = true

module _ (k : ℕ) (getrandom : Getrandom) (kernel : IsKernel k getrandom) where
  abbrev Ends : ℕ → Turn → Type 0
  Ends full t =
      ((bytes : List ℕ) × (t ≡ returned (pos 0) bytes) × (length bytes ≡ full))
      ⊎ ((bytes : List ℕ) × (call : ℕ) × (size : ℕ) × (t ≡ returned (negsuc 0) bytes)
          × (is_broken (getrandom call size) ≡ true))

  Answer-cases :
      (a : Answer)
      → (a ≡ interrupted)
        ⊎ ((is_broken a ≡ true) ⊎ ((bytes : List ℕ) × (a ≡ got bytes) × (0 < length bytes)))
  Answer-cases (got bytes) = elim (Bool-cases (length bytes == 0)) [
    | inl h ↦ inr (inl h)
    | inr h ↦ inr (inr (bytes, refl, ground arith))
  ]
  Answer-cases interrupted = inl refl
  Answer-cases failed = inr (inl refl)

  turn_broken :
      (a : Answer) (size : ℕ) (out : List ℕ)
      → is_broken a ≡ true
      → turn a size out ≡ returned (negsuc 0) out
  unfolding turn
  turn_broken a size out h = ground arith

  turn_got :
      (bytes : List ℕ) (size : ℕ) (out : List ℕ)
      → 0 < length bytes
      → length bytes ≤ size
      → turn (got bytes) size out ≡ again (size - length bytes) (out ++ bytes)
  unfolding turn
  turn_got bytes size out h le = ground arith

  host_loop-again :
      (fuel call m size' : ℕ) (out out' : List ℕ)
      → turn (getrandom call (suc m)) (suc m) out ≡ again size' out'
      → host_loop getrandom (suc fuel) call (suc m) out
        ≡ host_loop getrandom fuel (suc call) size' out'
  unfolding host_loop
  host_loop-again fuel call m size' out out' h = ground (arith, h)

  host_loop-returned :
      (fuel call m : ℕ) (result : ℤ) (out out' : List ℕ)
      → turn (getrandom call (suc m)) (suc m) out ≡ returned result out'
      → host_loop getrandom (suc fuel) call (suc m) out ≡ returned result out'
  unfolding host_loop
  host_loop-returned fuel call m result out out' h = ground (arith, h)

  waits :
      (wait call size : ℕ)
      → ((s : ℕ) → getrandom (call + wait) s ≢ interrupted)
      → getrandom call size ≡ interrupted
      → (left : ℕ) × (wait ≡ suc left)
  waits zero call size free h =
      let same : call + 0 ≡ call = omega arith in absurd (free size (rw same h))
  waits (suc left) call size free h = (left, refl)

  host_loop-Ends :
      (fuel call size : ℕ) (out : List ℕ) (wait : ℕ)
      → wait ≤ k
      → ((s : ℕ) → getrandom (call + wait) s ≢ interrupted)
      → 0 < fuel
      → size * suc k + wait < fuel + k
      → Ends (length out + size) (host_loop getrandom fuel call size out)
  unfolding host_loop
  host_loop-Ends zero call size out wait w free fuelled enough = absurd (omega arith)
  host_loop-Ends (suc fuel) call zero out wait w free fuelled enough = inl (out, refl, omega arith)
  host_loop-Ends (suc fuel) call (suc m) out wait w free fuelled enough =
      elim (Answer-cases (getrandom call (suc m))) [
        | inl a ↦
            let (left, e) = waits wait call (suc m) free a in
            rw (host_loop-again fuel call m (suc m) out out (rw (a, turn) refl)) (
              host_loop-Ends fuel (suc call) (suc m) out left (omega arith)
                (λ s.
                  rw (← (let same : call + wait ≡ suc call + left = omega arith in same)) (free s))
                (omega arith) (omega arith))
        | inr (inl b) ↦ inr (
          out,
          call,
          suc m,
          host_loop-returned fuel call m (negsuc 0) out out
              (turn_broken (getrandom call (suc m)) (suc m) out b),
          b,
        )
        | inr (inr (bytes, g, some_given)) ↦
            let (wait', w', free') = kernel.quiet (suc call) in
            let le : length bytes ≤ suc m = kernel.within call (suc m) bytes g in
            let fewer : (suc m - length bytes) * suc k ≤ m * suc k =
              mul-le-mul_right (suc k) (omega arith) in
            let total : length (out ++ bytes) + (suc m - length bytes) ≡ length out + suc m =
              omega (arith, length-append out bytes) in
            rw
              (
                host_loop-again fuel call m (suc m - length bytes) out (out ++ bytes)
                    (rw g (turn_got bytes (suc m) out some_given le)),
                ← total,
              )
              (host_loop-Ends fuel (suc call) (suc m - length bytes) (out ++ bytes) wait' w' free'
                (omega arith) (omega arith))
      ]

-- On a host, drawing random bytes ends: if getrandom() writes no more than it is asked for and
-- among any k + 1 calls in a row one is not interrupted, size * (k + 1) rounds and one more
-- suffice. Then either all the bytes that were asked for are there, or a call failed or gave no
-- byte and the caller sees -1.
pub radio_random_host-ends :
    (k fuel size : ℕ) (getrandom : Getrandom)
    → IsKernel k getrandom
    → size * suc k < fuel
    → ((bytes : List ℕ) × (radio_random_host getrandom fuel size ≡ some (drawn bytes))
        × (length bytes ≡ size))
      ⊎ ((call : ℕ) × (asked : ℕ) × (left : List ℕ) × (radio_random_host getrandom fuel size
            ≡ some (no_random eperm left))
          × (is_broken (getrandom call asked) ≡ true))
unfolding radio_random_host host_random
radio_random_host-ends k fuel size getrandom kernel enough =
    let (wait, w, free) = kernel.quiet 0 in
    elim (host_loop-Ends k getrandom kernel fuel 0 size [] wait w free (omega arith)
      (omega arith)) [
        | inl (bytes, e, full) ↦ inl (bytes, rw e refl, omega (arith, full))
        | inr (bytes, call, asked, e, b) ↦ inr (call, asked, bytes, rw e refl, b)
      ]
