-- ===== src/Radio/Host.antt =====
-- Random bytes for the radio: radio-uhf/src/radio_crypto_host.c of a host build, and radio_random()
-- of radio-uhf/src/radio_crypto.c. getrandom() and psa_generate_random() are parameters.
pub mod Draws
use kfsw_modules.Prelude.{
  ℕ, zero, suc, Bool, true, false, ◌+◌, ◌-◌, ◌^◌, Option, none, some, List, [], ◌++◌, length, leb,
  ◌==◌, if◌then◌else◌,
}
use kfsw_modules.Prelude.Int.{ℤ, pos, negsuc}
use kfsw_modules.Errno.{eperm, eio}
use kfsw_modules.Radio.Link.{Random, drawn, no_random}

-- What a call of getrandom() returns: the bytes that it wrote, -1 with EINTR, or -1 with another
-- error. The count 0 is `got []`.
pub data Answer : Type 0 where
  got : List ℕ → Answer
  interrupted failed : Answer

-- The answer to each call, by its number and the size that it asks for.
abbrev pub Getrandom : Type 0
Getrandom = ℕ → ℕ → Answer

-- The state of the loop at its head: the size that is left and the bytes behind `out`, or the
-- value that it returned.
pub data Turn : Type 0 where
  again : ℕ → List ℕ → Turn
  returned : ℤ → List ℕ → Turn

-- `size -= (size_t)count` on 64 bits.
abbrev pub size_less : ℕ → ℕ → ℕ
size_less size count = if leb count size then size - count else size + 2 ^ 64 - count

-- The body of the loop.
unfoldable pub turn : Answer → ℕ → List ℕ → Turn
turn interrupted size out = again size out
turn failed size out = returned (negsuc 0) out
turn (got bytes) size out =
    if length bytes == 0
    then returned (negsuc 0) out
    else again (size_less size (length bytes)) (out ++ bytes)

-- At most `fuel` rounds from the call with the number `call` on; `again` if they did not suffice.
unfoldable pub host_loop : Getrandom → (fuel call size : ℕ) → List ℕ → Turn
unfolding turn
host_loop getrandom zero call size out = again size out
host_loop getrandom (suc fuel) call size out =
    elim (if size == 0 then returned (pos 0) out else turn (getrandom call size) size out) [
      | again size' out' ↦ host_loop getrandom fuel (suc call) size' out'
      | returned result out' ↦ returned result out'
    ]

unfoldable pub host_random : Getrandom → (fuel size : ℕ) → Turn
unfolding host_loop
host_random getrandom fuel size = host_loop getrandom fuel 0 size []

-- What the caller sees of a run, if it ended. -1 is -EPERM.
abbrev random_of : Turn → Option Random
random_of (again _ _) = none
random_of (returned (pos zero) out) = some (drawn out)
random_of (returned _ out) = some (no_random eperm out)

unfoldable pub radio_random_host : Getrandom → (fuel size : ℕ) → Option Random
unfolding host_random
radio_random_host getrandom fuel size = random_of (host_random getrandom fuel size)

-- On a board, from whether psa_generate_random() succeeded and the bytes that it wrote.
unfoldable pub radio_random_board : Bool → List ℕ → Random
radio_random_board false bytes = no_random eio bytes
radio_random_board true bytes = drawn bytes
