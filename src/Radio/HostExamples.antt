-- ===== src/Radio/HostExamples.antt =====
-- Random bytes of a host at a concrete run: a signal, then ten bytes, then the other six.
use kfsw_modules.Prelude.{
  ℕ, zero, suc, ◌+◌, ◌≤◌, ◌≡◌, ◌≢◌, ◌⊎◌, refl, sym, ap, ◌∙◌, true, some, List, length, leb,
  if◌then◌else◌, replicate, arith,
}
use kfsw_modules.Errno.{eperm}
use kfsw_modules.Radio.Link.{drawn, no_random}
use kfsw_modules.Radio.Host.{got, interrupted, Getrandom, radio_random_host}
use kfsw_modules.Radio.Host.Draws.{IsKernel, is_broken, radio_random_host-ends}

abbrev ten_at_most : ℕ → ℕ
ten_at_most size = if leb size 10 then size else 10

abbrev sevens : ℕ → List ℕ
sevens n = replicate n 7

abbrev signalled : Getrandom
signalled zero size = interrupted
signalled (suc call) size = got (sevens (ten_at_most size))

length-sevens : (n : ℕ) → length (sevens n) ≡ n
length-sevens zero = refl
length-sevens (suc n) = omega (arith, length-sevens n)

within : (call size : ℕ) (bytes : List ℕ) → signalled call size ≡ got bytes → length bytes ≤ size
within zero size bytes e = absurd (cc)
within (suc call) size bytes e =
    let same : sevens (ten_at_most size) ≡ bytes = cc (e) in
    rw (← same) (ground (arith, length-sevens (ten_at_most size)))

quiet :
    (call : ℕ) → (wait : ℕ) × (wait ≤ 1) × ((size : ℕ) → signalled (call + wait) size ≢ interrupted)
quiet zero = (1, omega arith, λ size e. absurd (cc))
quiet (suc call) =
    let same : suc call + 0 ≡ suc call = omega arith in
    (
      0,
      omega arith,
      λ size e.
          let now : signalled (suc call) size ≡ interrupted =
            sym (ap (λ n. signalled n size) same) ∙ e in
          absurd (cc (now)),
    )

signalled-IsKernel : IsKernel 1 signalled
signalled-IsKernel = record { within = within; quiet = quiet }

drawn_in_parts : radio_random_host signalled 4 16 ≡ some (drawn (replicate 16 7))
unfolding radio_random_host
drawn_in_parts = refl

radio_random_host-ends_example :
    ((bytes : List ℕ) × (radio_random_host signalled 40 16 ≡ some (drawn bytes))
      × (length bytes ≡ 16))
    ⊎ ((call : ℕ) × (asked : ℕ) × (left : List ℕ) × (radio_random_host signalled 40 16
          ≡ some (no_random eperm left))
        × (is_broken (signalled call asked) ≡ true))
radio_random_host-ends_example =
    radio_random_host-ends 1 40 16 signalled signalled-IsKernel (omega arith)
