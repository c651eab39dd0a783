-- ===== src/Boton/Shell/Leds.antt =====
-- What the command `test led` does (`cmd_hw_test_led` of boton-test/src/boton_test.c).
use kfsw_modules.Prelude.{
  ℕ, ◌≡◌, ◌≢◌, ◌⊎◌, inl, inr, refl, Bool, Bool-cases, true, false, Option, none, some, List, [],
  ◌∷◌, arith, if◌then◌else◌,
}
use kfsw_modules.Errno.{Errno, Ret, ok, err, Ret-cases}
use kfsw_modules.Shell.{Line}
use kfsw_modules.Boton
use kfsw_modules.Boton.Pins.{Pins, same}
use kfsw_modules.Boton.Shell.{
  same_text, led_named, state_named, report_led, switch_named, hw_test_led, green_text, blue_text,
  red_text, on_text, off_text,
}

abbrev pub led_text : Boton.Led → List ℕ
led_text Boton.Led.green = green_text
led_text Boton.Led.blue = blue_text
led_text Boton.Led.red = red_text

abbrev pub state_text : Bool → List ℕ
state_text on = if on then on_text else off_text

same_text-eq : (a b : List ℕ) → same_text a b ≡ true → a ≡ b
unfolding same_text
same_text-eq [] [] h = refl
same_text-eq [] (y ∷ ys) h = absurd (cc)
same_text-eq (x ∷ xs) [] h = absurd (cc)
same_text-eq (x ∷ xs) (y ∷ ys) h = ground (arith, h, same_text-eq xs ys)

led_named-text :
    (colour : List ℕ) (n : ℕ)
    → led_named colour ≡ some n
    → (led : Boton.Led) × (colour ≡ led_text led) × (Boton.led_of n ≡ some led)
unfolding led_named
led_named-text colour n h = elim (Bool-cases (same_text colour green_text)) [
  | inl g ↦ (Boton.Led.green, same_text-eq colour green_text g, ground (arith, g, h))
  | inr g ↦ elim (Bool-cases (same_text colour blue_text)) [
    | inl b ↦ (Boton.Led.blue, same_text-eq colour blue_text b, ground (arith, g, b, h))
    | inr b ↦ elim (Bool-cases (same_text colour red_text)) [
      | inl r ↦ (Boton.Led.red, same_text-eq colour red_text r, ground (arith, g, b, r, h))
      | inr r ↦ absurd (ground (arith, g, b, r, h))
    ]
  ]
]

state_named-text : (word : List ℕ) (on : Bool) → state_named word ≡ some on → word ≡ state_text on
unfolding state_named
state_named-text word on h = elim (Bool-cases (same_text word on_text)) [
  | inl t ↦ let is_on : on ≡ true = ground (arith, t, h) in rw is_on (same_text-eq word on_text t)
  | inr t ↦ elim (Bool-cases (same_text word off_text)) [
    | inl f ↦
        let is_off : on ≡ false = ground (arith, t, f, h) in
        rw is_off (same_text-eq word off_text f)
    | inr f ↦ absurd (ground (arith, t, f, h))
  ]
]

module _ {D : Type 0} (c : Boton.Config) (g : Boton.Gpio D) (pins : Pins g)
    (leds : c.led_gpio ≡ true) (s : Boton.State) (d : D) where
  -- The LED is switched, in the status and at its pin, and no other; or nothing is.
  abbrev pub Switched : Boton.Led → Bool → (Boton.State × D) → Type 0
  Switched led on (s', d') =
      (s' ≡ Boton.switched led on s)
      × ((other : Boton.Led)
          → pins.pin other d' ≡ (if same led other then on else pins.pin other d))

  abbrev pub Untouched : (Boton.State × D) → Type 0
  Untouched (s', d') = (s' ≡ s) × ((other : Boton.Led) → pins.pin other d' ≡ pins.pin other d)

  settle_led-ok :
      (led : Boton.Led) (on : Bool) (r : D × Ret)
      → r.1 ≡ ok
      → Boton.settle_led c g led on r s ≡ ((Boton.switched led on s, r.0), ok)
  unfolding Boton.settle_led
  settle_led-ok led on (d', ok) h = refl
  settle_led-ok led on (d', err e) h = absurd (cc)

  settle_led-err :
      (led : Boton.Led) (on : Bool) (r : D × Ret) (e : Errno)
      → r.1 ≡ err e
      → Boton.settle_led c g led on r s ≡ ((s, r.0), err e)
  unfolding Boton.settle_led
  settle_led-err led on (d', ok) e h = absurd (cc)
  settle_led-err led on (d', err e') e h = cc (h)

  set_led-settle :
      (n : ℕ) (led : Boton.Led) (on : Bool)
      → s.initialized ≡ true
      → Boton.led_of n ≡ some led
      → Boton.set_led c g n on s d ≡ Boton.settle_led c g led on (g.led_set led on d) s
  unfolding Boton.set_led Boton.set_led_locked
  set_led-settle n led on started named = ground (arith, started, named, leds)

  set_led-cases :
      (n : ℕ) (led : Boton.Led) (on : Bool)
      → s.initialized ≡ true
      → Boton.led_of n ≡ some led
      → let (after, result) = Boton.set_led c g n on s d in
        ((result ≡ ok) × Switched led on after) ⊎ ((e : Errno) × (result ≡ err e) × Untouched after)
  set_led-cases n led on started named =
      rw (set_led-settle n led on started named) (elim (Ret-cases (g.led_set led on d).1) [
        | inl h ↦
            rw (settle_led-ok led on (g.led_set led on d) h)
              (inl (refl, (refl, λ other. pins.set_ok led other on d h)))
        | inr (e, h) ↦
            rw (settle_led-err led on (g.led_set led on d) e h)
              (inr (e, refl, (refl, λ other. pins.set_err led other on d e h)))
      ])

  abbrev Outcome : List ℕ → List ℕ → (Boton.State × D) × List Line × Ret → Type 0
  Outcome colour word (after, _, result) =
      ((result ≡ ok)
        × (led : Boton.Led) × (on : Bool) × (colour ≡ led_text led)
        × (word ≡ state_text on)
        × Switched led on after)
      ⊎ ((result ≢ ok) × Untouched after)

  report_led-Outcome :
      (colour word : List ℕ) (led : Boton.Led) (on : Bool) (r : (Boton.State × D) × Ret)
      → colour ≡ led_text led
      → word ≡ state_text on
      → ((r.1 ≡ ok) × Switched led on r.0) ⊎ ((e : Errno) × (r.1 ≡ err e) × Untouched r.0)
      → Outcome colour word (report_led c g colour word r)
  unfolding report_led
  report_led-Outcome colour word led on (after, ok) a b (inl (_, h)) = inl (refl, led, on, a, b, h)
  report_led-Outcome colour word led on (after, err e) a b (inl (h, _)) = absurd (cc)
  report_led-Outcome colour word led on (after, ok) a b (inr (e, h, _)) = absurd (cc)
  report_led-Outcome colour word led on (after, err e') a b (inr (e, h, u)) =
      inr (λ f. absurd (cc), u)

  switch_named-Outcome :
      (colour word : List ℕ) (n : Option ℕ) (on : Option Bool)
      → s.initialized ≡ true
      → led_named colour ≡ n
      → state_named word ≡ on
      → Outcome colour word (switch_named c g colour word n on s d)
  unfolding switch_named
  switch_named-Outcome colour word none on started a b =
      inr (λ f. absurd (cc), (refl, λ other. refl))
  switch_named-Outcome colour word (some n) none started a b =
      inr (λ f. absurd (cc), (refl, λ other. refl))
  switch_named-Outcome colour word (some n) (some on) started a b =
      let (led, is_led, number) = led_named-text colour n a in
      report_led-Outcome colour word led on (Boton.set_led c g n on s d) is_led
        (state_named-text word on b) (set_led-cases n led on started number)

-- On a started module and a driver that behaves as documented, `test led` returns 0 only if its two
-- arguments name an LED and a state; then it switches that LED, at its pin and in the status, and no
-- other. If it does not return 0, the module and every pin are as before.
pub hw_test_led-switches :
    {D : Type 0} (c : Boton.Config) (g : Boton.Gpio D) (pins : Pins g) (leds : c.led_gpio ≡ true)
    (s : Boton.State) (d : D) (colour word : List ℕ)
    → s.initialized ≡ true
    → let (after, _, result) = hw_test_led c g colour word s d in
      ((result ≡ ok)
        × (led : Boton.Led) × (on : Bool) × (colour ≡ led_text led)
        × (word ≡ state_text on)
        × Switched c g pins leds s d led on after)
      ⊎ ((result ≢ ok) × Untouched c g pins leds s d after)
unfolding hw_test_led
hw_test_led-switches c g pins leds s d colour word started =
    switch_named-Outcome c g pins leds s d colour word (led_named colour) (state_named word) started
      refl refl
