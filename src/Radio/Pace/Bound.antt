-- ===== src/Radio/Pace/Bound.antt =====
-- The link asks for a session at most once a second (radio-uhf/src/radio_crypto.c).
use kfsw_modules.Prelude.{
  ℕ, ◌+◌, ◌-◌, ◌*◌, ◌≤◌, ◌≡◌, ◌⊎◌, inl, inr, refl, ap, sym, ◌∙◌, false, List, [], ◌∷◌, arith,
}
use kfsw_modules.Prelude.Int.{pos}
use kfsw_modules.Radio.Platform.{Platform}
use kfsw_modules.Radio.Link.{Config, Link, Env, Packet, too_soon}
use kfsw_modules.Radio.Handshake.{connect}
use kfsw_modules.Radio.Frames.{encode, decode}
use kfsw_modules.Radio.Pace.{requests, Asks, connect-Asks, encode-Asks, decode-Asks}

-- The calls of a link whose settings do not change.
pub data Traffic : Type 0 where
  connects : Traffic
  encodes : Packet → Traffic
  decodes : Packet → Traffic

-- The clock at the last call, which never went back.
abbrev pub Ends : ℕ → List (Env × Traffic) → ℕ → Type 0
Ends start [] end = start ≤ end
Ends start ((env, _) ∷ rest) end = (start ≤ env.now) × Ends env.now rest end

Ends-le : (start : ℕ) (calls : List (Env × Traffic)) (end : ℕ) → Ends start calls end → start ≤ end
Ends-le start [] end h = h
Ends-le start ((env, call) ∷ rest) end h = omega (arith, Ends-le env.now rest end h.1)

not_soon : (now last : ℕ) → too_soon now (pos last) ≡ false → last + 1000 ≤ now
not_soon now last h = ground (arith, h)

module _ (c : Config) (p : Platform) where
  unfoldable pub step : Env → Traffic → Link → Link
  step env connects l = (connect c p env l).0
  step env (encodes packet) l = (encode c p env packet l).0
  step env (decodes packet) l = (decode c p env packet l).0

  unfoldable pub run : List (Env × Traffic) → Link → Link
  run [] l = l
  run ((env, call) ∷ rest) l = run rest (step env call l)

  step-Asks : (env : Env) (call : Traffic) (l : Link) → Asks env l (step env call l)
  unfolding step
  step-Asks env connects l = connect-Asks c p env l
  step-Asks env (encodes packet) l = encode-Asks c p env packet l
  step-Asks env (decodes packet) l = decode-Asks c p env packet l

  -- Since `start` the link, with `before` requests then, has made none, or its last one was at `at`
  -- and the others fit in the seconds before.
  abbrev Paced : ℕ → ℕ → ℕ → Link → Type 0
  Paced before start now l =
      (requests l.sent ≡ before)
      ⊎ ((at : ℕ) × (l.last_request ≡ pos at)
          × (at ≤ now)
          × (1000 * requests l.sent + start ≤ 1000 * before + 1000 + at))

  step-Paced :
      (before start now : ℕ) (env : Env) (l l' : Link)
      → start ≤ now
      → now ≤ env.now
      → Asks env l l'
      → Paced before start now l
      → Paced before start env.now l'
  step-Paced before start now env l l' a b (inl (same, clock)) (inl h) = inl (same ∙ h)
  step-Paced before start now env l l' a b (inl (same, clock)) (inr (at, last, past, few)) =
      inr (at, clock ∙ last, omega arith, omega (arith, same, few))
  step-Paced before start now env l l' a b (inr (late, clock, more)) (inl h) =
      inr (env.now, clock, omega arith, omega (arith, more, h))
  step-Paced before start now env l l' a b (inr (late, clock, more)) (inr (at, last, past, few)) =
      let waited : at + 1000 ≤ env.now =
        not_soon env.now at (ap (too_soon env.now) (sym last) ∙ late) in
      inr (env.now, clock, omega arith, omega (arith, more, few, waited))

  run-Paced :
      (before start now end : ℕ) (calls : List (Env × Traffic)) (l : Link)
      → start ≤ now
      → Ends now calls end
      → Paced before start now l
      → Paced before start end (run calls l)
  unfolding run
  run-Paced before start now end [] l a e (inl h) = inl h
  run-Paced before start now end [] l a e (inr (at, clock, past, few)) =
      inr (at, clock, omega arith, few)
  run-Paced before start now end ((env, call) ∷ rest) l a e h =
      run-Paced before start env.now end rest (step env call l) (omega arith) e.1
        (step-Paced before start now env l (step env call l) a e.0 (step-Asks env call l) h)

-- While the settings do not change, the link asks for a session at most once a second, whatever
-- packets it is given to send, whatever arrives and however often a session is asked for: from
-- `start` to `end`, on a clock that never goes back, at most one request goes out, and one more for
-- each full second.
pub requests_paced :
    (c : Config) (p : Platform) (start end : ℕ) (calls : List (Env × Traffic)) (l : Link)
    → Ends start calls end
    → 1000 * requests (run c p calls l).sent ≤ 1000 * requests l.sent + 1000 + (end - start)
requests_paced c p start end calls l e =
    let length_ok : start ≤ end = Ends-le start calls end e in
    elim (run-Paced c p (requests l.sent) start start end calls l (omega arith) e (inl refl)) [
      | inl same ↦ omega (arith, same)
      | inr (at, _, past, few) ↦ omega (arith, past, few)
    ]
