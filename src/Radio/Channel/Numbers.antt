-- ===== src/Radio/Channel/Numbers.antt =====
-- Lists of sent frames by their numbers.
use mathlib.Core.List.{Sublist}
use mathlib.Core.List.Sublist
use kfsw_modules.Prelude.{
  ℕ, zero, suc, ◌≤◌, ◌<◌, ◌≡◌, refl, ◌∙◌, Bool-cases, inl, inr, some, List, [], ◌∷◌, arith, leb,
  if◌then◌else◌, get_elem?,
}
use kfsw_modules.Radio.Channel.{Sent, offered_of}

-- The entries with numbers up to `r`, if the newest have the largest.
abbrev pub upto : ℕ → List Sent → List Sent
upto r [] = []
upto r (x ∷ xs) = if leb x.number r then x ∷ xs else upto r xs

-- The numbers fall from the newest entry to the oldest and stay below `bound`.
abbrev pub Falling : ℕ → List Sent → Type 0
Falling bound [] = Unit {0}
Falling bound (x ∷ xs) = (x.number < bound) × Falling x.number xs

pub upto-sublist : (r : ℕ) (xs : List Sent) → Sublist (offered_of (upto r xs)) (offered_of xs)
upto-sublist r [] = Sublist.refl _
upto-sublist r (x ∷ xs) = elim (Bool-cases (leb x.number r)) [
  | inl h ↦ rw h (Sublist.refl _)
  | inr h ↦ rw h (Sublist.cons x.offered (upto-sublist r xs))
]

upto-all : (r : ℕ) (xs : List Sent) → Falling (suc r) xs → upto r xs ≡ xs
upto-all r [] f = refl
upto-all r (x ∷ xs) f = ground arith

pub upto-newer : (r : ℕ) (x : Sent) (xs : List Sent) → r < x.number → upto r (x ∷ xs) ≡ upto r xs
upto-newer r x xs h = ground arith

pub upto_self : (x : Sent) (xs : List Sent) → upto x.number (x ∷ xs) ≡ x ∷ xs
upto_self x xs = ground arith

pub Falling-at :
    (bound : ℕ) (xs : List Sent) (i : ℕ) (x : Sent)
    → Falling bound xs
    → get_elem? xs i ≡ some x
    → x.number < bound
Falling-at bound [] i x f g = absurd (cc)
Falling-at bound (y ∷ xs) zero x f g = ground arith
Falling-at bound (y ∷ xs) (suc i) x f g = omega (arith, Falling-at y.number xs i x f.1 g)

pub Falling-mono : (a b : ℕ) (xs : List Sent) → Falling a xs → a ≤ b → Falling b xs
Falling-mono a b [] f h = tt
Falling-mono a b (x ∷ xs) f h = (omega arith, f.1)

-- Below the entry at an index, up to its number, stand the entries up to any smaller number.
pub upto-at :
    (bound r : ℕ) (xs : List Sent) (i : ℕ) (x : Sent)
    → Falling bound xs
    → get_elem? xs i ≡ some x
    → r < x.number
    → (rest : List Sent) × (upto x.number xs ≡ x ∷ rest)
      × Sublist (offered_of (upto r xs)) (offered_of rest)
upto-at bound r [] i x f g h = absurd (cc)
upto-at bound r (y ∷ xs) zero x f g h =
    let same : y ≡ x = cc (g) in
    let newer : r < y.number = rw same h in
    (xs, rw same (upto_self x xs), rw (upto-newer r y xs newer) (upto-sublist r xs))
upto-at bound r (y ∷ xs) (suc i) x f g h =
    let below : x.number < y.number = Falling-at y.number xs i x f.1 g in
    let (rest, found, sub) = upto-at y.number r xs i x f.1 g h in
    (rest, upto-newer x.number y xs below ∙ found, rw (upto-newer r y xs (omega arith)) sub)
