-- ===== src/Gpredict/Profiles/Invariant.antt =====
-- What holds of the profile slots and the selection (gpredict/src/gpredict_profiles.c) between two
-- calls.
use kfsw_modules.Prelude.{
  ℕ, zero, suc, ◌≡◌, refl, Bool, true, Option, none, some, List, [], ◌∷◌, arith, length, get_or,
  get_or-set, length-set, replicate, set, ltb, ◌==◌, ◌&&◌, if◌then◌else◌, ap,
}
use kfsw_modules.Gpredict.Config.{Config}
use kfsw_modules.Gpredict.Tracker.{Bearing}
use kfsw_modules.Gpredict.Profiles.{
  Profile, Node, boot, slot, slot_defined, profile_valid, empty_slot, define, select, enable,
  bearing,
}

pub record IsConsistent (c : Config) (n : Node) : Type 0 where
  pub sized : length n.profiles ≡ c.profiles
  pub valid : (i : ℕ) → slot_defined i n ≡ true → profile_valid c (slot i n) ≡ true
  pub chosen_defined : (i : ℕ) → n.selected ≡ some i → slot_defined i n ≡ true
  pub chosen_enabled : (i : ℕ) → n.selected ≡ some i → (slot i n).enabled ≡ true

pub data Call : Type 0 where
  defines : ℕ → Option Profile → Call
  selects : ℕ → Call
  enables : ℕ → Bool → Call
  judges : ℕ → Option Bearing → Call

unfoldable pub step : Config → Call → Node → Node
unfolding define select enable bearing
step c (defines i p) n = (define c i p n).0
step c (selects i) n = (select i n).0
step c (enables i e) n = (enable i e n).0
step c (judges now b) n = (bearing c now b n).0

unfoldable pub run : Config → List Call → Node → Node
run c [] n = n
run c (k ∷ ks) n = run c ks (step c k n)

define-IsConsistent :
    (c : Config) (i : ℕ) (p : Profile) (n : Node)
    → IsConsistent c n
    → IsConsistent c (define c i (some p) n).0
unfolding define slot_defined profile_valid
define-IsConsistent c i p n h = record {
  sized = ground (arith, h.sized, length-set n.profiles i p);
  valid = λ j.
      ground (arith, h.valid j, length-set n.profiles i p, get_or-set n.profiles i j p empty_slot);
  chosen_defined = λ j. ground (
    arith,
    h.chosen_defined j,
    length-set n.profiles i p,
    get_or-set n.profiles i j p empty_slot,
  );
  chosen_enabled = λ j. ground (
    arith,
    h.chosen_enabled j,
    length-set n.profiles i p,
    get_or-set n.profiles i j p empty_slot,
  );
}

select-IsConsistent :
    (c : Config) (i : ℕ) (n : Node) → IsConsistent c n → IsConsistent c (select i n).0
unfolding select
select-IsConsistent c i n h = record {
  sized = ground (arith, h.sized);
  valid = λ j. ground (arith, h.valid j);
  chosen_defined = λ j. ground (arith, h.chosen_defined j);
  chosen_enabled = λ j. ground (arith, h.chosen_enabled j);
}

enable-IsConsistent :
    (c : Config) (i : ℕ) (e : Bool) (n : Node) → IsConsistent c n → IsConsistent c (enable i e n).0
unfolding enable profile_valid
enable-IsConsistent c i e n h = record {
  sized = ground (arith, h.sized, lengths);
  valid = λ j. ground (arith, h.valid j, h.valid i, lengths, slots j);
  chosen_defined = λ j. ground (arith, h.chosen_defined j, lengths, slots j);
  chosen_enabled = λ j. ground (arith, h.chosen_enabled j, lengths, slots j);
}
  where
    changed : Profile
    changed = record (slot i n) { enabled = e }

    lengths : length (set n.profiles i changed) ≡ length n.profiles
    lengths = length-set n.profiles i changed

    slots :
        (j : ℕ)
        → get_or (set n.profiles i changed) j empty_slot ≡ (
            if i == j && ltb i (length n.profiles) then changed else get_or n.profiles j empty_slot)
    slots j = get_or-set n.profiles i j changed empty_slot

bearing-IsConsistent :
    (c : Config) (now : ℕ) (b : Option Bearing) (n : Node)
    → IsConsistent c n
    → IsConsistent c (bearing c now b n).0
unfolding bearing slot_defined
bearing-IsConsistent c now b n h = record {
  sized = ground (arith, h.sized);
  valid = λ j. ground (arith, h.valid j);
  chosen_defined = λ j. ground (arith, h.chosen_defined j);
  chosen_enabled = λ j. ground (arith, h.chosen_enabled j);
}

pub step-IsConsistent :
    (c : Config) (k : Call) (n : Node) → IsConsistent c n → IsConsistent c (step c k n)
unfolding step
step-IsConsistent c (defines i none) n h = unfold define in h
step-IsConsistent c (defines i (some p)) n h = define-IsConsistent c i p n h
step-IsConsistent c (selects i) n h = select-IsConsistent c i n h
step-IsConsistent c (enables i e) n h = enable-IsConsistent c i e n h
step-IsConsistent c (judges now b) n h = bearing-IsConsistent c now b n h

run_from-IsConsistent :
    (c : Config) (ks : List Call) (n : Node) → IsConsistent c n → IsConsistent c (run c ks n)
unfolding run
run_from-IsConsistent c [] n h = h
run_from-IsConsistent c (k ∷ ks) n h =
    run_from-IsConsistent c ks (step c k n) (step-IsConsistent c k n h)

length-replicate {ℓ} : {A : Type ℓ} (k : ℕ) (a : A) → length (replicate k a) ≡ k
length-replicate zero a = refl
length-replicate (suc k) a = ap suc (length-replicate k a)

get_or-replicate {ℓ} : {A : Type ℓ} (k i : ℕ) (a : A) → get_or (replicate k a) i a ≡ a
get_or-replicate zero i a = refl
get_or-replicate (suc k) zero a = refl
get_or-replicate (suc k) (suc i) a = get_or-replicate k i a

pub boot-IsConsistent : (c : Config) → IsConsistent c (boot c)
unfolding boot slot_defined
boot-IsConsistent c = record {
  sized = length-replicate c.profiles empty_slot;
  valid = λ j. ground (arith, get_or-replicate c.profiles j empty_slot);
  chosen_defined = λ j. ground arith;
  chosen_enabled = λ j. ground arith;
}

-- From empty slots, whatever profiles are defined, selected, enabled or disabled and whatever
-- bearings are judged, in any order: the number of slots stays the configured one, a slot that
-- holds a profile holds a valid one, and the selected slot holds an enabled profile.
pub run-IsConsistent : (c : Config) (ks : List Call) → IsConsistent c (run c ks (boot c))
run-IsConsistent c ks = run_from-IsConsistent c ks (boot c) (boot-IsConsistent c)
