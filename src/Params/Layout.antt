-- ===== src/Params/Layout.antt =====
-- What makes a parameter table well formed, as a test that runs over its entries and as the
-- statement about any two of them that the test proves.
use Prim.Native.String.{String}
use text.Mathlib.Text.{◌==◌ as str_eq}
use text.Mathlib.TextEquality.{eq_iff}
use kfsw_modules.Prelude.{
  ℕ, zero, suc, ◌≡◌, ◌≢◌, sym, ◌≤◌, ◌<◌, ◌⊎◌, inl, inr, Bool, true, false, not, ◌&&◌, some, List,
  [], ◌∷◌, arith, leb, get_elem?,
}
use native.Mathlib.Decide.{dec_lt}
use kfsw_modules.Params.{Definition, DefinitionSet, Flag, Callback, end_offset}

-- Every later entry begins where `bound` ends or behind it, in order of offsets.
abbrev pub ascending : ℕ → List Definition → Bool
ascending bound [] = true
ascending bound (d ∷ ds) = leb bound d.offset && ascending (end_offset d) ds

abbrev pub fresh_name : String → List Definition → Bool
fresh_name name [] = true
fresh_name name (d ∷ ds) = not (str_eq name d.name) && fresh_name name ds

abbrev pub distinct_names : List Definition → Bool
distinct_names [] = true
distinct_names (d ∷ ds) = fresh_name d.name ds && distinct_names ds

abbrev has_read_only : List Flag → Bool
has_read_only [] = false
has_read_only (Flag.read_only ∷ fs) = true
has_read_only (f ∷ fs) = has_read_only fs

abbrev has_validate : List Callback → Bool
has_validate [] = false
has_validate (Callback.validate ∷ cs) = true
has_validate (k ∷ cs) = has_validate cs

abbrev has_changed : List Callback → Bool
has_changed [] = false
has_changed (Callback.changed ∷ cs) = true
has_changed (k ∷ cs) = has_changed cs

-- A writable entry checks what is written and acts on it; a read-only one does neither.
abbrev pub guards : Bool → Definition → Bool
guards true d = not (has_validate d.callbacks) && not (has_changed d.callbacks)
guards false d = has_validate d.callbacks && has_changed d.callbacks

abbrev pub guarded : List Definition → Bool
guarded [] = true
guarded (d ∷ ds) = guards (has_read_only d.flags) d && guarded ds

abbrev pub well_formed : DefinitionSet → Bool
well_formed s = ascending 0 s.definitions && distinct_names s.definitions && guarded s.definitions

pub record AreApart (d e : Definition) : Type 0 where
  pub bytes : (end_offset d ≤ e.offset) ⊎ (end_offset e ≤ d.offset)
  pub names : d.name ≢ e.name

ascending-le :
    (bound : ℕ) (ds : List Definition) (i : ℕ) (d : Definition)
    → ascending bound ds ≡ true
    → get_elem? ds i ≡ some d
    → bound ≤ d.offset
ascending-le bound [] i d a g = cc
ascending-le bound (x ∷ ds) zero d a g = ground arith
ascending-le bound (x ∷ ds) (suc i) d a g = ground (arith, ascending-le (end_offset x) ds i d)

pub fresh-ne :
    (name : String) (ds : List Definition) (i : ℕ) (d : Definition)
    → fresh_name name ds ≡ true
    → get_elem? ds i ≡ some d
    → name ≢ d.name
fresh-ne name [] i d a g = absurd (cc)
fresh-ne name (x ∷ ds) zero d a g = λ e. ground (arith, eq_iff name x.name)
fresh-ne name (x ∷ ds) (suc i) d a g = fresh-ne name ds i d (ground arith) g

AreApart-sym : {d e : Definition} → AreApart d e → AreApart e d
AreApart-sym h = record {
  bytes = elim h.bytes [ inl p ↦ inr p | inr p ↦ inl p ];
  names = λ p. h.names (sym p);
}

AreApart-entries :
    (bound : ℕ) (ds : List Definition) (i j : ℕ) (d e : Definition)
    → ascending bound ds ≡ true
    → distinct_names ds ≡ true
    → get_elem? ds i ≡ some d
    → get_elem? ds j ≡ some e
    → i < j
    → AreApart d e
AreApart-entries bound [] i j d e a n gi gj h = cc
AreApart-entries bound (x ∷ ds) i zero d e a n gi gj h = absurd (omega arith)
AreApart-entries bound (x ∷ ds) zero (suc j) d e a n gi gj h =
    let same : x ≡ d = ground arith in
    rw (← same) (record {
      bytes = inl (ascending-le (end_offset x) ds j e (ground arith) gj);
      names = fresh-ne x.name ds j e (ground arith) gj;
    })
AreApart-entries bound (x ∷ ds) (suc i) (suc j) d e a n gi gj h =
    AreApart-entries (end_offset x) ds i j d e (ground arith) (ground arith) gi gj (omega arith)

-- Two different entries of a well-formed table share no byte and no name.
pub well_formed-AreApart :
    (s : DefinitionSet) (i j : ℕ) (d e : Definition)
    → well_formed s ≡ true
    → get_elem? s.definitions i ≡ some d
    → get_elem? s.definitions j ≡ some e
    → i ≢ j
    → AreApart d e
well_formed-AreApart s i j d e w gi gj h =
    let a : ascending 0 s.definitions ≡ true = ground arith in
    let n : distinct_names s.definitions ≡ true = ground arith in
    elim (dec_lt i j) [
      | yes p ↦ AreApart-entries 0 s.definitions i j d e a n gi gj p
      | no p ↦ AreApart-sym (AreApart-entries 0 s.definitions j i e d a n gj gi (omega arith))
    ]
