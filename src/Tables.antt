-- ===== src/Tables.antt =====
-- The parameter tables of all four modules together: radio-uhf/parameters, gpredict/parameters,
-- temperature-sensor-example/parameters and boton-test/src/boton_test.c.
mod Examples
use kfsw_modules.Prelude.{
  ℕ, zero, suc, ◌≡◌, ◌≢◌, refl, sym, ◌∙◌, Bool, true, false, not, ◌&&◌, Option, none, some, List,
  [], ◌∷◌, arith, get_elem?, if◌then◌else◌, ◌<◌, ◌==◌,
}
use native.Mathlib.Decide.{dec_lt}
use kfsw_modules.Params.{Definition, DefinitionSet}
use kfsw_modules.Params.Layout.{well_formed, AreApart, well_formed-AreApart, fresh_name, fresh-ne}
use kfsw_modules.Gpredict.Table
use kfsw_modules.Radio.Info
use kfsw_modules.Temp
use kfsw_modules.Boton

-- The tables of a build that has every module, with or without the link's protection.
abbrev pub tables : Bool → List DefinitionSet
tables crypto =
    Info.definition_set crypto
    ∷ Temp.definition_set
    ∷ Table.definition_set
    ∷ Boton.Table.definition_set
    ∷ []

some-well_formed :
    (t s : DefinitionSet) → some t ≡ some s → well_formed t ≡ true → well_formed s ≡ true
some-well_formed t s h w = let same : t ≡ s = cc (h) in rw (← same) w

radio-well_formed : (crypto : Bool) → well_formed (Info.definition_set crypto) ≡ true
radio-well_formed true = refl
radio-well_formed false = refl

tables-well_formed :
    (crypto : Bool) (n : ℕ) (s : DefinitionSet)
    → get_elem? (tables crypto) n ≡ some s
    → well_formed s ≡ true
tables-well_formed crypto zero s h =
    some-well_formed (Info.definition_set crypto) s h (radio-well_formed crypto)
tables-well_formed crypto (suc zero) s h = some-well_formed Temp.definition_set s h refl
tables-well_formed crypto (suc (suc zero)) s h = some-well_formed Table.definition_set s h refl
tables-well_formed crypto (suc (suc (suc zero))) s h =
    some-well_formed Boton.Table.definition_set s h refl
tables-well_formed crypto (suc (suc (suc (suc n)))) s h = absurd (cc)

-- In every table of every build two different entries share no byte and no name.
pub entries_apart :
    (crypto : Bool) (n i j : ℕ) (s : DefinitionSet) (d e : Definition)
    → get_elem? (tables crypto) n ≡ some s
    → get_elem? s.definitions i ≡ some d
    → get_elem? s.definitions j ≡ some e
    → i ≢ j
    → AreApart d e
entries_apart crypto n i j s d e h gi gj ne =
    well_formed-AreApart s i j d e (tables-well_formed crypto n s h) gi gj ne

-- No name of the first list is one of the second.
abbrev names_apart : List Definition → List Definition → Bool
names_apart [] es = true
names_apart (d ∷ ds) es = fresh_name d.name es && names_apart ds es

abbrev apart_from : DefinitionSet → List DefinitionSet → Bool
apart_from s [] = true
apart_from s (t ∷ ts) =
    (not (s.table == t.table) && names_apart s.definitions t.definitions) && apart_from s ts

abbrev pairwise : List DefinitionSet → Bool
pairwise [] = true
pairwise (s ∷ ss) = apart_from s ss && pairwise ss

names_apart-ne :
    (ds es : List Definition) (i j : ℕ) (d e : Definition)
    → names_apart ds es ≡ true
    → get_elem? ds i ≡ some d
    → get_elem? es j ≡ some e
    → d.name ≢ e.name
names_apart-ne [] es i j d e a gi gj = absurd (cc)
names_apart-ne (x ∷ ds) es zero j d e a gi gj =
    let same : x ≡ d = cc (gi) in rw (← same) (fresh-ne x.name es j e (ground arith) gj)
names_apart-ne (x ∷ ds) es (suc i) j d e a gi gj = names_apart-ne ds es i j d e (ground arith) gi gj

-- Two tables have two numbers and no name in common.
pub record Distinct (s t : DefinitionSet) : Type 0 where
  pub numbers : s.table ≢ t.table
  pub names :
      (i j : ℕ) (d e : Definition)
      → get_elem? s.definitions i ≡ some d
      → get_elem? t.definitions j ≡ some e
      → d.name ≢ e.name

Distinct-sym : {s t : DefinitionSet} → Distinct s t → Distinct t s
Distinct-sym h = record {
  numbers = λ p. h.numbers (sym p);
  names = λ i j d e gi gj p. h.names j i e d gj gi (sym p);
}

apart_from-Distinct :
    (s : DefinitionSet) (ts : List DefinitionSet) (m : ℕ) (t : DefinitionSet)
    → apart_from s ts ≡ true
    → get_elem? ts m ≡ some t
    → Distinct s t
apart_from-Distinct s [] m t a g = absurd (cc)
apart_from-Distinct s (x ∷ ts) zero t a g =
    let same : x ≡ t = cc (g) in
    rw (← same) (record {
      numbers = λ p. ground (arith, p);
      names = λ i j d e. names_apart-ne s.definitions x.definitions i j d e (ground arith);
    })
apart_from-Distinct s (x ∷ ts) (suc m) t a g = apart_from-Distinct s ts m t (ground arith) g

pairwise-Distinct :
    (ss : List DefinitionSet) (n m : ℕ) (s t : DefinitionSet)
    → pairwise ss ≡ true
    → get_elem? ss n ≡ some s
    → get_elem? ss m ≡ some t
    → n < m
    → Distinct s t
pairwise-Distinct [] n m s t a gs gt h = absurd (cc)
pairwise-Distinct (x ∷ ss) n zero s t a gs gt h = absurd (omega arith)
pairwise-Distinct (x ∷ ss) zero (suc m) s t a gs gt h =
    let same : x ≡ s = cc (gs) in rw (← same) (apart_from-Distinct x ss m t (ground arith) gt)
pairwise-Distinct (x ∷ ss) (suc n) (suc m) s t a gs gt h =
    pairwise-Distinct ss n m s t (ground arith) gs gt (omega arith)

tables-pairwise : (crypto : Bool) → pairwise (tables crypto) ≡ true
tables-pairwise true = refl
tables-pairwise false = refl

-- In every build the tables of two different modules have different numbers, and no parameter of
-- one has the name of a parameter of the other.
pub tables-Distinct :
    (crypto : Bool) (n m : ℕ) (s t : DefinitionSet)
    → get_elem? (tables crypto) n ≡ some s
    → get_elem? (tables crypto) m ≡ some t
    → n ≢ m
    → Distinct s t
tables-Distinct crypto n m s t gs gt h = elim (dec_lt n m) [
  | yes p ↦ pairwise-Distinct (tables crypto) n m s t (tables-pairwise crypto) gs gt p
  | no p ↦
      Distinct-sym
        (pairwise-Distinct (tables crypto) m n t s (tables-pairwise crypto) gt gs (omega arith))
]
