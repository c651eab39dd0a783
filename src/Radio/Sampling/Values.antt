-- ===== src/Radio/Sampling/Values.antt =====
-- What a read of each entry of radio-uhf/parameters/radio_uhf_table.c shows of the radio's identity
-- and of the link.
use Prim.Native.String.{String}
use package.text.Mathlib.Text.{◌==◌ as str_eq}
use kfsw_modules.Prelude.{
  ℕ, zero, suc, ◌%◌, ◌^◌, ◌≤◌, ◌≡◌, refl, ap, ◌∙◌, Bool, true, false, not, Option, none, some, List,
  [], ◌∷◌, ◌++◌, length, get_elem?, arith, u32_max, take, if◌then◌else◌,
}
use kfsw_modules.Errno.{Ret}
use kfsw_modules.Params.{Definition, ParamType, Callback, width, sample}
use kfsw_modules.Radio.Link.{Link}
use kfsw_modules.Radio.Handshake.{is_none}
use kfsw_modules.Radio.Control.{get}
use kfsw_modules.Radio.Info.{
  Implementation, text_of, is_text, copy_name, copy_name-fits, get_info, identity, protection,
  definition_set,
}
use kfsw_modules.Radio.Sampling.{
  Variables, Value, number, code, text, Sampler, sampled, samplers, sampler_in, bit, sample_info,
}

-- What an entry tells: a number, a result, or the bytes of a name.
pub data Meaning : Type 0 where
  amount : ℕ → Meaning
  outcome : Ret → Meaning
  words : List ℕ → Meaning

-- The names of the entries that are sampled, and what each tells of the radio and its link.
abbrev meanings : Implementation → Link → List (String × Meaning)
meanings i l =
    ("uhf_implementation", words i.name)
    ∷ ("uhf_expected_hardware", words i.expected_hardware)
    ∷ ("uhf_expected_baud", amount i.expected_serial_baud)
    ∷ ("uhf_expected_flow", amount (bit i.expected_hardware_flow_control))
    ∷ ("uhf_status_available", amount 0)
    ∷ ("uhf_link_state", amount 0)
    ∷ ("uhf_encrypt_enable", amount (bit l.settings.enabled))
    ∷ ("uhf_encrypt_tx", amount (bit l.settings.tx))
    ∷ ("uhf_encrypt_rx", amount (bit l.settings.rx))
    ∷ ("uhf_key_set", amount (bit (not (is_none l.master))))
    ∷ ("uhf_tx_ready", amount (bit (not (is_none l.tx_key))))
    ∷ ("uhf_rx_ready", amount (bit (not (is_none l.rx_key))))
    ∷ ("uhf_authenticated", amount l.authenticated)
    ∷ ("uhf_rejected", amount l.rejected)
    ∷ ("uhf_replays", amount l.replays)
    ∷ ("uhf_crypto_error", outcome l.last_error)
    ∷ []

abbrev meaning_in : String → List (String × Meaning) → Option Meaning
meaning_in name [] = none
meaning_in name ((other, m) ∷ rest) = if str_eq name other then some m else meaning_in name rest

-- The value was written in the type of the entry and is exactly what the entry tells; a name fills
-- its capacity, ends inside it and is cut to fit.
abbrev pub Tells : ParamType → Meaning → Value → Type 0
Tells type (amount n) (number written_as m) = (written_as ≡ type) × (m ≡ n)
Tells type (outcome r) (code written_as q) = (written_as ≡ type) × (q ≡ r)
Tells type (words name) (text bytes) = (length bytes ≡ width type) × (text_of bytes ≡ take 23 name)
Tells _ _ _ = ⊥

abbrev has_sample : List Callback → Bool
has_sample [] = false
has_sample (sample ∷ rest) = true
has_sample (_ ∷ rest) = has_sample rest

take_twice : (n : ℕ) (xs : List ℕ) → take n (take n xs) ≡ take n xs
take_twice zero xs = refl
take_twice (suc n) [] = refl
take_twice (suc n) (x ∷ xs) = ap (λ ys. x ∷ ys) (take_twice n xs)

is_text-take : (n : ℕ) (xs : List ℕ) → is_text xs ≡ true → is_text (take n xs) ≡ true
is_text-take zero xs h = refl
is_text-take (suc n) [] h = refl
is_text-take (suc n) (x ∷ xs) h = ground (arith, is_text-take n xs)

-- A name that is copied to a variable of the table, and from there behind `value`.
copied_twice :
    (name variable value : List ℕ)
    → is_text name ≡ true
    → length variable ≡ 24
    → length value ≡ 24
    → Tells
        (ParamType.string 24)
        (words name)
        (text (copy_name value (some (text_of (copy_name variable (some name))))))
copied_twice name variable value t v w =
    let (_, held) = copy_name-fits variable name v t in
    let (size, shown) = copy_name-fits value (take 23 name) w (is_text-take 23 name t) in
    rw held (size, shown ∙ take_twice 23 name)

-- The conditions of a read: names without a zero byte, a baud rate and counters of 32 bits, and
-- variables of the size that the table gives them.
pub record IsReadable (i : Implementation) (l : Link) (v : Variables) : Type 0 where
  pub name : is_text i.name ≡ true
  pub expected_hardware : is_text i.expected_hardware ≡ true
  pub baud : i.expected_serial_baud ≤ u32_max
  pub authenticated : l.authenticated ≤ u32_max
  pub rejected : l.rejected ≤ u32_max
  pub replays : l.replays ≤ u32_max
  pub implementation_variable : length v.implementation ≡ 24
  pub hardware_variable : length v.expected_hardware ≡ 24

module _ (i : Implementation) (l : Link) (v : Variables) where
  abbrev Shows : Option Sampler → Option Meaning → Definition → Type 0
  Shows none none d = has_sample d.callbacks ≡ false
  Shows (some f) (some m) d =
      (has_sample d.callbacks ≡ true)
      × ((value : List ℕ) → length value ≡ width d.type → Tells d.type m (sampled i l f value v).1)
  Shows _ _ d = ⊥

  -- A read of an entry, by the sample function at its offset and the meaning of its name.
  abbrev pub Reads : Definition → Type 0
  Reads d = Shows (sampler_in d.offset samplers) (meaning_in d.name (meanings i l)) d

  AllRead : List Definition → Type 0
  AllRead [] = Unit {0}
  AllRead (d ∷ rest) = Reads d × AllRead rest

  AllRead-at :
      (entries : List Definition) (n : ℕ) (d : Definition)
      → AllRead entries
      → get_elem? entries n ≡ some d
      → Reads d
  unfolding AllRead
  AllRead-at [] n d a g = absurd (cc)
  AllRead-at (e ∷ rest) zero d a g = let same : e ≡ d = cc (g) in rw (← same) a.0
  AllRead-at (e ∷ rest) (suc n) d a g = AllRead-at rest n d a.1 g

  bit_kept : (b : Bool) → bit b % 2 ^ 8 ≡ bit b
  bit_kept true = refl
  bit_kept false = refl

  word_kept : (n : ℕ) → n ≤ u32_max → n % 2 ^ 32 ≡ n
  word_kept n h = omega arith

  identity-AllRead :
      (rest : List Definition) → IsReadable i l v → AllRead rest → AllRead (identity ++ rest)
  unfolding AllRead sampled sample_info get_info
  identity-AllRead rest h others =
      let flow = bit_kept i.expected_hardware_flow_control in
      let baud = word_kept i.expected_serial_baud h.baud in
      (
        (
          refl,
          λ value w. copied_twice i.name v.implementation value h.name h.implementation_variable w,
        ),
        (
          (
            refl,
            λ value w.
                copied_twice i.expected_hardware v.expected_hardware value h.expected_hardware
                  h.hardware_variable w,
          ),
          (
            (refl, λ value w. (refl, baud)),
            (
              (refl, λ value w. (refl, flow)),
              ((refl, λ value w. (refl, refl)), ((refl, λ value w. (refl, refl)), others)),
            ),
          ),
        ),
      )

  protection-AllRead : IsReadable i l v → AllRead protection
  unfolding AllRead sampled get
  protection-AllRead h = (
    refl,
    (
      (refl, λ value w. (refl, bit_kept _)),
      (
        (refl, λ value w. (refl, bit_kept _)),
        (
          (refl, λ value w. (refl, bit_kept _)),
          (
            (refl, λ value w. (refl, bit_kept _)),
            (
              (refl, λ value w. (refl, bit_kept _)),
              (
                (refl, λ value w. (refl, bit_kept _)),
                (
                  (refl, λ value w. (refl, word_kept _ h.authenticated)),
                  (
                    (refl, λ value w. (refl, word_kept _ h.rejected)),
                    (
                      (refl, λ value w. (refl, word_kept _ h.replays)),
                      ((refl, λ value w. (refl, refl)), tt),
                    ),
                  ),
                ),
              ),
            ),
          ),
        ),
      ),
    ),
  )

-- Every entry of the radio's table reads as what its name says, with the link's protection in the
-- build or without. An entry has a sample function exactly if its definition names one. A number is
-- written in the type of the entry and is, unchanged by that type, the baud rate, flag or link state
-- of the radio's identity, the switch or counter of the link, or whether the link holds the master
-- key or a session key; the error is the link's last result; a name fills its capacity, ends inside
-- it, and is the implementation's or the hardware's, cut to 23 bytes. The names are texts, the baud
-- rate and the counters fit 32 bits, and the table's two name variables have their 24 bytes.
pub sampled-Tells :
    (crypto : Bool) (i : Implementation) (l : Link) (v : Variables) (n : ℕ) (d : Definition)
    → IsReadable i l v
    → get_elem? (definition_set crypto).definitions n ≡ some d
    → Reads i l v d
unfolding AllRead
sampled-Tells false i l v n d h at =
    AllRead-at i l v identity n d (identity-AllRead i l v [] h tt) at
sampled-Tells true i l v n d h at =
    AllRead-at i l v (identity ++ protection) n d
      (identity-AllRead i l v protection h (protection-AllRead i l v h)) at
