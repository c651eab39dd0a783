-- ===== src/Radio/Sampling/Switches.antt =====
-- The switches of the link as the table reads them back after a write: set_switch() of
-- radio-uhf/src/radio_crypto.c and CRYPTO_SAMPLE of radio-uhf/parameters/radio_uhf_table.c.
use kfsw_modules.Prelude.{
  ℕ, zero, suc, ◌%◌, ◌^◌, ◌<◌, ◌≡◌, ◌⊎◌, inl, inr, refl, sym, ap, ◌∙◌, Bool, true, false, some,
  List, [], ◌≢◌, arith,
}
use kfsw_modules.Errno.{Errno, ok, err, Ret-cases}
use kfsw_modules.Params.{u8}
use kfsw_modules.Radio.Platform.{Platform}
use kfsw_modules.Radio.Settings.{Settings}
use kfsw_modules.Radio.Store.{FileSystem, file_of, store_save}
use kfsw_modules.Radio.Store.Roundtrip.{View}
use kfsw_modules.Radio.Link.{Link, Env, Random, drawn, no_random}
use kfsw_modules.Radio.Info.{Implementation}
use kfsw_modules.Radio.Control.{get, switched, set_switch, save_settings}
use kfsw_modules.Radio.Control.Changes.{refused_change_keeps, saved_change_is_installed}
use kfsw_modules.Radio.Sampling.{Variables, Value, number, Sampler, sampled, bit}

-- The switch with each number, in the settings and in the table.
abbrev pub switch_of : ℕ → Settings → Bool
switch_of zero s = s.enabled
switch_of (suc zero) s = s.tx
switch_of (suc (suc _)) s = s.rx

abbrev pub switch_sampler : ℕ → Sampler
switch_sampler zero = Sampler.crypto_enable
switch_sampler (suc zero) = Sampler.crypto_tx
switch_sampler (suc (suc _)) = Sampler.crypto_rx

-- A Boolean is not changed by the conversion to a byte.
bit_fits : (b : Bool) → bit b % 2 ^ 8 ≡ bit b
bit_fits true = refl
bit_fits false = refl

-- What the table reads for a switch. The function does not look at the bytes that it overwrites.
abbrev pub switch_read : Implementation → Link → Variables → ℕ → Value
switch_read i l v which = (sampled i l (switch_sampler which) [] v).1

switch_read-switch_of :
    (i : Implementation) (l : Link) (v : Variables) (which : ℕ)
    → switch_read i l v which ≡ number u8 (bit (switch_of which l.settings))
unfolding sampled get
switch_read-switch_of i l v zero = ap (number u8) (bit_fits l.settings.enabled)
switch_read-switch_of i l v (suc zero) = ap (number u8) (bit_fits l.settings.tx)
switch_read-switch_of i l v (suc (suc w)) = ap (number u8) (bit_fits l.settings.rx)

switch_read-settings :
    (i : Implementation) (l : Link) (v : Variables) (which : ℕ) (s : Settings)
    → l.settings ≡ s
    → switch_read i l v which ≡ number u8 (bit (switch_of which s))
switch_read-settings i l v which s h =
    switch_read-switch_of i l v which ∙ ap (λ t. number u8 (bit (switch_of which t))) h

switch_of-switched :
    {D : Type 0} (p : Platform) (fs : FileSystem D) (which : ℕ) (value : Bool) (s : Settings)
    → which < 3
    → switch_of which (switched p fs which value s) ≡ value
unfolding switched
switch_of-switched p fs zero value s h = refl
switch_of-switched p fs (suc zero) value s h = refl
switch_of-switched p fs (suc (suc zero)) value s h = refl
switch_of-switched p fs (suc (suc (suc w))) value s h = absurd (omega arith)

switch_of-switched_other :
    {D : Type 0} (p : Platform) (fs : FileSystem D) (which other : ℕ) (value : Bool) (s : Settings)
    → which < 3
    → other < 3
    → which ≢ other
    → switch_of other (switched p fs which value s) ≡ switch_of other s
unfolding switched
switch_of-switched_other p fs zero zero value s h o ne = absurd (ne refl)
switch_of-switched_other p fs zero (suc zero) value s h o ne = refl
switch_of-switched_other p fs zero (suc (suc _)) value s h o ne = refl
switch_of-switched_other p fs (suc zero) zero value s h o ne = refl
switch_of-switched_other p fs (suc zero) (suc zero) value s h o ne = absurd (ne refl)
switch_of-switched_other p fs (suc zero) (suc (suc _)) value s h o ne = refl
switch_of-switched_other p fs (suc (suc zero)) zero value s h o ne = refl
switch_of-switched_other p fs (suc (suc zero)) (suc zero) value s h o ne = refl
switch_of-switched_other p fs (suc (suc zero)) (suc (suc w)) value s h o ne =
    absurd (ne (omega arith))
switch_of-switched_other p fs (suc (suc (suc w))) other value s h o ne = absurd (omega arith)

Random-cases :
    (r : Random)
    → ((bytes : List ℕ) × (r ≡ drawn bytes))
      ⊎ ((e : Errno) × (left : List ℕ) × (r ≡ no_random e left))
Random-cases (drawn bytes) = inl (bytes, refl)
Random-cases (no_random e left) = inr (e, left, refl)

module _ {D : Type 0} (p : Platform) (fs : FileSystem D) (view : View fs) (l : Link) (d : D) where
  -- The change is in force and stored, or an error is reported and nothing changed.
  abbrev Saved : Settings → D × Link → Type 0
  Saved next (d', l') =
      (l'.last_error ≡ ok) × (l'.settings ≡ next) × (view.settings_file d' ≡ some (file_of p next))

  abbrev Refused : D × Link → Type 0
  Refused (d', l') =
      (e : Errno) × (l'.last_error ≡ err e)
      × (l'.settings ≡ l.settings)
      × (view.settings_file d' ≡ view.settings_file d)

  save_settings-undrawn :
      (env : Env) (next : Settings) (e : Errno) (left : List ℕ)
      → env.fresh ≡ no_random e left
      → save_settings p fs env next false l d ≡ (d, record l { last_error = err e })
  unfolding save_settings
  save_settings-undrawn env next e left h = rw h refl

  save_settings-outcome :
      (env : Env) (next : Settings)
      → Saved next (save_settings p fs env next false l d)
        ⊎ Refused (save_settings p fs env next false l d)
  save_settings-outcome env next = elim (Random-cases env.fresh) [
    | inr (e, left, h) ↦ inr (rw (save_settings-undrawn env next e left h) (e, refl, refl, refl))
    | inl (fresh, h) ↦ elim (Ret-cases (store_save p fs next d).1) [
      | inl o ↦
          let (changed, stored) =
            saved_change_is_installed p fs view env next false l d fresh h o in
          inl (changed.last_error, changed.settings, stored)
      | inr (e, o) ↦
          let (same, kept) = refused_change_keeps p fs view env next false l d fresh e h o in
          inr (e, ap (λ t. t.last_error) same, ap (λ t. t.settings) same, kept)
    ]
  ]

  set_switch-save :
      (env : Env) (which : ℕ) (value : Bool)
      → l.initialized ≡ true
      → set_switch p fs env which value l d
        ≡ save_settings p fs env (switched p fs which value l.settings) false l d
  unfolding set_switch
  set_switch-save env which value on = ground (arith, on)

-- What the table reads for a switch after a write is what is in force and what is stored. On a started
-- link and a file system that behaves as documented, a written switch either reads back as written,
-- `last_error` is 0 and the file holds the settings in force, or it reads back as before,
-- `last_error` tells why and the file is as before; the other two switches read as before.
pub switch_read-set_switch :
    {D : Type 0} (p : Platform) (fs : FileSystem D) (view : View fs) (env : Env)
    (i : Implementation) (v : Variables) (l : Link) (d : D) (which : ℕ) (value : Bool)
    → l.initialized ≡ true
    → which < 3
    → let (d', l') = set_switch p fs env which value l d in
      (((l'.last_error ≡ ok)
          × (switch_read i l' v which ≡ number u8 (bit value))
          × (view.settings_file d' ≡ some (file_of p l'.settings)))
        ⊎ ((e : Errno) × (l'.last_error ≡ err e)
            × (switch_read i l' v which ≡ switch_read i l v which)
            × (view.settings_file d' ≡ view.settings_file d)))
      × ((other : ℕ)
          → other < 3
          → which ≢ other
          → switch_read i l' v other ≡ switch_read i l v other)
switch_read-set_switch p fs view env i v l d which value on few =
    let next : Settings = switched p fs which value l.settings in
    let before : (w : ℕ) → number u8 (bit (switch_of w l.settings)) ≡ switch_read i l v w =
      λ w. sym (switch_read-switch_of i l v w) in
    rw (set_switch-save p fs view l d env which value on)
      (elim (save_settings-outcome p fs view l d env next) [
        | inl (fine, same, stored) ↦ (
          inl (
            fine,
            switch_read-settings i _ v which next same
                ∙ ap (λ b. number u8 (bit b)) (switch_of-switched p fs which value l.settings few),
            rw same stored,
          ),
          λ other o ne.
              switch_read-settings i _ v other next same
              ∙ ap (λ b. number u8 (bit b))
                  (switch_of-switched_other p fs which other value l.settings few o ne)
              ∙ before other,
        )
        | inr (e, told, same, kept) ↦ (
          inr (e, told, switch_read-settings i _ v which l.settings same ∙ before which, kept),
          λ other o ne. switch_read-settings i _ v other l.settings same ∙ before other,
        )
      ])
