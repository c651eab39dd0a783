-- ===== src/Radio/Control/Concurrent.antt =====
-- A change of the settings while packets pass: `set_switch` and `radio_crypto_set_key` of
-- radio-uhf/src/radio_crypto.c hold `crypto_lock` only to read the settings and to install the new
-- ones, and the packets that come between see the old ones.
use kfsw_modules.Prelude.{
  ℕ, ◌≡◌, refl, sym, ap, ◌∙◌, Bool, true, false, not, ◌||◌, Option, none, some, List, ◌==◌,
  if◌then◌else◌, length,
}
use kfsw_modules.Radio.Platform.{Platform}
use kfsw_modules.Radio.Settings.{Settings}
use kfsw_modules.Radio.Store.{FileSystem}
use kfsw_modules.Radio.Link.{Config, Link, Env}
use kfsw_modules.Radio.Pace.Bound.{Traffic, connects, encodes, decodes}
use kfsw_modules.Radio.Pace.Bound
use kfsw_modules.Radio.Control.Unchanged.{run-SameSettings}
use kfsw_modules.Radio.Control.{
  set_switch, set_key, switched, install_key, save_settings, key_text_length, key_bytes,
}

module _ {D : Type 0} (c : Config) (p : Platform) (fs : FileSystem D) where
  -- set_switch() with the calls that take `crypto_lock` between its two uses of it.
  unfoldable pub switch_among : Env → ℕ → Bool → List (Env × Traffic) → Link → D → D × Link
  switch_among env which value between l d =
      let l' = Bound.run c p between l in
      if not l.initialized
      then (d, l')
      else save_settings p fs env (switched p fs which value l.settings) false l' d

  -- What radio_crypto_set_key() makes of the key, on the settings that it read.
  key_among_with : Env → Option (List ℕ) → Settings → Link → D → D × Link
  key_among_with env none old l d = (d, l)
  key_among_with env (some key) old l d =
      save_settings p fs env (record old { key = key; key_set = true }) true l d

  -- radio_crypto_set_key() with such calls.
  unfoldable pub key_among : Env → List ℕ → List (Env × Traffic) → Link → D → D × Link
  unfolding key_among_with
  key_among env text between l d =
      let l' = Bound.run c p between l in
      if not l.initialized || not (length text == key_text_length)
      then (d, l')
      else key_among_with env (p.hex2bin text key_bytes) l.settings l' d

  key_among_with-install_key :
      (env : Env) (o : Option (List ℕ)) (l : Link) (d : D)
      → key_among_with env o l.settings l d ≡ install_key p fs env o l d
  unfolding key_among_with install_key
  key_among_with-install_key env none l d = refl
  key_among_with-install_key env (some key) l d = refl

  -- A change of the settings is one step for everything else that the link does: packets and requests
  -- that come while it is being stored, in any number and whatever they do, see the old settings,
  -- and the change ends as if it had begun after the last of them, for a switch and for a key.
  pub changes_atomic :
      (env : Env) (which : ℕ) (value : Bool) (text : List ℕ) (between : List (Env × Traffic))
      (l : Link) (d : D)
      → let l' = Bound.run c p between l in
        (switch_among env which value between l d ≡ set_switch p fs env which value l' d)
        × (key_among env text between l d ≡ set_key p fs env text l' d)
        × (l'.settings ≡ l.settings)
  unfolding switch_among key_among set_switch set_key install_key
  changes_atomic env which value text between l d =
      let same = run-SameSettings c p between l in
      let l' = Bound.run c p between l in
      let switch_with : Bool → Settings → D × Link = λ i s.
        if not i
        then (d, l')
        else save_settings p fs env (switched p fs which value s) false l' d in
      let key_with : Bool → Settings → D × Link = λ i s.
        if not i || not (length text == key_text_length)
        then (d, l')
        else key_among_with env (p.hex2bin text key_bytes) s l' d in
      (
        ap (λ i. switch_with i l.settings) (sym same.initialized)
            ∙ ap (switch_with l'.initialized) (sym same.settings),
        ap (λ i. key_with i l.settings) (sym same.initialized)
            ∙ ap (key_with l'.initialized) (sym same.settings)
            ∙ ap
                (λ (r : D × Link).
                  if not l'.initialized || not (length text == key_text_length) then (d, l') else r)
                (key_among_with-install_key env (p.hex2bin text key_bytes) l' d),
        same.settings,
      )
