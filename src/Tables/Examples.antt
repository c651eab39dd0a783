-- ===== src/Tables/Examples.antt =====
-- The tables at a concrete pair of entries.
use kfsw_modules.Prelude.{refl, true, [], ◌∷◌, arith}
use kfsw_modules.Params.{
  Definition, u32, u8, local_only, configuration, read_only, validate, changed, sample,
}
use kfsw_modules.Params.Layout.{AreApart}
use kfsw_modules.Tables.{entries_apart}

abbrev switch : Definition
switch = record {
  offset = 0x98;
  type = u8;
  flags = configuration ∷ local_only ∷ [];
  name = "uhf_encrypt_enable";
  callbacks = validate ∷ changed ∷ sample ∷ [];
}

abbrev replays : Definition
replays = record {
  offset = 0xa8;
  type = u32;
  flags = read_only ∷ [];
  name = "uhf_replays";
  callbacks = sample ∷ [];
}

entries_apart_example : AreApart switch replays
entries_apart_example =
    entries_apart true 0 7 15 _ switch replays refl refl refl (λ e. ground arith)
