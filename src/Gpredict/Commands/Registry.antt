-- ===== src/Gpredict/Commands/Registry.antt =====
-- The commands that gpredict/src/gpredict_commands.c offers to the command service, and what a call
-- with the arguments that a command declares does.
use Prim.Native.String.{String}
use kfsw_modules.Prelude.{
  ℕ, zero, suc, ◌≡◌, ◌≢◌, ◌↔◌, refl, ◌∙◌, Option, none, some, List, [], ◌∷◌, length, get_elem?,
  arith,
}
use kfsw_modules.Errno.{Ret, ok}
use kfsw_modules.Gpredict.Config.{Config}
use kfsw_modules.Gpredict.Tracker
use kfsw_modules.Gpredict.Profiles.{Node}
use kfsw_modules.Gpredict.Commands.{
  CommandResult, done, profile_index, command_select, command_enable, command_park, command_clear,
}
use kfsw_modules.Gpredict.Commands.Outcomes.{
  Command, selects, enables, parks, clears, handle, handle-ok_iff,
}

pub data Handler : Type 0 where
  select enable park clear : Handler

-- KFSW_COMMAND_TYPE_U32
pub data ArgType : Type 0 where
  u32 : ArgType

-- KFSW_COMMAND_FLAG_MUTATING
pub data CommandFlag : Type 0 where
  mutating : CommandFlag

-- struct kfsw_command_definition, without the help
pub record CommandDefinition : Type 0 where
  pub id : ℕ
  pub name : String
  pub flag : CommandFlag
  pub arg_count : ℕ
  pub arg_types : List ArgType
  pub handler : Handler

-- gpredict_commands. A command without arguments names no array of types.
abbrev pub commands : List CommandDefinition
commands =
    (record {
      id = 40;
      name = "gpredict_select";
      flag = mutating;
      arg_count = 1;
      arg_types = u32 ∷ [];
      handler = Handler.select;
    })
    ∷ (record {
      id = 41;
      name = "gpredict_enable";
      flag = mutating;
      arg_count = 2;
      arg_types = u32 ∷ u32 ∷ [];
      handler = Handler.enable;
    })
    ∷ (record {
      id = 42;
      name = "gpredict_park";
      flag = mutating;
      arg_count = 0;
      arg_types = [];
      handler = Handler.park;
    })
    ∷ (record {
      id = 43;
      name = "gpredict_clear";
      flag = mutating;
      arg_count = 0;
      arg_types = [];
      handler = Handler.clear;
    })
    ∷ []

-- command_enable() with one argument: it reads the second one unless the first names no slot.
enable_without_flag : ℕ → Option ℕ → Node → Option (Node × CommandResult × Ret)
unfolding command_enable
enable_without_flag value none n = some (command_enable value 0 n)
enable_without_flag value (some index) n = none

-- A call of the handler with the values of `args`: `none` if it reads one that is not there.
unfoldable pub invoke : Config → ℕ → Handler → List ℕ → Node → Option (Node × CommandResult × Ret)
unfolding enable_without_flag
invoke c now Handler.select [] n = none
invoke c now Handler.select (value ∷ _) n = some (command_select value n)
invoke c now Handler.enable [] n = none
invoke c now Handler.enable (value ∷ []) n = enable_without_flag value (profile_index value) n
invoke c now Handler.enable (value ∷ flag ∷ _) n = some (command_enable value flag n)
invoke c now Handler.park _ n = some (command_park c now n)
invoke c now Handler.clear _ n = some (command_clear c now n)

-- The node, with another `last_error` of the tracker.
abbrev pub with_error : Ret → Node → Node
with_error e n = record n {
  tracker = record n.tracker { status = record n.tracker.status { last_error = e } };
}

-- A call that returned, and what it did.
pub record Answered (n : Node) (r : Node × CommandResult × Ret) : Type 0 where
  pub told : (r.2 ≡ ok) ↔ (r.1.status ≡ done)
  pub kept : r.2 ≢ ok → r.0 ≡ with_error r.0.tracker.status.last_error n

handle-kept :
    (c : Config) (k : Command) (n : Node)
    → (handle c k n).2 ≢ ok
    → (handle c k n).0 ≡ with_error (handle c k n).0.tracker.status.last_error n
unfolding handle Tracker.park Tracker.clear
handle-kept c (selects value) n h = ground (arith, h)
handle-kept c (enables value flag) n h = ground (arith, h)
handle-kept c (parks now) n h = ground (arith, h)
handle-kept c (clears now) n h = ground (arith, h)

handle-Answered : (c : Config) (k : Command) (n : Node) → Answered n (handle c k n)
handle-Answered c k n = record { told = handle-ok_iff c k n; kept = handle-kept c k n }

-- The arguments that a handler reads.
abbrev needed : Handler → ℕ
needed Handler.select = 1
needed Handler.enable = 2
needed Handler.park = 0
needed Handler.clear = 0

invoke-Answered :
    (c : Config) (now : ℕ) (h : Handler) (args : List ℕ) (n : Node)
    → length args ≡ needed h
    → (r : Node × CommandResult × Ret) × (invoke c now h args n ≡ some r) × Answered n r
unfolding invoke handle
invoke-Answered c now Handler.select [] n count = absurd (omega arith)
invoke-Answered c now Handler.select (value ∷ _) n count =
    (_, refl, handle-Answered c (selects value) n)
invoke-Answered c now Handler.enable [] n count = absurd (omega arith)
invoke-Answered c now Handler.enable (value ∷ []) n count = absurd (omega arith)
invoke-Answered c now Handler.enable (value ∷ flag ∷ _) n count =
    (_, refl, handle-Answered c (enables value flag) n)
invoke-Answered c now Handler.park _ n count = (_, refl, handle-Answered c (parks now) n)
invoke-Answered c now Handler.clear _ n count = (_, refl, handle-Answered c (clears now) n)

commands-declared :
    (i : ℕ) (d : CommandDefinition)
    → get_elem? commands i ≡ some d
    → (length d.arg_types ≡ d.arg_count) × (d.arg_count ≡ needed d.handler)
commands-declared zero d at = ground (arith, at)
commands-declared (suc zero) d at = ground (arith, at)
commands-declared (suc (suc zero)) d at = ground (arith, at)
commands-declared (suc (suc (suc zero))) d at = ground (arith, at)
commands-declared (suc (suc (suc (suc i)))) d at = absurd (cc)

-- Every command that the module registers, called with as many arguments as it declares, declares a
-- type for each, reads no argument past them, returns 0 exactly if its result says that it was done,
-- and leaves the node as it was, but for the tracker's last error, if it does not return 0.
pub registered-Answered :
    (c : Config) (now i : ℕ) (d : CommandDefinition) (args : List ℕ) (n : Node)
    → get_elem? commands i ≡ some d
    → length args ≡ d.arg_count
    → (length d.arg_types ≡ d.arg_count)
      × (r : Node × CommandResult × Ret) × (invoke c now d.handler args n ≡ some r)
      × Answered n r
registered-Answered c now i d args n at count =
    let (typed, read) = commands-declared i d at in
    let (r, returned, answered) = invoke-Answered c now d.handler args n (count ∙ read) in
    (typed, r, returned, answered)
