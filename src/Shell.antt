-- ===== src/Shell.antt =====
-- What a shell command prints, for the commands of boton-test/ and radio-uhf/: each line by its format
-- string and its arguments. Formatting them is Zephyr's.
use Prim.Native.String.{String}
use kfsw_modules.Prelude.{ℕ, Bool, List, if◌then◌else◌}
use kfsw_modules.Errno.{Ret}

-- %s of a text or of a literal, %u, and %d of a result.
pub data Argument : Type 0 where
  text : List ℕ → Argument
  word : String → Argument
  unsigned : ℕ → Argument
  code : Ret → Argument

pub record Line : Type 0 where
  pub format : String
  pub arguments : List Argument

abbrev pub line : String → List Argument → Line
line format arguments = record { format = format; arguments = arguments }

abbrev pub flag_word : Bool → String → String → Argument
flag_word b yes_word no_word = Argument.word (if b then yes_word else no_word)
