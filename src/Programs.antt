-- ===== src/Programs.antt =====
-- How the programs of examples/src start: their arguments, PortAudio, the profiles and the devices, up
-- to the interface and its threads. All six `main` functions are this one, with different options,
-- defaults and sizes. PortAudio, libquiet and the creation of the interface are parameters.
pub mod Main
pub mod Examples
pub mod Arguments
pub mod Resources
pub mod Discovery
pub mod Exchange
pub mod Listening
mod Tests
use quiet_lwip.Prelude.{
  ℕ, ◌+◌, ltb, ◌==◌, ◌&&◌, List, [], ◌∷◌, ◌++◌, Option, none, some, Bool, true, false, not, length,
  get_or, if◌then◌else◌,
}

-- A string without its zero byte.
abbrev pub Text : Type 0
Text = List ℕ

abbrev pub equal_text : Text → Text → Bool
equal_text [] [] = true
equal_text [] (d ∷ ds) = false
equal_text (c ∷ cs) [] = false
equal_text (c ∷ cs) (d ∷ ds) = let rest = equal_text cs ds in if c == d then rest else false

-- What the arguments set.
pub record Settings : Type 0 where
  pub conf_path : Option Text
  pub encoder_key : Text
  pub decoder_key : Text
  pub positionals : List Text

-- An option with a value, and what the value sets.
pub record Flag : Type 0 where
  pub name : Text
  pub assign : Text → Settings → Settings

-- What tells the programs apart: their options besides `--help`, how many other arguments they take,
-- their defaults, and what they write into the configuration.
pub record Program : Type 0 where
  pub flags : List Flag
  pub wanted : ℕ
  pub defaults : Settings
  pub sample_size : ℕ
  pub mac : List ℕ
  pub ipaddr : ℕ

-- The option of an argument, the first that fits.
abbrev pub flag_of : Text → List Flag → Option Flag
flag_of a [] = none
flag_of a (f ∷ fs) = let rest = flag_of a fs in if equal_text a f.name then some f else rest

-- `argv[i][0] != '-'`; the empty argument has its zero byte there.
abbrev pub is_positional : Text → Bool
is_positional a = not (get_or a 0 0 == b'-')

-- A further argument, where the program takes one more.
abbrev pub add_positional : ℕ → Text → Settings → Settings
add_positional wanted a s =
    if is_positional a && ltb (length s.positionals) wanted
    then record s { positionals = s.positionals ++ (a ∷ []) }
    else s

-- The loop over the arguments; none where an option has no value.
unfoldable pub parse : Program → List Text → Settings → Option Settings
parse p [] s = some s
parse p (a ∷ []) s = elim (flag_of a p.flags) [
  | some f ↦ none
  | none ↦ some (add_positional p.wanted a s)
]
parse p (a ∷ v ∷ rest) s = elim (flag_of a p.flags) [
  | some f ↦ parse p rest (f.assign v s)
  | none ↦ parse p (v ∷ rest) (add_positional p.wanted a s)
]

abbrev pub help_text : Text
help_text = b'-' ∷ b'-' ∷ b'h' ∷ b'e' ∷ b'l' ∷ b'p' ∷ []

-- The loop that looks for `--help`.
abbrev pub wants_help : List Text → Bool
wants_help [] = false
wants_help (a ∷ rest) =
    let later = wants_help rest in if equal_text a help_text then true else later
