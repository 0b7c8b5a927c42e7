-- ===== src/Programs/Arguments.antt =====
-- What the arguments of the programs of examples/src mean.
use quiet_lwip.Prelude.{◌≡◌, refl, ◌∙◌, List, [], ◌∷◌, ◌++◌, none, some, arith}
use quiet_lwip.Programs.{Text, Settings, Flag, Program, flag_of, add_positional, parse}

-- An option with its value, or another argument.
pub data Item (p : Program) : Type 0 where
  set_flag : (f : Flag) → Text → flag_of f.name p.flags ≡ some f → Item p
  argument : (a : Text) → flag_of a p.flags ≡ none → Item p

-- How the items are written.
abbrev pub written : {p : Program} → List (Item p) → List Text
written [] = []
written (set_flag f v known ∷ rest) = f.name ∷ v ∷ written rest
written (argument a unknown ∷ rest) = a ∷ written rest

-- What they set, from the first to the last.
abbrev pub meaning : {p : Program} → List (Item p) → Settings → Settings
meaning [] s = s
meaning (set_flag f v known ∷ rest) s = meaning rest (f.assign v s)
meaning {p} (argument a unknown ∷ rest) s = meaning rest (add_positional p.wanted a s)

parse-argument :
    (p : Program) (a : Text) (rest : List Text) (s : Settings)
    → flag_of a p.flags ≡ none
    → parse p (a ∷ rest) s ≡ parse p rest (add_positional p.wanted a s)
unfolding parse
parse-argument p a [] s e = ground (arith, e)
parse-argument p a (b ∷ rest) s e = ground (arith, e)

parse-option :
    (p : Program) (f : Flag) (v : Text) (rest : List Text) (s : Settings)
    → flag_of f.name p.flags ≡ some f
    → parse p (f.name ∷ v ∷ rest) s ≡ parse p rest (f.assign v s)
unfolding parse
parse-option p f v rest s e = rw (e, parse) refl

parse-alone :
    (p : Program) (f : Flag) (s : Settings)
    → flag_of f.name p.flags ≡ some f
    → parse p (f.name ∷ []) s ≡ none
unfolding parse
parse-alone p f s e = ground (arith, e)

parse-written :
    (p : Program) (items : List (Item p)) (tail : List Text) (s : Settings)
    → parse p (written items ++ tail) s ≡ parse p tail (meaning items s)
parse-written p [] tail s = refl
parse-written p (set_flag f v known ∷ rest) tail s =
    parse-option p f v (written rest ++ tail) s known ∙ parse-written p rest tail (f.assign v s)
parse-written p (argument a unknown ∷ rest) tail s =
    parse-argument p a (written rest ++ tail) s unknown
    ∙ parse-written p rest tail (add_positional p.wanted a s)

-- The arguments are read from left to right, each option with the argument behind it, whatever that is;
-- an option at the end, with no value, is refused, whatever comes before it.
pub parse_lem :
    (p : Program) (items : List (Item p)) (s : Settings)
    → (parse p (written items ++ []) s ≡ some (meaning items s))
      × ((f : Flag)
          → flag_of f.name p.flags ≡ some f
          → parse p (written items ++ (f.name ∷ [])) s ≡ none)
unfolding parse
parse_lem p items s = (
  parse-written p items [] s,
  λ f known. parse-written p items (f.name ∷ []) s ∙ parse-alone p f (meaning items s) known,
)
