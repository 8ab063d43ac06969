-- ===== src/Options.antt =====
-- How the programs on the machines read their command lines: src/run-activity/main.c and
-- src/dbus-service/disnix-client-main.c, with the defaults of src/libmain/defaultoptions.c.
pub mod Codes
pub mod State
pub mod Defaults
pub mod RunActivity
pub mod Client
use Prim.Native.String.{◌++◌ as concat}
use text.Mathlib.Text.{starts_with, find?}
use disnix.Prelude.{
  ◌≡◌, Bool, true, false, not, ◌&&◌, any, is_some, str_eq, Option, some, String, List, [], ◌∷◌,
  ◌++◌, map, lookup, All,
}
use disnix.Platform.{Table}
use disnix.Options.Codes.{HasArg, no_argument, required_argument, OptionCode, option_unknown}
use disnix.Options.State.{ℤ, Settings, initial_settings, Start, run, Handled, go_on, leave}
use disnix.Options.Defaults.{Environment, check_profile_option}
use disnix.Options.RunActivity.{
  run_activity_options, run_activity_short_options, run_activity_option,
}
use disnix.Options.Client.{client_options, client_short_options, client_option}

-- The C library's `getopt_long`, called until it returns -1: the values of the options found, each with
-- `optarg` (of an option without an argument it is not read), and what `argv` holds from `optind` on.
-- It is given the value for '?', the short and the long options, and `argv`.
abbrev pub Getopt : Type 1
Getopt =
    (V : Type 0)
    → V
    → Table (HasArg × V)
    → Table (HasArg × V)
    → List String
    → List (V × String) × List String

abbrev pub letters : List String
letters =
    "a" ∷ "b" ∷ "c" ∷ "d" ∷ "e" ∷ "f" ∷ "g" ∷ "h" ∷ "i" ∷ "j" ∷ "k" ∷ "l" ∷ "m" ∷ "n" ∷ "o" ∷ "p"
    ∷ "q" ∷ "r" ∷ "s" ∷ "t" ∷ "u" ∷ "v" ∷ "w" ∷ "x" ∷ "y" ∷ "z" ∷ "A" ∷ "B" ∷ "C" ∷ "D" ∷ "E" ∷ "F"
    ∷ "G" ∷ "H" ∷ "I" ∷ "J" ∷ "K" ∷ "L" ∷ "M" ∷ "N" ∷ "O" ∷ "P" ∷ "Q" ∷ "R" ∷ "S" ∷ "T" ∷ "U" ∷ "V"
    ∷ "W" ∷ "X" ∷ "Y" ∷ "Z" ∷ []

-- The name of a short option is a letter.
abbrev pub is_short_name : String → Bool
is_short_name name = any (λ letter. str_eq letter name) letters

abbrev pub are_short_names : {E : Type 0} → Table E → Bool
are_short_names [] = true
are_short_names (e ∷ table) = is_short_name e.0 && are_short_names table

-- The name of a long option is not empty and has no '='.
abbrev pub is_long_name : String → Bool
is_long_name name = not (str_eq name "") && not (is_some (find? name "="))

-- What stands on a command line.
pub data Item (V : Type 0) : Type 0 where
  flag : (name : String) → (value : V) → Item V
  short_flag : (name : String) → (value : V) → Item V
  option : (name : String) → (value : V) → (text : String) → Item V
  unlisted : (name : String) → Item V
  operand : (text : String) → Item V

module _ {V : Type 0} where
  abbrev pub words_of : Item V → List String
  words_of (flag name value) = concat "--" name ∷ []
  words_of (short_flag name value) = concat "-" name ∷ []
  words_of (option name value text) = concat "--" name ∷ text ∷ []
  words_of (unlisted name) = concat "--" name ∷ []
  words_of (operand text) = text ∷ []

  abbrev pub render : List (Item V) → List String
  render [] = []
  render (item ∷ rest) = words_of item ++ render rest

  abbrev pub values_of : V → Item V → List (V × String)
  values_of unknown (flag name value) = (value, "") ∷ []
  values_of unknown (short_flag name value) = (value, "") ∷ []
  values_of unknown (option name value text) = (value, text) ∷ []
  values_of unknown (unlisted name) = (unknown, "") ∷ []
  values_of unknown (operand text) = []

  -- The options, in their order.
  abbrev pub found : V → List (Item V) → List (V × String)
  found unknown [] = []
  found unknown (item ∷ rest) = values_of unknown item ++ found unknown rest

  abbrev pub operand_of : Item V → List String
  operand_of (operand text) = text ∷ []
  operand_of other = []

  abbrev pub operands : List (Item V) → List String
  operands [] = []
  operands (item ∷ rest) = operand_of item ++ operands rest

  -- An item suits the tables of short and long options. A name that is not listed is no beginning of
  -- one that is. Of a long option `--name=text` is another form, so a name has no '='.
  abbrev pub Suits : Table (HasArg × V) → Table (HasArg × V) → Item V → Type 0
  Suits short long (flag name value) =
      (lookup name long ≡ some (no_argument, value)) × (is_long_name name ≡ true)
  Suits short long (short_flag name value) =
      (lookup name short ≡ some (no_argument, value)) × (is_short_name name ≡ true)
  Suits short long (option name value text) =
      (lookup name long ≡ some (required_argument, value)) × (is_long_name name ≡ true)
  Suits short long (unlisted name) =
      All (λ e. starts_with e.0 name ≡ false) long × (is_long_name name ≡ true)
  Suits short long (operand text) = starts_with text "-" ≡ false

-- What getopt(3) documents of command lines of such items, POSIXLY_CORRECT not being set: options and
-- operands may be mixed, a long option that takes an argument takes the next word whatever it is, of
-- an option that is not listed the value is '?', and the operands keep their order. It says nothing of
-- other words, such as `--name=text`, beginnings of names, and `--`.
pub record IsGetopt (getopt : Getopt) : Type 1 where
  pub mixed :
      (V : Type 0) (unknown : V) (short long : Table (HasArg × V)) (program : String)
      (items : List (Item V))
      → are_short_names short ≡ true
      → All (Suits short long) items
      → getopt V unknown short long (program ∷ render items) ≡ (found unknown items, operands items)

-- The two programs.
pub data Program : Type 0 where
  run_activity disnix_client : Program

abbrev pub long_options : Program → Table (HasArg × OptionCode)
long_options run_activity = run_activity_options
long_options disnix_client = client_options

abbrev pub short_options : Program → Table (HasArg × OptionCode)
short_options run_activity = run_activity_short_options
short_options disnix_client = client_short_options

abbrev pub handle_option : Program → (String → ℤ) → OptionCode → String → Settings → Handled
handle_option run_activity = run_activity_option
handle_option disnix_client = client_option

-- The `while` loop.
abbrev pub handle_options : Program → (String → ℤ) → List (OptionCode × String) → Settings → Handled
handle_options program atoi [] s = go_on s
handle_options program atoi ((code, text) ∷ rest) s =
    elim (handle_option program atoi code text s) [
      | go_on s' ↦ handle_options program atoi rest s'
      | leave start ↦ leave start
    ]

abbrev pub start_with : Environment → Handled → List String → Start
start_with environment (leave start) derivation = start
start_with environment (go_on s) derivation =
    run s (check_profile_option environment s.profile) derivation

unfoldable pub main : Program → Getopt → (String → ℤ) → Environment → List String → Start
main program getopt atoi environment argv =
    let (options, derivation) =
      getopt OptionCode option_unknown (short_options program) (long_options program) argv in
    start_with environment (handle_options program atoi options initial_settings) derivation
