-- ===== src/Main/Flags.antt =====
-- cmd/bridge/main.go: the options of the program, from the environment and the command line. The
-- command line is read as flag.Parse of Go's flag package reads it.
use erssi_lith_bridge.Base.{
  Bool, true, false, ◌||◌, List, [], ◌∷◌, Option, none, some, Bytes, Result, ok, err, ◌==◌,
  if◌then◌else◌,
}
use erssi_lith_bridge.Base.Text.{codes, str_eq, cut}
use erssi_lith_bridge.Erssi.Types.{is_empty}

-- The variables that the flags set.
pub record Options : Type 0 where
  pub erssi_url : Bytes
  pub erssi_password : Bytes
  pub listen_addr : Bytes
  pub verbose : Bool

-- `env` is os.Getenv.
unfoldable pub get_env : (Bytes → Bytes) → Bytes → Bytes → Bytes
get_env env key fallback = let value = env key in if is_empty value then fallback else value

unfoldable pub defaults : (Bytes → Bytes) → Options
unfolding get_env
defaults env = record {
  erssi_url = get_env env (codes "ERSSI_URL") (codes "ws://localhost:9001");
  erssi_password = get_env env (codes "ERSSI_PASSWORD") [];
  listen_addr = get_env env (codes "LISTEN_ADDR") (codes ":9000");
  verbose = str_eq (get_env env (codes "VERBOSE") (codes "false")) (codes "true");
}

-- The flags that take a text. `-v` is the only other one.
pub data TextFlag : Type 0 where
  erssi password listen : TextFlag

unfoldable pub set_text : TextFlag → Bytes → Options → Options
set_text erssi value o = record o { erssi_url = value }
set_text password value o = record o { erssi_password = value }
set_text listen value o = record o { listen_addr = value }

pub data FlagError : Type 0 where
  bad_syntax not_defined needs_argument invalid_boolean help : FlagError

-- The flags by their names.
pub data Flag : Type 0 where
  text : TextFlag → Flag
  switch : Flag

unfoldable pub flag_of : Bytes → Option Flag
flag_of name =
    if str_eq name (codes "erssi")
    then some (text erssi)
    else if str_eq name (codes "password")
    then some (text password)
    else if str_eq name (codes "listen")
    then some (text listen)
    else if str_eq name (codes "v")
    then some switch
    else none

-- strconv.ParseBool.
unfoldable pub parse_bool : Bytes → Option Bool
parse_bool s =
    if str_eq s (codes "1")
      || str_eq s (codes "t")
      || str_eq s (codes "T")
      || str_eq s (codes "true")
      || str_eq s (codes "TRUE")
      || str_eq s (codes "True")
    then some true
    else if str_eq s (codes "0")
        || str_eq s (codes "f")
        || str_eq s (codes "F")
        || str_eq s (codes "false")
        || str_eq s (codes "FALSE")
        || str_eq s (codes "False")
    then some false
    else none

-- What an argument asks for: the flags end there, or a flag with a value or without one.
pub data Argument : Type 0 where
  last malformed : Argument
  flag : Bytes → Option Bytes → Argument

-- The text behind the dashes; it is not empty.
abbrev named : Bytes → Argument
named [] = malformed
named (c ∷ s) = if c == b'-' || c == b'=' then malformed else elim (cut b'=' (c ∷ s)) [
  | none ↦ flag (c ∷ s) none
  | some (name, value) ↦ flag name (some value)
]

abbrev after_dash : Bytes → Argument
after_dash [] = last
after_dash (d ∷ s) = if d == b'-' then (if is_empty s then last else named s) else named (d ∷ s)

unfoldable pub read_argument : Bytes → Argument
read_argument [] = last
read_argument (c ∷ s) = if c == b'-' then after_dash s else last

-- What an argument does: it ends the flags, fails, sets a flag, or names one that waits for the next
-- argument.
pub data ArgumentStep : Type 0 where
  ends : ArgumentStep
  fails : FlagError → ArgumentStep
  sets : Options → ArgumentStep
  waits : TextFlag → ArgumentStep

unfoldable pub set_flag : Flag → Option Bytes → Options → ArgumentStep
unfolding set_text
set_flag (text f) none o = waits f
set_flag (text f) (some value) o = sets (set_text f value o)
set_flag switch none o = sets (record o { verbose = true })
set_flag switch (some value) o = elim (parse_bool value) [
  | none ↦ fails invalid_boolean
  | some b ↦ sets (record o { verbose = b })
]

abbrev unknown : Bytes → FlagError
unknown name = if str_eq name (codes "help") || str_eq name (codes "h") then help else not_defined

unfoldable pub argument_step : Argument → Options → ArgumentStep
unfolding set_flag flag_of
argument_step last o = ends
argument_step malformed o = fails bad_syntax
argument_step (flag name value) o = elim (flag_of name) [
  | none ↦ fails (unknown name)
  | some f ↦ set_flag f value o
]

-- flag.Parse. `waiting` is the flag that takes the next argument, if there is one.
unfoldable pub parse : Option TextFlag → List Bytes → Options → Result FlagError Options
unfolding argument_step read_argument set_text
parse none [] o = ok o
parse (some f) [] o = err needs_argument
parse (some f) (a ∷ rest) o = parse none rest (set_text f a o)
parse none (a ∷ rest) o = elim (argument_step (read_argument a) o) [
  | ends ↦ ok o
  | fails e ↦ err e
  | sets o' ↦ parse none rest o'
  | waits f ↦ parse (some f) rest o
]
