-- ===== src/Main/Settings.antt =====
-- The command line, written flag by flag, and the options that it gives.
use erssi_lith_bridge.Base.{
  ◌≡◌, refl, ap, ◌∙◌, Bool, true, false, List, [], ◌∷◌, ◌++◌, none, Bytes, ok, if◌then◌else◌,
}
use erssi_lith_bridge.Base.Text.{codes, str_eq, cut}
use erssi_lith_bridge.Erssi.Types.{is_empty}
use erssi_lith_bridge.Main.Flags.{
  Options, get_env, defaults, TextFlag, erssi, password, listen, set_text, flag_of, parse_bool,
  last, read_argument, sets, waits, set_flag, argument_step, parse,
}

-- A flag with one dash or two; its value is behind an equals sign or the next argument, or it is `-v`
-- without a value.
pub data Setting : Type 0 where
  attached separate : Bool → TextFlag → Bytes → Setting
  switched_on : Bool → Setting
  switched_to : Bool → Bool → Setting

abbrev dashes : Bool → Bytes → Bytes
dashes true name = codes "--" ++ name
dashes false name = codes "-" ++ name

abbrev name_of : TextFlag → Bytes
name_of erssi = codes "erssi"
name_of password = codes "password"
name_of listen = codes "listen"

abbrev bool_text : Bool → Bytes
bool_text true = codes "true"
bool_text false = codes "false"

unfoldable pub arguments_of : Setting → List Bytes
arguments_of (attached two f value) = dashes two (name_of f ++ (b'=' ∷ value)) ∷ []
arguments_of (separate two f value) = dashes two (name_of f) ∷ value ∷ []
arguments_of (switched_on two) = dashes two (codes "v") ∷ []
arguments_of (switched_to two b) = dashes two (codes "v=" ++ bool_text b) ∷ []

unfoldable pub command_line : List Setting → List Bytes
unfolding arguments_of
command_line [] = []
command_line (s ∷ ss) = arguments_of s ++ command_line ss

abbrev same_flag : TextFlag → TextFlag → Bool
same_flag erssi erssi = true
same_flag password password = true
same_flag listen listen = true
same_flag _ _ = false

-- The value that was given last to a flag, or the one before all.
unfoldable pub last_text : TextFlag → List Setting → Bytes → Bytes
last_text f [] v = v
last_text f (attached two g value ∷ ss) v = last_text f ss (if same_flag f g then value else v)
last_text f (separate two g value ∷ ss) v = last_text f ss (if same_flag f g then value else v)
last_text f (switched_on two ∷ ss) v = last_text f ss v
last_text f (switched_to two b ∷ ss) v = last_text f ss v

unfoldable pub last_switch : List Setting → Bool → Bool
last_switch [] v = v
last_switch (attached two g value ∷ ss) v = last_switch ss v
last_switch (separate two g value ∷ ss) v = last_switch ss v
last_switch (switched_on two ∷ ss) v = last_switch ss true
last_switch (switched_to two b ∷ ss) v = last_switch ss b

unfoldable pub chosen : List Setting → Options → Options
unfolding last_text last_switch
chosen ss o = record {
  erssi_url = last_text erssi ss o.erssi_url;
  erssi_password = last_text password ss o.erssi_password;
  listen_addr = last_text listen ss o.listen_addr;
  verbose = last_switch ss o.verbose;
}

-- The arguments begin with none that is read as a flag.
abbrev pub Ends : List Bytes → Type 0
Ends [] = Unit
Ends (a ∷ rest) = read_argument a ≡ last

attached_sets :
    (two : Bool) (f : TextFlag) (value : Bytes) (o : Options)
    → argument_step (read_argument (dashes two (name_of f ++ (b'=' ∷ value)))) o
      ≡ sets (set_text f value o)
unfolding argument_step read_argument cut flag_of str_eq set_flag
attached_sets true erssi value o = refl
attached_sets true password value o = refl
attached_sets true listen value o = refl
attached_sets false erssi value o = refl
attached_sets false password value o = refl
attached_sets false listen value o = refl

separate_waits :
    (two : Bool) (f : TextFlag) (o : Options)
    → argument_step (read_argument (dashes two (name_of f))) o ≡ waits f
unfolding argument_step read_argument cut flag_of str_eq set_flag
separate_waits true erssi o = refl
separate_waits true password o = refl
separate_waits true listen o = refl
separate_waits false erssi o = refl
separate_waits false password o = refl
separate_waits false listen o = refl

on_sets :
    (two : Bool) (o : Options)
    → argument_step (read_argument (dashes two (codes "v"))) o ≡ sets (record o { verbose = true })
unfolding argument_step read_argument cut flag_of str_eq set_flag
on_sets true o = refl
on_sets false o = refl

to_sets :
    (two b : Bool) (o : Options)
    → argument_step (read_argument (dashes two (codes "v=" ++ bool_text b))) o
      ≡ sets (record o { verbose = b })
unfolding argument_step read_argument cut flag_of str_eq set_flag parse_bool
to_sets true true o = refl
to_sets true false o = refl
to_sets false true o = refl
to_sets false false o = refl

attached_chosen :
    (two : Bool) (f : TextFlag) (value : Bytes) (ss : List Setting) (o : Options)
    → chosen ss (set_text f value o) ≡ chosen (attached two f value ∷ ss) o
unfolding chosen last_text last_switch set_text
attached_chosen two erssi value ss o = refl
attached_chosen two password value ss o = refl
attached_chosen two listen value ss o = refl

separate_chosen :
    (two : Bool) (f : TextFlag) (value : Bytes) (ss : List Setting) (o : Options)
    → chosen (attached two f value ∷ ss) o ≡ chosen (separate two f value ∷ ss) o
unfolding chosen last_text last_switch
separate_chosen two f value ss o = refl

parse-command_line :
    (ss : List Setting) (rest : List Bytes) (o : Options)
    → Ends rest
    → parse none (command_line ss ++ rest) o ≡ ok (chosen ss o)
unfolding command_line chosen parse
parse-command_line [] [] o h = refl
parse-command_line [] (a ∷ rest) o h = rw (parse, h) refl
parse-command_line (attached two f value ∷ ss) rest o h =
    rw (parse, attached_sets two f value o)
      (parse-command_line ss rest (set_text f value o) h ∙ ap ok (attached_chosen two f value ss o))
parse-command_line (separate two f value ∷ ss) rest o h =
    rw (parse, separate_waits two f o)
      (parse-command_line ss rest (set_text f value o) h
        ∙ ap ok (attached_chosen two f value ss o ∙ separate_chosen two f value ss o))
parse-command_line (switched_on two ∷ ss) rest o h =
    rw (parse, on_sets two o) (parse-command_line ss rest (record o { verbose = true }) h)
parse-command_line (switched_to two b ∷ ss) rest o h =
    rw (parse, to_sets two b o) (parse-command_line ss rest (record o { verbose = b }) h)

-- The value of a variable of the environment that is not empty, or another.
abbrev pub or_else : Bytes → Bytes → Bytes
or_else value fallback = if is_empty value then fallback else value

verbose_default :
    (value : Bytes)
    → str_eq (or_else value (codes "false")) (codes "true") ≡ str_eq value (codes "true")
unfolding str_eq
verbose_default [] = refl
verbose_default (c ∷ s) = refl

empty_default : (value : Bytes) → or_else value [] ≡ value
empty_default [] = refl
empty_default (c ∷ s) = refl

defaults_lem :
    (env : Bytes → Bytes)
    → defaults env ≡ record {
      erssi_url = or_else (env (codes "ERSSI_URL")) (codes "ws://localhost:9001");
      erssi_password = env (codes "ERSSI_PASSWORD");
      listen_addr = or_else (env (codes "LISTEN_ADDR")) (codes ":9000");
      verbose = str_eq (env (codes "VERBOSE")) (codes "true");
    }
unfolding defaults get_env
defaults_lem env i = record (defaults env) {
  erssi_password = empty_default (env (codes "ERSSI_PASSWORD")) i;
  verbose = verbose_default (env (codes "VERBOSE")) i;
}

-- Each option has the value that the command line gives it last; where it gives none, that of its
-- variable in the environment; and where that is empty or not set, the program's own. The flags may
-- have one dash or two and their values may be attached or follow; what stands behind the first
-- argument that is no flag is not read.
pub parse-chosen :
    (env : Bytes → Bytes) (ss : List Setting) (rest : List Bytes)
    → Ends rest
    → parse none (command_line ss ++ rest) (defaults env)
      ≡ ok (record {
        erssi_url =
            last_text erssi ss (or_else (env (codes "ERSSI_URL")) (codes "ws://localhost:9001"));
        erssi_password = last_text password ss (env (codes "ERSSI_PASSWORD"));
        listen_addr = last_text listen ss (or_else (env (codes "LISTEN_ADDR")) (codes ":9000"));
        verbose = last_switch ss (str_eq (env (codes "VERBOSE")) (codes "true"));
      })
unfolding chosen
parse-chosen env ss rest h =
    parse-command_line ss rest (defaults env) h ∙ ap (λ o. ok (chosen ss o)) (defaults_lem env)
