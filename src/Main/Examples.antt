-- ===== src/Main/Examples.antt =====
-- cmd/bridge/main.go: the theorems on `main` at a concrete command line, and tests of its flags.
use erssi_lith_bridge.Base.{
  ℕ, ◌≡◌, refl, true, false, List, [], ◌∷◌, ◌++◌, none, some, Bytes, ok, err, if◌then◌else◌,
}
use erssi_lith_bridge.Base.Text.{codes, str_eq, cut}
use erssi_lith_bridge.Main.Flags.{
  bad_syntax, needs_argument, not_defined, help, erssi, listen, defaults, parse, argument_step,
  read_argument, set_flag, flag_of,
}
use erssi_lith_bridge.Main.Settings.{
  Setting, attached, separate, switched_on, command_line, last_text, last_switch, parse-chosen,
}
use erssi_lith_bridge.Main.Program.{exited, Surroundings, main}
use erssi_lith_bridge.Main.Outcome.{main-ends_with}

-- Only the password is set in the environment.
abbrev an_env : Bytes → Bytes
an_env key = if str_eq key (codes "ERSSI_PASSWORD") then codes "pw" else []

abbrev some_flags : List Setting
some_flags =
    attached false listen (codes ":1234")
    ∷ switched_on true
    ∷ separate true erssi (codes "ws://h?x=1")
    ∷ attached true listen (codes ":5678")
    ∷ []

flags_read :
    command_line some_flags
    ≡ codes "-listen=:1234"
      ∷ codes "--v"
      ∷ codes "--erssi"
      ∷ codes "ws://h?x=1"
      ∷ codes "--listen=:5678"
      ∷ []
unfolding command_line
flags_read = refl

parse-chosen_example :
    parse none (command_line some_flags ++ (codes "file" ∷ codes "-v=false" ∷ [])) (defaults an_env)
    ≡ ok (record {
      erssi_url = codes "ws://h?x=1";
      erssi_password = codes "pw";
      listen_addr = codes ":5678";
      verbose = true;
    })
unfolding last_text last_switch read_argument str_eq
parse-chosen_example = parse-chosen an_env some_flags (codes "file" ∷ codes "-v=false" ∷ []) refl

unknown_flag : parse none (codes "-x" ∷ []) (defaults an_env) ≡ err not_defined
unfolding parse argument_step read_argument flag_of cut str_eq
unknown_flag = refl

asked_for_help : parse none (codes "-v" ∷ codes "--help" ∷ []) (defaults an_env) ≡ err help
unfolding parse argument_step read_argument flag_of cut str_eq set_flag
asked_for_help = refl

no_value : parse none (codes "-erssi" ∷ []) (defaults an_env) ≡ err needs_argument
unfolding parse argument_step read_argument flag_of cut str_eq set_flag
no_value = refl

three_dashes : parse none (codes "---v" ∷ []) (defaults an_env) ≡ err bad_syntax
unfolding parse argument_step read_argument flag_of cut str_eq set_flag
three_dashes = refl

-- The port is free and erssi answers.
abbrev a_place : Surroundings (Unit {0}) ℕ Bytes
a_place = record {
  load_env = λ env. env;
  cipher = record {
    pbkdf2_key = λ password salt iterations size. password ++ salt;
    new_cipher = λ key. true;
    new_gcm = λ key. true;
    gcm_open = λ key nonce text. some text;
  };
  listen = λ addr. some 1;
  dial = λ url. some url;
  closing = record {
    write_close = λ w. (none, w);
    close_conn = λ w. none;
    close_listener = λ l. some tt;
  };
}

main-ends_with_example :
    main a_place an_env (command_line some_flags ++ []) true false false ≡ exited 0 false
main-ends_with_example = main-ends_with a_place an_env some_flags [] true false false tt
