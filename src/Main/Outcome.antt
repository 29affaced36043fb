-- ===== src/Main/Outcome.antt =====
-- cmd/bridge/main.go: how the process ends.
use erssi_lith_bridge.Base.{
  ◌≡◌, refl, ap, ◌∙◌, ◌||◌, Bool, true, false, List, ◌++◌, Option, none, some, Bytes, Bool-cases,
  inl, inr, if◌then◌else◌,
}
use erssi_lith_bridge.Base.Text.{codes}
use erssi_lith_bridge.Erssi.Client.{Client, new_client, url_with_password, connect, read_loop_ends}
use erssi_lith_bridge.Weechat.Listening.{start_server, close_server}
use erssi_lith_bridge.Bridge.Lifecycle.{
  Life, start, after_listen, after_connect, after_failure, stop, after_close, end_loop,
}
use erssi_lith_bridge.Bridge.Calls.{new_life, closed-cases}
use erssi_lith_bridge.Main.Flags.{erssi, password, listen}
use erssi_lith_bridge.Main.Settings.{Setting, command_line, Ends, last_text, or_else, parse-chosen}
use erssi_lith_bridge.Main.Program.{
  Process, exited, panicked, waiting, Surroundings, after_stop, wait_and_stop, after_start,
  run_bridge, with_options, main,
}

-- With the port and the connection, or without one of them; the flags are whether the process may end
-- and whether a goroutine of the bridge has panicked.
abbrev pub ends_with : {L W : Type 0} → Option L → Option W → Bool → Bool → Process
ends_with none w over died = exited 1 false
ends_with (some l) none over died = exited 1 false
ends_with (some l) (some w) over true = panicked
ends_with (some l) (some w) over false = if over then exited 0 false else waiting

module _ {E L W : Type 0} (o : Surroundings E L W) where
  -- Stopping a bridge that was started once.
  stopped_once :
      (s : Life L W)
      → s.running ≡ true
      → s.server.done ≡ false
      → after_stop o (stop o.closing s) ≡ exited 0 false
  unfolding after_stop stop after_close close_server
  stopped_once s on usable = elim (closed-cases o.closing.close_listener s.server.listener) [
    | inl good ↦ rw (stop, on, close_server, usable, good) refl
    | inr (e, bad) ↦ rw (stop, on, close_server, usable, bad) refl
  ]

  select_lem :
      (signalled : Bool) (s : Life L W)
      → s.running ≡ true
      → s.server.done ≡ false
      → wait_and_stop o signalled s
        ≡ (if signalled || s.client.done then exited 0 false else waiting)
  unfolding wait_and_stop
  select_lem signalled s on usable = elim (Bool-cases (signalled || s.client.done)) [
    | inl over ↦ rw (wait_and_stop, over) (stopped_once s on usable)
    | inr waits ↦ rw (wait_and_stop, waits) refl
  ]

  process_lem :
      (signalled lost died : Bool) (c : Client W) (listened : Option L) (dialed : Option W)
      → c.done ≡ false
      → after_start o signalled lost died (start o.closing listened dialed (new_life c))
        ≡ ends_with listened dialed (signalled || lost) died
  unfolding after_start start after_listen start_server after_connect connect after_failure
      close_server end_loop read_loop_ends
  process_lem signalled lost died c none dialed undone = refl
  process_lem signalled lost died c (some l) none undone =
      elim (closed-cases o.closing.close_listener (some l)) [
        | inl good ↦ rw good refl
        | inr (e, bad) ↦ rw bad refl
      ]
  process_lem signalled lost true c (some l) (some w) undone = refl
  process_lem signalled false false c (some l) (some w) undone =
      select_lem signalled _ refl refl ∙ rw undone refl
  process_lem signalled true false c (some l) (some w) undone =
      rw undone (select_lem signalled _ refl refl)

  -- Where the command line gives settings in any of the accepted forms and then ends or has other
  -- words: the process ends with status 1 and no bridge that runs where the port is taken or erssi is
  -- not there. Else a panic of a goroutine of the bridge, and nothing that `main` itself does, ends it by a
  -- panic; without one it ends with status 0 after a signal or the end of the connection, the bridge
  -- stopped, and waits as long as there is neither. The port and the address of erssi are those of the
  -- command line; what it leaves out comes from the environment, and else from the program.
  pub main-ends_with :
      (env : Bytes → Bytes) (ss : List Setting) (rest : List Bytes) (signalled lost died : Bool)
      → Ends rest
      → let vars = o.load_env env in
        let url =
          last_text erssi ss (or_else (vars (codes "ERSSI_URL")) (codes "ws://localhost:9001")) in
        let key = last_text password ss (vars (codes "ERSSI_PASSWORD")) in
        main o env (command_line ss ++ rest) signalled lost died
        ≡ ends_with
            (o.listen (last_text listen ss (or_else (vars (codes "LISTEN_ADDR")) (codes ":9000"))))
            (o.dial (url_with_password (new_client {W = W} o.cipher url key)))
            (signalled || lost)
            died
  unfolding main with_options run_bridge new_client
  main-ends_with env ss rest signalled lost died h =
      ap (with_options o signalled lost died) (parse-chosen (o.load_env env) ss rest h)
      ∙ process_lem signalled lost died _ _ _ refl
