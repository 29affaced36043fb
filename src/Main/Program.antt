-- ===== src/Main/Program.antt =====
-- cmd/bridge/main.go: `main`, from the arguments to the end of the process.
use erssi_lith_bridge.Base.{
  ℕ, ◌||◌, Bool, true, false, List, Option, none, some, Bytes, Result, ok, err, panic,
  if◌then◌else◌,
}
use erssi_lith_bridge.Erssi.Crypto.{Cipher}
use erssi_lith_bridge.Erssi.Client.{new_client, url_with_password}
use erssi_lith_bridge.Bridge.Lifecycle.{Life, StartError, Closing, start, stop, end_loop}
use erssi_lith_bridge.Bridge.Calls.{new_life}
use erssi_lith_bridge.Main.Flags.{Options, FlagError, help, defaults, parse}

-- The process is over, with a status and whether the bridge still ran, or by a panic of any of its
-- goroutines; or it waits.
pub data Process : Type 0 where
  exited : ℕ → Bool → Process
  panicked waiting : Process

-- What the process runs on: what godotenv.Load makes of the environment, PBKDF2, net.Listen, the
-- dialer and the closing of connections.
pub record Surroundings (E L W : Type 0) : Type 0 where
  pub load_env : (Bytes → Bytes) → Bytes → Bytes
  pub cipher : Cipher
  pub listen : Bytes → Option L
  pub dial : Bytes → Option W
  pub closing : Closing E L W

module _ {E L W : Type 0} (o : Surroundings E L W) where
  -- `b.Stop()` and the end of `main`.
  unfoldable pub after_stop : Bool × Life L W → Process
  after_stop (true, s) = panicked
  after_stop (false, s) = exited 0 s.running

  -- The select: a signal came, or the channel that `Wait` waits for is closed.
  unfoldable pub wait_and_stop : Bool → Life L W → Process
  unfolding after_stop
  wait_and_stop signalled s =
      if signalled || s.client.done then after_stop (stop o.closing s) else waiting

  -- The read loop has ended before the select, or it has not; and `died` is whether a handler, the read
  -- loop or the loop of a client has panicked, which nothing recovers, before `main` is at its end.
  unfoldable pub after_start :
      Bool → Bool → Bool → Result StartError (Unit {0}) × Life L W → Process
  unfolding wait_and_stop
  after_start signalled lost died (err e, s) = exited 1 s.running
  after_start signalled lost died (panic, s) = panicked
  after_start signalled lost true (ok _, s) = panicked
  after_start signalled false false (ok _, s) = wait_and_stop signalled s
  after_start signalled true false (ok _, s) = elim (end_loop s.read_loops s) [
    | none ↦ panicked
    | some s' ↦ wait_and_stop signalled s'
  ]

  unfoldable pub run_bridge : Bool → Bool → Bool → Options → Process
  unfolding after_start
  run_bridge signalled lost died opts =
      let client = new_client o.cipher opts.erssi_url opts.erssi_password in
      after_start signalled lost died (
        start o.closing (o.listen opts.listen_addr) (o.dial (url_with_password client))
          (new_life client))

  -- flag.Parse ends the process itself where it fails.
  unfoldable pub with_options : Bool → Bool → Bool → Result FlagError Options → Process
  unfolding run_bridge
  with_options signalled lost died (ok opts) = run_bridge signalled lost died opts
  with_options signalled lost died (err help) = exited 0 false
  with_options signalled lost died (err e) = exited 2 false
  with_options signalled lost died panic = panicked

  unfoldable pub main : (Bytes → Bytes) → List Bytes → Bool → Bool → Bool → Process
  unfolding with_options
  main env args signalled lost died =
      with_options signalled lost died (parse none args (defaults (o.load_env env)))
