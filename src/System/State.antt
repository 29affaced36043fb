-- ===== src/System/State.antt =====
-- The whole program while it runs: the loops of internal/weechat/server.go and internal/erssi/client.go,
-- and the handlers of internal/bridge/bridge.go, each in a goroutine of its own.
use erssi_lith_bridge.Base.{
  ℕ, Bool, true, false, List, [], ◌∷◌, ◌++◌, map, Option, none, some, Bytes, Result, ok, err, panic,
  get_elem?,
}
use erssi_lith_bridge.Proto.Types.{Message}
use erssi_lith_bridge.Erssi.Types.{WebMessage}
use erssi_lith_bridge.Translator.State.{Host}
use erssi_lith_bridge.Bridge.State.{Bridge, Effect, broadcast, reply, to_erssi, crash, new_bridge}
use erssi_lith_bridge.Bridge.Events.{Event, from_client, handle, rest_of}
use erssi_lith_bridge.Weechat.Command.{Command}
use erssi_lith_bridge.Weechat.Session.{Handled, CommandError, send_message}
use erssi_lith_bridge.Weechat.Server.{Peer, modify, after_line, broadcast_message, reply_to}

-- `tasks` are the handlers whose goroutines have not run yet and what is left of those that have, each
-- with the client whose command it handles; `sends` are what handlers have still to send; `sent` is what was sent to erssi.
pub record System (W : Type 0) : Type 0 where
  pub peers : List (Peer W)
  pub bridge : Bridge
  pub tasks : List (Option ℕ × Event)
  pub sends : List (Option ℕ × Effect)
  pub sent : List WebMessage
  pub running : Bool

abbrev pub new_system : {W : Type 0} → System W
new_system = record {
  peers = [];
  bridge = new_bridge;
  tasks = [];
  sends = [];
  sent = [];
  running = true;
}

-- `go s.onCommand(client, msgID, cmd, args)`, for client k.
abbrev pub task_of : ℕ → Command → Option ℕ × Event
task_of k c = (some k, from_client c.id c.name c.args)

-- A panic ends the process.
abbrev pub survives : {E : Type 0} → Result (CommandError E) (Unit {0}) → Bool → Bool
survives (ok _) running = running
survives (err _) running = running
survives panic running = false

abbrev pub unless : Bool → Bool → Bool
unless true running = false
unless false running = running

module _ {E W : Type 0} (close : W → W) where
  -- The loop of client k after it has handled a line.
  unfoldable pub take_line : ℕ → Handled E W → System W → System W
  take_line k handled s = record s {
    peers = modify (after_line close handled) k s.peers;
    tasks = s.tasks ++ map (task_of k) handled.2;
    running = survives handled.0 s.running;
  }

-- A handler runs up to where it lets go of its lock; its sends follow, and what is left of it waits.
unfoldable pub run_task :
    {W : Type 0} → Host → Option ℕ → Event → List (Option ℕ × Event) → System W → System W
run_task h owner e others s =
    let (b, out) = handle h e s.bridge in
    record s {
      bridge = b;
      tasks = others ++ map (λ (e : Event). (owner, e)) (rest_of e s.bridge);
      sends = s.sends ++ map (λ (f : Effect). (owner, f)) out;
    }

module _ {E W : Type 0} (write : Bytes → W → Option E × W) where
  unfoldable pub answered : Message → Option (Peer W) → Bool → Bool
  answered msg none running = running
  answered msg (some p) running = elim (send_message write msg p.client).0 [
    | ok _ ↦ running
    | err _ ↦ running
    | panic ↦ false
  ]

  -- A send of a handler. A failure to send to erssi is logged: `sent` has what was handed over.
  unfoldable pub deliver : Option ℕ → Effect → System W → System W
  unfolding answered
  deliver owner (broadcast msg) s =
      let (ps, panicked) = broadcast_message write msg s.peers in
      record s { peers = ps; running = unless panicked s.running }
  deliver (some k) (reply msg) s = record s {
    peers = modify (reply_to write msg) k s.peers;
    running = answered msg (get_elem? s.peers k) s.running;
  }
  deliver none (reply msg) s = s
  deliver owner (to_erssi msg) s = record s { sent = s.sent ++ (msg ∷ []) }
  deliver owner crash s = record s { running = false }
