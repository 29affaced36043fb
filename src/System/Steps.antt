-- ===== src/System/Steps.antt =====
-- The steps of the program, in any order that its goroutines can take.
use erssi_lith_bridge.Base.{
  ℕ, ◌≡◌, true, false, ok, panic, List, [], ◌∷◌, ◌++◌, Option, none, some, Bytes, get_elem?,
}
use erssi_lith_bridge.Erssi.Types.{WebMessage, Decoded}
use erssi_lith_bridge.Erssi.Crypto.{Cipher}
use erssi_lith_bridge.Erssi.Client.{Frame, read_frame}
use erssi_lith_bridge.Translator.State.{Host}
use erssi_lith_bridge.Bridge.State.{Effect}
use erssi_lith_bridge.Bridge.Events.{Event, from_erssi}
use erssi_lith_bridge.Weechat.Session.{handle_command}
use erssi_lith_bridge.Weechat.Server.{Peer, modify, accept, disconnect}
use erssi_lith_bridge.System.State.{System, new_system, take_line, run_task, deliver}

-- What the program runs on. `fresh` is a connection on which nothing was sent yet, and `key` the
-- encryption key of the client for erssi.
pub record World (E W : Type 0) : Type 0 where
  pub write : Bytes → W → Option E × W
  pub close : W → W
  pub fresh : W
  pub host : Host
  pub cipher : Cipher
  pub decode : Bytes → Decoded
  pub key : Option Bytes

-- A task and a send that wait may each be the next, whatever waits before it.
pub data Step {E W : Type 0} (v : World E W) (s : System W) : System W → Type 0 where
  accepts : Step v s (record s { peers = accept v.fresh s.peers })
  reads_line :
      (k : ℕ) (p : Peer W) (line : Bytes) (random : Option Bytes)
      → get_elem? s.peers k ≡ some p
      → p.registered ≡ true
      → Step v s (take_line v.close k (handle_command v.write random line p.client) s)
  -- the scanner of client k finds no more lines
  ends :
      (k : ℕ) (p : Peer W)
      → get_elem? s.peers k ≡ some p
      → p.registered ≡ true
      → Step v s (record s { peers = modify (disconnect v.close) k s.peers })
  receives :
      (f : Frame) (m : WebMessage)
      → read_frame v.cipher v.decode v.key f ≡ ok m
      → Step v s (record s { tasks = s.tasks ++ ((none, from_erssi m) ∷ []) })
  -- the read loop panics
  breaks :
      (f : Frame)
      → read_frame v.cipher v.decode v.key f ≡ panic
      → Step v s (record s { running = false })
  runs :
      (before after : List (Option ℕ × Event)) (owner : Option ℕ) (e : Event)
      → s.tasks ≡ before ++ ((owner, e) ∷ after)
      → Step v s (run_task v.host owner e (before ++ after) s)
  sends :
      (before after : List (Option ℕ × Effect)) (owner : Option ℕ) (f : Effect)
      → s.sends ≡ before ++ ((owner, f) ∷ after)
      → Step v s (deliver v.write owner f (record s { sends = before ++ after }))

pub data Reach {E W : Type 0} (v : World E W) : System W → Type 0 where
  start : Reach v new_system
  next : {s t : System W} → Reach v s → s.running ≡ true → Step v s t → Reach v t
