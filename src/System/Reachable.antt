-- ===== src/System/Reachable.antt =====
-- What holds of the program in every state that it can reach.
use erssi_lith_bridge.Base.{
  ℕ, ◌≡◌, refl, ◌∙◌, false, List, ◌++◌, Option, some, get_elem?, All-append, All-pick, All-get,
}
use mathlib.Core.Path.{subst}
use erssi_lith_bridge.Bridge.State.{Effect}
use erssi_lith_bridge.Bridge.Events.{Event, handle, rest_of}
use erssi_lith_bridge.Weechat.Command.{parse_line}
use erssi_lith_bridge.Weechat.Session.{handle_command}
use erssi_lith_bridge.Weechat.Server.{Peer, modify, accept, disconnect}
use erssi_lith_bridge.Weechat.Peers.{All-modify, Grows-accept, Grows-modify}
use erssi_lith_bridge.System.State.{System, run_task}
use erssi_lith_bridge.System.Steps.{
  World, Step, accepts, reads_line, ends, receives, breaks, runs, sends, Reach, start, next,
}
use erssi_lith_bridge.System.Privacy.{
  OnlyHandshakes, IsPrivate, accepted-IsPrivate, disconnect-IsPrivate,
}
use erssi_lith_bridge.System.Isolation.{
  IsOwned, AllOwned, IsIsolated, owned, regrown, deliver-IsIsolated, take_line-IsIsolated,
}

disconnect-authenticated :
    {W : Type 0} (close : W → W) (p : Peer W)
    → (disconnect close p).client.authenticated ≡ p.client.authenticated
unfolding disconnect
disconnect-authenticated close p = refl

module _ {E W : Type 0} (v : World E W) where
  run_task-IsIsolated :
      (o : Option ℕ) (e : Event) (others : List (Option ℕ × Event)) (s : System W)
      → IsOwned s.peers o
      → AllOwned s.peers others
      → IsIsolated v s
      → IsIsolated v (run_task v.host o e others s)
  unfolding run_task
  run_task-IsIsolated o e others s mine rest h = record {
    peers = h.peers;
    tasks =
        All-append (λ (t : Option ℕ × Event). IsOwned s.peers t.0) others _ rest
          (owned s.peers o (rest_of e s.bridge) mine);
    sends =
        All-append (λ (t : Option ℕ × Effect). IsOwned s.peers t.0) s.sends _ h.sends
          (owned s.peers o (handle v.host e s.bridge).1 mine);
  }

  Step-IsIsolated : (s t : System W) → Step v s t → IsIsolated v s → IsIsolated v t
  unfolding handle_command
  Step-IsIsolated s t accepts h =
      regrown v s (accept v.fresh s.peers) s.running h (Grows-accept v.fresh s.peers)
        (accepted-IsPrivate v.write v.close v.fresh s.peers h.peers)
  Step-IsIsolated s t (reads_line k p line random found there) h =
      take_line-IsIsolated v k p random (parse_line line) s found h
  Step-IsIsolated s t (ends k p found there) h =
      regrown v s (modify (disconnect v.close) k s.peers) s.running h
        (Grows-modify (disconnect v.close) k s.peers
          (λ q e on. disconnect-authenticated v.close q ∙ on))
        (All-modify (IsPrivate v.write v.close v.fresh) (disconnect v.close) k s.peers
          (λ q e.
            disconnect-IsPrivate v.write v.close v.fresh q
              (All-get (IsPrivate v.write v.close v.fresh) s.peers k q h.peers e))
          h.peers)
  Step-IsIsolated s t (receives f m read) h = record {
    peers = h.peers;
    tasks = All-append (λ (o : Option ℕ × Event). IsOwned s.peers o.0) s.tasks _ h.tasks (tt, tt);
    sends = h.sends;
  }
  Step-IsIsolated s t (breaks f bad) h = regrown v s s.peers false h (λ k on. on) h.peers
  Step-IsIsolated s t (runs before after o e waiting) h =
      let (mine, rest) =
        All-pick (λ (u : Option ℕ × Event). IsOwned s.peers u.0) before after (o, e)
          (subst (AllOwned s.peers) waiting h.tasks) in
      run_task-IsIsolated o e (before ++ after) s mine rest h
  Step-IsIsolated s t (sends before after o f waiting) h =
      let (mine, rest) =
        All-pick (λ (u : Option ℕ × Effect). IsOwned s.peers u.0) before after (o, f)
          (subst (AllOwned s.peers) waiting h.sends) in
      deliver-IsIsolated v o f (record s { sends = before ++ after }) mine
        (record { peers = h.peers; tasks = h.tasks; sends = rest })

  Reach-IsIsolated : (s : System W) → Reach v s → IsIsolated v s
  Reach-IsIsolated s start = record { peers = tt; tasks = tt; sends = tt }
  Reach-IsIsolated s (next {s = r} reached running step) =
      Step-IsIsolated r s step (Reach-IsIsolated r reached)

  -- In every state that the program can reach, a client that is not authenticated was sent nothing but
  -- the answers to its own handshakes, whatever other clients and erssi send and in whatever order the
  -- goroutines run.
  pub unauthenticated-OnlyHandshakes :
      (s : System W) (k : ℕ) (p : Peer W)
      → Reach v s
      → get_elem? s.peers k ≡ some p
      → p.client.authenticated ≡ false
      → OnlyHandshakes v.write v.close v.fresh p.client.conn
  unauthenticated-OnlyHandshakes s k p reached found off =
      All-get (IsPrivate v.write v.close v.fresh) s.peers k p (Reach-IsIsolated s reached).peers
        found off
