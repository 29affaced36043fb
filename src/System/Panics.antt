-- ===== src/System/Panics.antt =====
-- What can end the whole program: a send to a client never panics, so only a handler's own panic does.
use mathlib.Core.Path.{subst}
use erssi_lith_bridge.Base.{
  ℕ, ◌≡◌, ◌≢◌, refl, sym, ap, ◌∙◌, ◌⊎◌, inl, inr, Bool, true, false, List, [], ◌∷◌, ◌++◌, map,
  Option, none, some, Bytes, Result, ok, err, panic, get_elem?, All, All-append, All-pick, arith,
}
use erssi_lith_bridge.Base.Text.{codes}
use erssi_lith_bridge.Proto.Types.{Message}
use erssi_lith_bridge.Proto.Create.{create_handshake_response}
use erssi_lith_bridge.Proto.Encoder.{SendError}
use erssi_lith_bridge.Proto.Sending.{encode_message-ne-panic}
use erssi_lith_bridge.Proto.Frames.{HasFrame, handshake-HasFrame}
use erssi_lith_bridge.Erssi.Client.{Frame, read_frame}
use erssi_lith_bridge.Bridge.State.{Effect, broadcast, reply, to_erssi, crash}
use erssi_lith_bridge.Bridge.Events.{handle}
use erssi_lith_bridge.Bridge.Framed.{IsFramed, handle-AreFramed}
use erssi_lith_bridge.Weechat.Command.{Command, Line, malformed, blank, command, parse_line}
use erssi_lith_bridge.Weechat.Session.{
  Client, CommandError, hex_encode, send_result, send_message, handle_handshake, handle_init,
  forward, dispatch_command, handle_line, handle_command,
}
use erssi_lith_bridge.Weechat.Server.{Peer}
use erssi_lith_bridge.Weechat.Broadcast.{broadcast_message-deliver}
use erssi_lith_bridge.System.State.{
  System, survives, unless, take_line, run_task, answered, deliver,
}
use erssi_lith_bridge.System.Steps.{
  World, Step, accepts, reads_line, ends, receives, breaks, runs, sends, Reach, start, next,
}

sent-ne-panic :
    {E : Type 0} (r : Result (SendError E) (Unit {0})) → r ≢ panic → send_result r ≢ panic
sent-ne-panic (ok _) h = λ e. cc
sent-ne-panic (err x) h = λ e. cc
sent-ne-panic panic h = absurd (h refl)

module _ {E W : Type 0} (write : Bytes → W → Option E × W) where
  send_message-ne-panic :
      (msg : Message) (c : Client W) → HasFrame msg → (send_message write msg c).0 ≢ panic
  unfolding send_message
  send_message-ne-panic msg c (bs, e) = encode_message-ne-panic write msg bs c.conn e

  handshake-ne-panic :
      (random : Option Bytes) (id : Bytes) (c : Client W)
      → (handle_handshake write random id c).0 ≢ panic
  unfolding handle_handshake
  handshake-ne-panic none id c = λ e. cc
  handshake-ne-panic (some bytes) id c =
      let fresh = record c { nonce = hex_encode bytes } in
      let msg = create_handshake_response id (codes "plain") (hex_encode bytes) in
      sent-ne-panic (send_message write msg fresh).0
        (send_message-ne-panic msg fresh (handshake-HasFrame id (codes "plain") (hex_encode bytes)))

  dispatch-ne-panic :
      (random : Option Bytes) (cmd : Command) (c : Client W)
      → (dispatch_command write random cmd c).0 ≢ panic
  unfolding dispatch_command handle_init forward
  dispatch-ne-panic random cmd c = let shake = handshake-ne-panic random cmd.id c in ground arith

  line-ne-panic :
      (random : Option Bytes) (l : Line) (c : Client W) → (handle_line write random l c).0 ≢ panic
  unfolding handle_line
  line-ne-panic random malformed c = λ e. cc
  line-ne-panic random blank c = λ e. cc
  line-ne-panic random (command cmd) c = dispatch-ne-panic random cmd c

  answered-HasFrame :
      (msg : Message) (p : Option (Peer W)) (running : Bool)
      → HasFrame msg
      → answered write msg p running ≡ running
  unfolding answered
  answered-HasFrame msg none running f = refl
  answered-HasFrame msg (some p) running f =
      by_result (send_message write msg p.client).0 (send_message-ne-panic msg p.client f)
    where
      by_result :
          (r : Result (SendError E) (Unit {0}))
          → r ≢ panic
          → elim r [ ok _ ↦ running | err _ ↦ running | panic ↦ false ] ≡ running
      by_result (ok _) h = refl
      by_result (err _) h = refl
      by_result panic h = absurd (h refl)

survives-ne-panic :
    {E : Type 0} (r : Result (CommandError E) (Unit {0})) (running : Bool)
    → r ≢ panic
    → survives r running ≡ running
survives-ne-panic (ok _) running h = refl
survives-ne-panic (err _) running h = refl
survives-ne-panic panic running h = absurd (h refl)

-- All that waits to be sent to a client can be encoded.
abbrev AllFramed : {W : Type 0} → System W → Type 0
AllFramed s = All (λ (t : Option ℕ × Effect). IsFramed t.1) s.sends

-- A handler's panic waits to be reached.
abbrev pub HasCrash : {W : Type 0} → System W → Type 0
HasCrash s =
    (before : List (Option ℕ × Effect)) × (after : List (Option ℕ × Effect)) × (owner : Option ℕ)
    × (s.sends ≡ before ++ ((owner, crash) ∷ after))

-- The step is the reading of a frame at which the read loop panics.
abbrev pub HasBroken : {E W : Type 0} {v : World E W} {s t : System W} → Step v s t → Type 0
HasBroken accepts = ⊥
HasBroken (reads_line k p line random found there) = ⊥
HasBroken (ends k p found there) = ⊥
HasBroken (receives f m read) = ⊥
HasBroken {v = v} (breaks f bad) = (g : Frame) × (read_frame v.cipher v.decode v.key g ≡ panic)
HasBroken (runs before after o e waiting) = ⊥
HasBroken (sends before after o f waiting) = ⊥

IsFramed-sends :
    (o : Option ℕ) (es : List Effect)
    → All IsFramed es
    → All (λ (t : Option ℕ × Effect). IsFramed t.1) (map (λ (f : Effect). (o, f)) es)
IsFramed-sends o [] h = tt
IsFramed-sends o (e ∷ es) h = (h.0, IsFramed-sends o es h.1)

module _ {E W : Type 0} (v : World E W) where
  pub sends-deliver :
      (o : Option ℕ) (f : Effect) (s : System W) → (deliver v.write o f s).sends ≡ s.sends
  unfolding deliver
  sends-deliver none (broadcast m) s = refl
  sends-deliver (some k) (broadcast m) s = refl
  sends-deliver none (reply m) s = refl
  sends-deliver (some k) (reply m) s = refl
  sends-deliver none (to_erssi m) s = refl
  sends-deliver (some k) (to_erssi m) s = refl
  sends-deliver none crash s = refl
  sends-deliver (some k) crash s = refl

  Step-AllFramed : (s t : System W) → Step v s t → AllFramed s → AllFramed t
  unfolding take_line run_task
  Step-AllFramed s t accepts h = h
  Step-AllFramed s t (reads_line k p line random found there) h = h
  Step-AllFramed s t (ends k p found there) h = h
  Step-AllFramed s t (receives f m read) h = h
  Step-AllFramed s t (breaks f bad) h = h
  Step-AllFramed s t (runs before after o e waiting) h =
      All-append (λ (u : Option ℕ × Effect). IsFramed u.1) s.sends _ h
        (IsFramed-sends o (handle v.host e s.bridge).1 (handle-AreFramed v.host e s.bridge))
  Step-AllFramed s t (sends before after o f waiting) h =
      let all =
        λ (xs : List (Option ℕ × Effect)). All (λ (u : Option ℕ × Effect). IsFramed u.1) xs in
      let rest =
        (All-pick (λ (u : Option ℕ × Effect). IsFramed u.1) before after (o, f)
          (subst all waiting h)).1 in
      subst all (sym (sends-deliver o f (record s { sends = before ++ after }))) rest

  Reach-AllFramed : (s : System W) → Reach v s → AllFramed s
  Reach-AllFramed s start = tt
  Reach-AllFramed s (next {s = r} reached running step) =
      Step-AllFramed r s step (Reach-AllFramed r reached)

  -- A send leaves the program running, but for a panic.
  deliver-running :
      (o : Option ℕ) (f : Effect) (s : System W)
      → IsFramed f
      → ((deliver v.write o f s).running ≡ s.running) ⊎ (f ≡ crash)
  unfolding deliver
  deliver-running none (broadcast m) s (bs, e) = inl (
      ap (λ (r : List (Peer W) × Bool). unless r.1 s.running)
        (broadcast_message-deliver v.write m bs s.peers e))
  deliver-running (some k) (broadcast m) s (bs, e) = inl (
      ap (λ (r : List (Peer W) × Bool). unless r.1 s.running)
        (broadcast_message-deliver v.write m bs s.peers e))
  deliver-running none (reply m) s h = inl refl
  deliver-running (some k) (reply m) s h =
      inl (answered-HasFrame v.write m (get_elem? s.peers k) s.running h)
  deliver-running none (to_erssi m) s h = inl refl
  deliver-running (some k) (to_erssi m) s h = inl refl
  deliver-running none crash s h = inr refl
  deliver-running (some k) crash s h = inr refl

  Step-running :
      (s t : System W) (step : Step v s t)
      → AllFramed s
      → (t.running ≡ s.running) ⊎ HasCrash s ⊎ HasBroken step
  unfolding take_line run_task handle_command
  Step-running s t accepts h = inl refl
  Step-running s t (reads_line k p line random found there) h =
      inl (survives-ne-panic _ s.running (line-ne-panic v.write random (parse_line line) p.client))
  Step-running s t (ends k p found there) h = inl refl
  Step-running s t (receives f m read) h = inl refl
  Step-running s t (breaks f bad) h = inr (inr (f, bad))
  Step-running s t (runs before after o e waiting) h = inl refl
  Step-running s t (sends before after o f waiting) h =
      let all =
        λ (xs : List (Option ℕ × Effect)). All (λ (u : Option ℕ × Effect). IsFramed u.1) xs in
      let framed =
        (All-pick (λ (u : Option ℕ × Effect). IsFramed u.1) before after (o, f)
          (subst all waiting h)).0 in
      elim (deliver-running o f (record s { sends = before ++ after }) framed) [
        | inl same ↦ inl same
        | inr panics ↦
            inr (inl (before, after, o, waiting ∙ ap (λ g. before ++ ((o, g) ∷ after)) panics))
      ]

  -- A program that runs still runs after its next step, unless a panic of a handler was waiting or the
  -- step is the reading of a frame of erssi's at which the read loop panics: neither the handling of a
  -- client's line nor a send to a client panics, whatever was sent and whatever the connections do.
  pub goes_on :
      (s t : System W)
      → Reach v s
      → s.running ≡ true
      → (step : Step v s t) → (t.running ≡ true) ⊎ HasCrash s ⊎ HasBroken step
  goes_on s t reached on step = elim (Step-running s t step (Reach-AllFramed s reached)) [
    | inl same ↦ inl (same ∙ on)
    | inr crashed ↦ inr crashed
  ]
