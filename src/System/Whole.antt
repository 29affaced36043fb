-- ===== src/System/Whole.antt =====
-- What a client was sent is a sequence of whole frames.
use mathlib.Core.Path.{subst}
use erssi_lith_bridge.Base.{
  ℕ, Bool, true, ◌≡◌, refl, sym, inl, inr, List, [], ◌∷◌, ◌++◌, Option, none, some, Bytes, Result,
  ok, err, panic, get_elem?, All, All-append, All-get, Bool-cases,
}
use erssi_lith_bridge.Base.Text.{codes, str_eq}
use erssi_lith_bridge.Proto.Types.{Message}
use erssi_lith_bridge.Proto.Encode.{EncodeError, be32}
use erssi_lith_bridge.Proto.Encoder.{encode_body, total_length, frame, send_body, encode_message}
use erssi_lith_bridge.Proto.Sending.{IsWriter}
use erssi_lith_bridge.Proto.Reliable.{IsFaultLog, sent-encode_message, encode_message-Succeeds}
use erssi_lith_bridge.Bridge.State.{Effect, broadcast, reply, to_erssi, crash}
use erssi_lith_bridge.Weechat.Command.{Command, Line, malformed, blank, command, parse_line}
use erssi_lith_bridge.Weechat.Session.{
  Client, CommandError, send_message, handle_handshake, handle_line, handle_command,
}
use erssi_lith_bridge.Weechat.Server.{Peer, accept, disconnect, after_line, reply_to}
use erssi_lith_bridge.Weechat.Peers.{All-modify, All-broadcast_message}
use erssi_lith_bridge.System.State.{System, take_line, run_task, deliver}
use erssi_lith_bridge.System.Steps.{
  World, Step, accepts, reads_line, ends, receives, breaks, runs, sends, Reach, start, next,
}
use erssi_lith_bridge.System.Privacy.{quiet_command, is_handshake}

-- Whole frames, one behind the other.
pub data AreFrames : Bytes → Type 0 where
  nothing : AreFrames []
  one_more : {s bs : Bytes} (msg : Message) → AreFrames s → frame msg ≡ ok bs → AreFrames (s ++ bs)

module _ {E W : Type 0} (v : World E W) (sent : W → Bytes) (writer : IsWriter v.write sent)
    (intact : W → Bool) (faults : IsFaultLog v.write v.close intact) (opened : sent v.fresh ≡ [])
    (kept : (w : W) → sent (v.close w) ≡ sent w) where
  -- Whole frames were sent, if no write has failed.
  abbrev IsSound : W → Type 0
  IsSound w = intact w ≡ true → AreFrames (sent w)

  -- A message without a frame is not begun.
  encode_message-IsSound :
      (msg : Message) (w : W) → IsSound w → IsSound (encode_message v.write msg w).1
  unfolding encode_message frame send_body
  encode_message-IsSound msg w h = by_body (encode_body msg) refl
    where
      by_body :
          (r : Result EncodeError Bytes)
          → encode_body msg ≡ r
          → IsSound (encode_message v.write msg w).1
      by_body (ok body) e = λ whole.
          let framed : frame msg ≡ ok (be32 (total_length body) ++ (msg.compression ∷ body)) =
            rw (frame, e) refl in
          let (before, fine) =
            encode_message-Succeeds v.write v.close intact faults msg body w e whole in
          subst AreFrames (sym (sent-encode_message v.write sent writer msg _ w framed fine))
            (one_more msg (h before) framed)
      by_body (err x) e = rw (encode_message, e) h
      by_body panic e = rw (encode_message, e) h

  abbrev IsWhole : Peer W → Type 0
  IsWhole p = IsSound p.client.conn

  line-IsWhole :
      (random : Option Bytes) (l : Line) (c : Client W)
      → IsSound c.conn
      → IsSound (handle_line v.write random l c).1.conn
  unfolding handle_line handle_handshake send_message
  line-IsWhole random malformed c h = h
  line-IsWhole random blank c h = h
  line-IsWhole random (command cmd) c h = elim (Bool-cases (str_eq cmd.name (codes "handshake"))) [
    | inl same ↦ rw (is_handshake v.write v.close v.fresh random cmd c same) (greeted random)
    | inr other ↦ rw (quiet_command v.write v.close v.fresh random cmd c other) h
  ]
    where
      greeted : (random : Option Bytes) → IsSound (handle_handshake v.write random cmd.id c).1.conn
      greeted none = h
      greeted (some bytes) = encode_message-IsSound _ c.conn h

  closed-IsWhole : (w : W) → IsSound w → IsSound (v.close w)
  closed-IsWhole w h = λ whole. subst AreFrames (sym (kept w)) (h (faults.closed w whole))

  after_line-IsWhole :
      (r : Result (CommandError E) (Unit {0})) (c : Client W) (out : List Command) (p : Peer W)
      → IsSound c.conn
      → IsWhole (after_line v.close (r, c, out) p)
  unfolding after_line disconnect
  after_line-IsWhole (ok _) c out p h = h
  after_line-IsWhole (err _) c out p h = closed-IsWhole c.conn h
  after_line-IsWhole panic c out p h = closed-IsWhole c.conn h

  reply_to-IsWhole : (msg : Message) (p : Peer W) → IsWhole p → IsWhole (reply_to v.write msg p)
  unfolding reply_to send_message
  reply_to-IsWhole msg p h = encode_message-IsSound msg p.client.conn h

  deliver-IsWhole :
      (o : Option ℕ) (f : Effect) (s : System W)
      → All IsWhole s.peers
      → All IsWhole (deliver v.write o f s).peers
  unfolding deliver
  deliver-IsWhole o (broadcast msg) s h =
      All-broadcast_message v.write msg IsWhole s.peers (λ p on. reply_to-IsWhole msg p) h
  deliver-IsWhole (some k) (reply msg) s h =
      All-modify IsWhole (reply_to v.write msg) k s.peers
        (λ p e. reply_to-IsWhole msg p (All-get IsWhole s.peers k p h e)) h
  deliver-IsWhole none (reply msg) s h = h
  deliver-IsWhole o (to_erssi msg) s h = h
  deliver-IsWhole o crash s h = h

  Step-IsWhole : (s t : System W) → Step v s t → All IsWhole s.peers → All IsWhole t.peers
  unfolding accept disconnect take_line run_task handle_command
  Step-IsWhole s t accepts h =
      All-append IsWhole s.peers _ h ((λ whole. subst AreFrames (sym opened) nothing), tt)
  Step-IsWhole s t (reads_line k p line random found there) h =
      All-modify IsWhole
        (after_line v.close (handle_line v.write random (parse_line line) p.client)) k s.peers
        (λ q e.
          after_line-IsWhole _ _ _ q
            (line-IsWhole random (parse_line line) p.client (All-get IsWhole s.peers k p h found)))
        h
  Step-IsWhole s t (ends k p found there) h =
      All-modify IsWhole (disconnect v.close) k s.peers
        (λ q e. closed-IsWhole q.client.conn (All-get IsWhole s.peers k q h e)) h
  Step-IsWhole s t (receives f m read) h = h
  Step-IsWhole s t (breaks f bad) h = h
  Step-IsWhole s t (runs before after o e waiting) h = h
  Step-IsWhole s t (sends before after o f waiting) h =
      deliver-IsWhole o f (record s { sends = before ++ after }) h

  Reach-IsWhole : (s : System W) → Reach v s → All IsWhole s.peers
  Reach-IsWhole s start = tt
  Reach-IsWhole s (next {s = r} reached running step) =
      Step-IsWhole r s step (Reach-IsWhole r reached)

  -- In every state that the program can reach, what was sent to a client on whose connection no write
  -- has failed is a sequence of whole frames of messages, in whatever order the goroutines send, whatever
  -- becomes of the other connections: no frame is torn and none is begun that cannot be finished. A
  -- connection keeps what it was sent when it is closed.
  pub sent-AreFrames :
      (s : System W) (k : ℕ) (p : Peer W)
      → Reach v s
      → get_elem? s.peers k ≡ some p
      → intact p.client.conn ≡ true
      → AreFrames (sent p.client.conn)
  sent-AreFrames s k p reached found whole =
      All-get IsWhole s.peers k p (Reach-IsWhole s reached) found whole
