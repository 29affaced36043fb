-- ===== src/System/Arrival.antt =====
-- From a message of erssi to what a client reads of its connection.
use erssi_lith_bridge.Base.{
  ℕ, suc, ◌+◌, ◌^◌, ◌<◌, ◌≡◌, refl, ap, true, List, [], ◌∷◌, ◌++◌, map, Option, none, some, Bytes,
  ok, length, get_elem?, arith,
}
use erssi_lith_bridge.Proto.Types.{Message}
use erssi_lith_bridge.Proto.Encoder.{encode_body, frame}
use erssi_lith_bridge.Proto.Sending.{IsWriter}
use erssi_lith_bridge.Proto.WireMessage.{read_message}
use erssi_lith_bridge.Proto.RoundTrip.Sent.{lines_frame_read}
use erssi_lith_bridge.Proto.RoundTrip.Created.{IsLineData}
use erssi_lith_bridge.Proto.Stream.{read_stream}
use erssi_lith_bridge.Proto.Reliable.{read_stream-encode_message}
use erssi_lith_bridge.Erssi.Types.{WebMessage}
use erssi_lith_bridge.Translator.Buffers.{make_line}
use erssi_lith_bridge.Translator.History.{new_line}
use erssi_lith_bridge.Bridge.State.{Effect, broadcast}
use erssi_lith_bridge.Bridge.Lines.{shown}
use erssi_lith_bridge.Bridge.Shown.{line_message, handle-Shows}
use erssi_lith_bridge.Bridge.Events.{Event}
use erssi_lith_bridge.Weechat.Session.{send_message}
use erssi_lith_bridge.Weechat.Server.{Peer, reply_to}
use erssi_lith_bridge.Weechat.Broadcast.{broadcast_message-reaches}
use erssi_lith_bridge.System.State.{System, run_task, deliver}
use erssi_lith_bridge.System.Steps.{World}

module _ {E W : Type 0} (v : World E W) (sent : W → Bytes) (writer : IsWriter v.write sent) where
  delivered :
      (n : ℕ) (msg got : Message) (bs : Bytes) (ms : List Message) (s : System W) (k : ℕ)
      (p : Peer W)
      → frame msg ≡ ok bs
      → (send_message v.write msg p.client).0 ≡ ok tt
      → read_message bs ≡ some got
      → get_elem? s.peers k ≡ some p
      → p.registered ≡ true
      → p.client.authenticated ≡ true
      → read_stream n (sent p.client.conn) ≡ some ms
      → (q : Peer W) × (get_elem? (deliver v.write none (broadcast msg) s).peers k ≡ some q)
        × (read_stream (suc n) (sent q.client.conn) ≡ some (ms ++ (got ∷ [])))
  unfolding deliver reply_to send_message
  delivered n msg got bs ms s k p e fine back found there on old = (
    reply_to v.write msg p,
    broadcast_message-reaches v.write msg bs s.peers k p e found there on,
    read_stream-encode_message v.write sent writer n msg got bs ms p.client.conn e fine back old,
  )

  -- Where a step of a handler shows something of a message of erssi's (the message itself, or a system
  -- message about a join outside a dump, a part, a quit or a topic), its first send goes to all clients
  -- and is a line with the nick, text, time and highlight of what is shown. Whenever that send goes out,
  -- a client that is there and authenticated, has read all that it was sent before, and to whose
  -- connection the writes of this line do not fail, reads this line next, in one whole frame, whatever
  -- becomes of the sends to the other clients. The strings must fit the format's widths and the frame
  -- must be less than 2 ^ 32 bytes.
  pub message_reaches_client :
      (e : Event) (m' : WebMessage) (others : List (Option ℕ × Event)) (s t : System W) (n k : ℕ)
      (p : Peer W) (ms : List Message) (body : Bytes)
      → shown e ≡ some m'
      → IsLineData (new_line v.host m' s.bridge.translator)
      → encode_body (line_message (new_line v.host m' s.bridge.translator)) ≡ ok body
      → 5 + length body < 2 ^ 32
      → get_elem? t.peers k ≡ some p
      → p.registered ≡ true
      → p.client.authenticated ≡ true
      → (send_message v.write (line_message (new_line v.host m' s.bridge.translator)) p.client).0
        ≡ ok tt
      → read_stream n (sent p.client.conn) ≡ some ms
      → let line = new_line v.host m' s.bridge.translator in
        let out = line_message line in
        ((line.prefix ≡ m'.nick)
          × (line.message ≡ m'.text)
          × (line.date ≡ m'.timestamp)
          × (line.highlight ≡ m'.is_highlight))
        × ((rest : List (Option ℕ × Effect)) × ((run_task v.host none e others s).sends
              ≡ s.sends ++ ((none, broadcast out) ∷ rest)))
        × ((q : Peer W) × (get_elem? (deliver v.write none (broadcast out) t).peers k ≡ some q)
            × (read_stream (suc n) (sent q.client.conn) ≡ some (ms ++ (out ∷ []))))
  unfolding run_task new_line make_line
  message_reaches_client e m' others s t n k p ms body seen fits encoded small found there on fine
        old =
      let line = new_line v.host m' s.bridge.translator in
      let (bs, framed, read) =
        lines_frame_read (line ∷ []) [] body (omega arith) (fits, tt) (omega arith) encoded small in
      let (rest, first) = handle-Shows v.host e m' s.bridge seen in
      (
        (refl, refl, refl, refl),
        (
          map (λ (f : Effect). (none, f)) rest,
          ap (λ out. s.sends ++ map (λ (f : Effect). (none, f)) out) first,
        ),
        delivered n (line_message line) (line_message line) bs ms t k p framed fine read found there
            on old,
      )
