-- ===== src/System/Replies.antt =====
-- From a client's request for lines to what it reads of its connection.
use erssi_lith_bridge.Base.{
  ℕ, suc, ◌+◌, ◌-◌, ◌^◌, ◌<◌, ◌≡◌, refl, sym, ap, ◌∙◌, true, List, [], ◌∷◌, ◌++◌, map, Option, some,
  Bytes, ok, length, length-drop, drop, get_elem?, All, All-drop, arith,
}
use erssi_lith_bridge.Base.Int.{pos}
use erssi_lith_bridge.Base.Text.{codes, contains}
use erssi_lith_bridge.Base.Assoc.{lookup}
use erssi_lith_bridge.Proto.Types.{Message}
use erssi_lith_bridge.Proto.Create.{create_lines_hdata_with_id}
use erssi_lith_bridge.Proto.Encoder.{encode_body, frame}
use erssi_lith_bridge.Proto.Sending.{IsWriter}
use erssi_lith_bridge.Proto.WireMessage.{read_message}
use erssi_lith_bridge.Proto.RoundTrip.Plain.{IsText}
use erssi_lith_bridge.Proto.RoundTrip.Created.{IsLineData}
use erssi_lith_bridge.Proto.RoundTrip.Sent.{lines_frame_read}
use erssi_lith_bridge.Proto.Stream.{read_stream}
use erssi_lith_bridge.Proto.Reliable.{read_stream-encode_message}
use erssi_lith_bridge.Translator.State.{BufferState}
use erssi_lith_bridge.Translator.Identity.{IsTicking}
use erssi_lith_bridge.Bridge.State.{Bridge, Effect, reply}
use erssi_lith_bridge.Bridge.Request.{line_count}
use erssi_lith_bridge.Bridge.Handlers.{handle_weechat_command}
use erssi_lith_bridge.Bridge.Events.{Event, from_client, handle}
use erssi_lith_bridge.Bridge.Lines.{run-few_lines}
use erssi_lith_bridge.Bridge.LineRequests.{line_path, lines_reach_client}
use erssi_lith_bridge.Weechat.Session.{handle_command, send_message}
use erssi_lith_bridge.Weechat.Server.{Peer, reply_to}
use erssi_lith_bridge.Weechat.Peers.{get_elem?-modify_self}
use erssi_lith_bridge.Weechat.Requests.{
  Request, hdata, verb_name, IsRequest, line_of, request_handled,
}
use erssi_lith_bridge.System.State.{System, take_line, run_task, deliver}
use erssi_lith_bridge.System.Steps.{World, Reach}
use erssi_lith_bridge.System.Runs.{Reach-FollowsRun}

-- The request for up to so many lines of the buffer of a pointer, as clients write it.
abbrev pub lines_request : Bytes → Bytes → Bytes → Bytes → Request
lines_request id ptr rest params = record {
  verb = hdata;
  id = id;
  args = line_path ptr rest ∷ params ∷ [];
}

module _ {E W : Type 0} (v : World E W) where
  request_taken :
      (r : Request) (random : Option Bytes) (s : System W) (k : ℕ) (p : Peer W)
      → IsRequest r
      → p.client.authenticated ≡ true
      → (take_line v.close k (handle_command v.write random (line_of r) p.client) s).tasks
        ≡ s.tasks ++ ((some k, from_client r.id (verb_name r.verb) r.args) ∷ [])
  unfolding take_line
  request_taken r random s k p h on = rw (request_handled v.write r random p.client h on) refl

  lines_handled :
      (t : System W) (key id params rest : Bytes) (b : BufferState) (m : ℕ)
      → IsTicking v.host
      → Reach v t
      → lookup key t.bridge.translator.buffers ≡ some b
      → contains rest (codes "lines") ≡ true
      → line_count params ≡ pos m
      → (handle v.host
          (from_client id (codes "hdata") (line_path b.pointer rest ∷ params ∷ []))
          t.bridge).1
        ≡ reply (create_lines_hdata_with_id (drop (length b.lines - m) b.lines) id) ∷ []
  unfolding handle
  lines_handled t key id params rest b m ticking reach found spoken count =
      let r = Reach-FollowsRun v t reach in
      ap
        (λ (c : Bridge).
          (handle_weechat_command id (codes "hdata") (line_path b.pointer rest ∷ params ∷ []) c).1)
        r.bridge
      ∙ lines_reach_client v.host r.events key id params rest b m ticking
          (ap (λ (c : Bridge). lookup key c.translator.buffers) (sym r.bridge) ∙ found) spoken count

module _ {E W : Type 0} (v : World E W) (sent : W → Bytes) (writer : IsWriter v.write sent) where
  replied :
      (n : ℕ) (msg got : Message) (bs : Bytes) (ms : List Message) (s : System W) (k : ℕ)
      (p : Peer W)
      → frame msg ≡ ok bs
      → (send_message v.write msg p.client).0 ≡ ok tt
      → read_message bs ≡ some got
      → get_elem? s.peers k ≡ some p
      → read_stream n (sent p.client.conn) ≡ some ms
      → (q : Peer W) × (get_elem? (deliver v.write (some k) (reply msg) s).peers k ≡ some q)
        × (read_stream (suc n) (sent q.client.conn) ≡ some (ms ++ (got ∷ [])))
  unfolding deliver reply_to send_message
  replied n msg got bs ms s k p e fine back found old = (
    reply_to v.write msg p,
    get_elem?-modify_self (reply_to v.write msg) k s.peers p found,
    read_stream-encode_message v.write sent writer n msg got bs ms p.client.conn e fine back old,
  )

  -- A client that is authenticated asks by its pointer for up to m lines of a buffer, on a line in the
  -- protocol's form that has the count in its second word. The line becomes one task. Run in any state
  -- that the program can reach and in which the buffer is there, the task makes one send, to this client.
  -- Whenever that goes out and the writes of it do not fail, the client, if it has read all that it was
  -- sent before, reads next, under the identifier of its request, the last m of the lines that the buffer
  -- kept when the task ran, or all where there were no more. No two readings of the clock must be equal,
  -- the strings must fit the format's widths and the frame must be less than 2 ^ 32 bytes.
  pub lines_reach_reader :
      (s t u : System W) (k n m : ℕ) (p q : Peer W) (random : Option Bytes)
      (key id params rest body : Bytes) (b : BufferState) (others : List (Option ℕ × Event))
      (ms : List Message)
      → IsTicking v.host
      → p.client.authenticated ≡ true
      → IsRequest (lines_request id b.pointer rest params)
      → contains rest (codes "lines") ≡ true
      → line_count params ≡ pos m
      → Reach v t
      → lookup key t.bridge.translator.buffers ≡ some b
      → IsText id
      → All IsLineData b.lines
      → encode_body (create_lines_hdata_with_id (drop (length b.lines - m) b.lines) id) ≡ ok body
      → 5 + length body < 2 ^ 32
      → get_elem? u.peers k ≡ some q
      → (send_message v.write
          (create_lines_hdata_with_id (drop (length b.lines - m) b.lines) id)
          q.client).0
        ≡ ok tt
      → read_stream n (sent q.client.conn) ≡ some ms
      → let line = line_of (lines_request id b.pointer rest params) in
        let task = from_client id (codes "hdata") (line_path b.pointer rest ∷ params ∷ []) in
        let out = create_lines_hdata_with_id (drop (length b.lines - m) b.lines) id in
        ((take_line v.close k (handle_command v.write random line p.client) s).tasks
          ≡ s.tasks ++ ((some k, task) ∷ []))
        × ((run_task v.host (some k) task others t).sends ≡ t.sends ++ ((some k, reply out) ∷ []))
        × ((q' : Peer W) × (get_elem? (deliver v.write (some k) (reply out) u).peers k ≡ some q')
            × (read_stream (suc n) (sent q'.client.conn) ≡ some (ms ++ (out ∷ []))))
  unfolding run_task
  lines_reach_reader s t u k n m p q random key id params rest body b others ms ticking on asked
        spoken count reach found text fits encoded small there fine old =
      let ls = drop (length b.lines - m) b.lines in
      let out = create_lines_hdata_with_id ls id in
      let r = Reach-FollowsRun v t reach in
      let few =
        run-few_lines v.host key r.events b
          (ap (λ (c : Bridge). lookup key c.translator.buffers) (sym r.bridge) ∙ found) in
      let (bs, framed, read) =
        lines_frame_read ls id body text (All-drop IsLineData (length b.lines - m) b.lines fits)
          (omega (arith, few, length-drop (length b.lines - m) b.lines)) encoded small in
      (
        request_taken v (lines_request id b.pointer rest params) random s k p asked on,
        ap (λ effects. t.sends ++ map (λ (f : Effect). (some k, f)) effects)
            (lines_handled v t key id params rest b m ticking reach found spoken count),
        replied n out out bs ms u k q framed fine read there old,
      )
