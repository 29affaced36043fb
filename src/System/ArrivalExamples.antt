-- ===== src/System/ArrivalExamples.antt =====
-- The theorems on what clients read of their connections, at concrete messages.
use erssi_lith_bridge.Base.{
  ℕ, List, Option, ◌++◌, ◌≤◌, ◌+◌, ◌^◌, ◌<◌, ◌≡◌, refl, true, false, [], ◌∷◌, none, some, Bytes, ok,
  length, get_elem?, arith,
}
use erssi_lith_bridge.Base.Text.{
  codes, contains, space_width, split, unsigned, join, str_eq, hex, digits, to_lower,
}
use erssi_lith_bridge.Base.Int.{pos, uint32, int32, decimal}
use erssi_lith_bridge.Base.Assoc.{lookup}
use erssi_lith_bridge.Proto.Types.{Message, type_of}
use erssi_lith_bridge.Proto.Create.{
  LineData, create_lines_hdata_with_id, line_items, line_fields, bool_to_int,
}
use erssi_lith_bridge.Proto.Encode.{
  encode, encode_string, encode_pointers, encode_short, encode_bytes, be32, encode_items,
  encode_fields, encode_field, parse_hdata_keys,
}
use erssi_lith_bridge.Proto.Encoder.{encode_body, encode_objects, encode_typed, wrap_object}
use erssi_lith_bridge.Proto.Sending.{IsWriter}
use erssi_lith_bridge.Proto.Reliable.{IsFaultLog, encode_message-Succeeds}
use erssi_lith_bridge.Proto.Stream.{read_stream}
use erssi_lith_bridge.Proto.RoundTrip.Created.{IsLineData}
use erssi_lith_bridge.Translator.State.{new_translator, buffer_key, pointer_text, generate_pointer}
use erssi_lith_bridge.Translator.Buffers.{
  add_buffer, with_existing, create_buffer_with_topic, ensure_buffer, find_or_create, make_line,
  generate_tags,
}
use erssi_lith_bridge.Translator.History.{new_line}
use erssi_lith_bridge.Translator.Examples.{a_host, hello, ticking, first_buffer}
use erssi_lith_bridge.Bridge.State.{broadcast, reply, Effect}
use erssi_lith_bridge.Bridge.Events.{from_erssi, from_client, run}
use erssi_lith_bridge.Weechat.Server.{Peer}
use erssi_lith_bridge.Weechat.Examples.{log}
use erssi_lith_bridge.System.State.{System, new_system, take_line, run_task, deliver}
use erssi_lith_bridge.System.Examples.{
  a_world, told, told_steps, handled, handled_Reach, greeted_peer, greeted_state, greeted_Reach,
  greeted_there,
}
use erssi_lith_bridge.System.Whole.{AreFrames, sent-AreFrames}
use erssi_lith_bridge.System.Draining.{Drains, modest-Drains}
use erssi_lith_bridge.System.Replies.{lines_request, lines_reach_reader}
use erssi_lith_bridge.Weechat.Session.{Client, handle_command, send_message}
use erssi_lith_bridge.Weechat.Command.{drop_cr}
use erssi_lith_bridge.Weechat.Parsing.{print_command}
use erssi_lith_bridge.Weechat.Requests.{Request, IsRequest, line_of}
use erssi_lith_bridge.Bridge.LineRequests.{line_path}
use erssi_lith_bridge.Bridge.Examples.{first_buffer_lem, ten_lines}
use erssi_lith_bridge.System.Arrival.{message_reaches_client}
use erssi_lith_bridge.Bridge.Shown.{line_message}

log-IsWriter : IsWriter log (λ w. w)
log-IsWriter = record { whole = λ bs w e. refl; part = λ bs w e bad. cc }

log-IsFaultLog : IsFaultLog log (λ w. w) (λ w. true)
log-IsFaultLog = record { written = λ bs w e. (refl, refl); closed = λ w e. refl }

log-send_message :
    (msg : Message) (body : Bytes) (c : Client Bytes)
    → encode_body msg ≡ ok body
    → (send_message log msg c).0 ≡ ok tt
unfolding send_message
log-send_message msg body c e =
    (encode_message-Succeeds log (λ w. w) (λ w. true) log-IsFaultLog msg body c.conn e refl).1

abbrev hello_line : LineData
hello_line = record {
  pointer = codes "0x1";
  buffer_ptr = codes "0x0";
  date = pos 0;
  date_printed = pos 0;
  displayed = true;
  highlight = false;
  tags = codes "notify_message,nick_bob";
  prefix = codes "bob";
  message = codes "hi";
}

hello_line_lem : new_line a_host hello new_translator ≡ hello_line
unfolding new_line lookup buffer_key to_lower find_or_create ensure_buffer create_buffer_with_topic
    with_existing add_buffer generate_pointer pointer_text hex make_line generate_tags join str_eq
    digits
hello_line_lem = refl

hello_line-IsLineData : IsLineData hello_line
hello_line-IsLineData = record {
  pointer = omega arith;
  buffer_ptr = omega arith;
  date = omega arith;
  date_printed = omega arith;
  tags = omega arith;
  prefix = omega arith;
  message = omega arith;
}

hello-IsLineData : IsLineData (new_line a_host hello new_translator)
hello-IsLineData = rw hello_line_lem hello_line-IsLineData

hello_encoded :
    (id : Bytes)
    → length id ≤ 1
    → (bs : Bytes) × (encode_body (create_lines_hdata_with_id (hello_line ∷ []) id) ≡ ok bs)
      × (5 + length bs < 2 ^ 32)
unfolding create_lines_hdata_with_id line_items line_fields bool_to_int int32 encode_body
    encode_objects encode_typed wrap_object type_of encode encode_string encode_bytes be32 uint32
    parse_hdata_keys encode_items encode_fields encode_field str_eq split encode_pointers
    encode_short decimal digits unsigned
hello_encoded [] h = (_, refl, omega arith)
hello_encoded (c ∷ []) h = (_, refl, omega arith)
hello_encoded (c ∷ d ∷ id) h = absurd (omega arith)

-- a client that was sent nothing yet
abbrev pub a_reader : Peer Bytes
a_reader = record {
  registered = true;
  client = record { conn = []; authenticated = true; nonce = [] };
}

abbrev before : System Bytes
before = record new_system { peers = a_reader ∷ [] }

nothing_read : read_stream 0 [] ≡ some []
unfolding read_stream
nothing_read = refl

message_reaches_client_example :
    let line = new_line a_host hello new_translator in
    let out = line_message line in
    ((line.prefix ≡ codes "bob")
      × (line.message ≡ codes "hi")
      × (line.date ≡ pos 0)
      × (line.highlight ≡ false))
    × ((rest : List (Option ℕ × Effect)) × ((run_task a_host none
            (from_erssi hello)
            []
            before).sends
          ≡ (none, broadcast out) ∷ rest))
    × ((q : Peer Bytes) × (get_elem? (deliver log none (broadcast out) before).peers 0 ≡ some q)
        × (read_stream 1 q.client.conn ≡ some (out ∷ [])))
message_reaches_client_example =
    message_reaches_client a_world (λ w. w) log-IsWriter (from_erssi hello) hello [] before before 0
      0 a_reader [] (hello_encoded [] (omega arith)).0 refl hello-IsLineData
      (rw hello_line_lem (hello_encoded [] (omega arith)).1) (hello_encoded [] (omega arith)).2 refl
      refl refl
      (log-send_message (line_message (new_line a_host hello new_translator))
        (hello_encoded [] (omega arith)).0 a_reader.client
        (rw hello_line_lem (hello_encoded [] (omega arith)).1))
      nothing_read

abbrev a_request : Request
a_request = lines_request (codes "7") (codes "0x0") (codes "lines") (codes "(-10)")

a_request-IsRequest : IsRequest a_request
unfolding space_width print_command drop_cr join
a_request-IsRequest = record {
  printable = record {
    id_lacks = omega arith;
    words = (((λ e. cc), omega arith), (((λ e. cc), omega arith), (((λ e. cc), omega arith), tt)));
  };
  one_line = record { lacks = omega arith; fits = omega arith; no_cr = refl };
}

pub buffer_there :
    lookup (buffer_key a_host (codes "net") (codes "#go")) handled.bridge.translator.buffers
    ≡ some first_buffer
unfolding run_task run
buffer_there = first_buffer_lem

lines_reach_reader_example :
    let task =
      from_client
        (codes "7")
        (codes "hdata")
        (line_path (codes "0x0") (codes "lines") ∷ codes "(-10)" ∷ []) in
    let out = create_lines_hdata_with_id (hello_line ∷ []) (codes "7") in
    ((take_line
        (λ w. w)
        0
        (handle_command log none (line_of a_request) a_reader.client)
        before).tasks
      ≡ (some 0, task) ∷ [])
    × ((run_task a_host (some 0) task [] handled).sends
        ≡ handled.sends ++ ((some 0, reply out) ∷ []))
    × ((q : Peer Bytes) × (get_elem? (deliver log (some 0) (reply out) before).peers 0 ≡ some q)
        × (read_stream 1 q.client.conn ≡ some (out ∷ [])))
unfolding contains
lines_reach_reader_example =
    lines_reach_reader a_world (λ w. w) log-IsWriter before handled before 0 0 10 a_reader a_reader
      none (buffer_key a_host (codes "net") (codes "#go")) (codes "7") (codes "(-10)")
      (codes "lines") (hello_encoded (codes "7") (omega arith)).0 first_buffer [] [] ticking refl
      a_request-IsRequest refl ten_lines handled_Reach buffer_there (omega arith)
      (hello_line-IsLineData, tt) (hello_encoded (codes "7") (omega arith)).1
      (hello_encoded (codes "7") (omega arith)).2 refl
      (log-send_message (create_lines_hdata_with_id (hello_line ∷ []) (codes "7"))
        (hello_encoded (codes "7") (omega arith)).0 a_reader.client
        (hello_encoded (codes "7") (omega arith)).1)
      nothing_read

sent-AreFrames_example : AreFrames greeted_peer.client.conn
sent-AreFrames_example =
    sent-AreFrames a_world (λ w. w) log-IsWriter (λ w. true) log-IsFaultLog refl (λ w. refl)
      greeted_state 0 greeted_peer greeted_Reach greeted_there refl

-- the handler of the message waits
modest-Drains_example : Drains a_world (from_erssi hello ∷ []) told
modest-Drains_example = modest-Drains a_world told told_steps ((tt, tt), tt)
