-- ===== src/Bridge/Examples.antt =====
-- internal/bridge: the theorems on the bridge at a concrete run.
use erssi_lith_bridge.Base.{
  ◌≡◌, refl, Bytes, map, List, [], ◌∷◌, some, length, arith, All, true, false, ok, ◌+◌,
}
use erssi_lith_bridge.Base.Int.{incr_int32, pos, negsuc, integer, decimal}
use erssi_lith_bridge.Base.Text.{codes, to_lower, join, str_eq, hex, digits, has_prefix, unsigned}
use erssi_lith_bridge.Base.Assoc.{lookup, insert}
use erssi_lith_bridge.Proto.Create.{
  create_buffers_hdata_with_id, create_lines_hdata_with_id, LineData,
}
use erssi_lith_bridge.Erssi.Types.{WebMessage, state_dump, channel_join, topic, zero_message}
use erssi_lith_bridge.Translator.State.{BufferState, buffer_key, pointer_text, generate_pointer}
use erssi_lith_bridge.Translator.Buffers.{
  add_buffer, with_existing, create_buffer_with_topic, ensure_buffer, find_or_create, make_line,
  erssi_message_to_line, generate_tags, trim_lines,
}
use erssi_lith_bridge.Translator.Views.{buffer_data, get_all_buffers}
use erssi_lith_bridge.Translator.Identity.{HasNumbers}
use erssi_lith_bridge.Translator.Readings.{HasReadings}
use erssi_lith_bridge.Translator.History.{new_line}
use erssi_lith_bridge.Translator.Examples.{a_host, hello, first_buffer}
use erssi_lith_bridge.Bridge.State.{broadcast, new_bridge}
use erssi_lith_bridge.Bridge.Handlers.{
  handle_erssi_message, dispatch, broadcast_line, system_message, topic_text, joins, opens,
}
use erssi_lith_bridge.Bridge.Events.{Event, from_erssi, from_client, resumes, handle, rest_of, run}
use erssi_lith_bridge.Bridge.Counts.{line_count-decimal}
use erssi_lith_bridge.Bridge.BufferList.{
  IsAscending, IsAmong, sorted_buffers, get_all_buffers_any_order,
}
use erssi_lith_bridge.Translator.Stable.{own-IsRange}
use erssi_lith_bridge.Bridge.Runs.{run-IsMap, still_there, run-HasReadings, run-HasNumbers}
use erssi_lith_bridge.Bridge.Topics.{handle_topic-old_title}
use erssi_lith_bridge.Bridge.Shown.{line_message}
use erssi_lith_bridge.Bridge.Dumps.{joins_are_silent}
use erssi_lith_bridge.Bridge.Request.{
  line_count, find_count, count_here, signed_run, atoi, in_int64, magnitude, run_of, is_digit,
}
use erssi_lith_bridge.Translator.Changes.{SameBuffer}
use erssi_lith_bridge.Proto.Typed.{IsTyped}
use erssi_lith_bridge.Proto.Encoder.{encode_body}
use erssi_lith_bridge.Proto.WireMessage.{read_body}
use erssi_lith_bridge.Proto.RoundTrip.Created.{IsLineData}
use erssi_lith_bridge.Bridge.Made.{made_lines}
use erssi_lith_bridge.Bridge.ReadBack.{made_read_back}
use erssi_lith_bridge.Bridge.Carried.{Carries}
use erssi_lith_bridge.Bridge.Framed.{IsFramed, run-IsTyped, run-IsFramed}

-- one message, which makes the first buffer
abbrev pub start : List Event
start = from_erssi hello ∷ []

abbrev new_topic : WebMessage
new_topic = record (zero_message topic) {
  server_tag = codes "net";
  target = codes "#go";
  text = codes "News";
}

abbrev pub more : List Event
more =
    from_client (codes "1") (codes "init") []
    ∷ from_erssi new_topic
    ∷ from_client (codes "2") (codes "init") []
    ∷ []

pub first_buffer_lem :
    lookup
      (buffer_key a_host (codes "net") (codes "#go"))
      (run a_host start new_bridge).0.translator.buffers
    ≡ some first_buffer
unfolding lookup buffer_key to_lower run handle handle_erssi_message dispatch broadcast_line
    erssi_message_to_line find_or_create ensure_buffer create_buffer_with_topic with_existing
    add_buffer generate_pointer pointer_text hex make_line generate_tags join trim_lines insert
    str_eq incr_int32 digits
first_buffer_lem = refl

run-HasReadings_example : HasReadings a_host (run a_host more new_bridge).0.translator
run-HasReadings_example = run-HasReadings a_host more

few_buffers : length (run a_host start new_bridge).0.translator.buffers ≡ 1
unfolding run handle handle_erssi_message dispatch broadcast_line erssi_message_to_line
    find_or_create ensure_buffer create_buffer_with_topic with_existing add_buffer generate_pointer
    buffer_key to_lower make_line insert lookup str_eq
few_buffers = refl

run-HasNumbers_example : HasNumbers (run a_host start new_bridge).0.translator
run-HasNumbers_example = run-HasNumbers a_host start (omega (arith, few_buffers))

still_there_example :
    (c : BufferState) × (lookup
        (buffer_key a_host (codes "net") (codes "#go"))
        (run a_host more (run a_host start new_bridge).0).0.translator.buffers
      ≡ some c)
    × SameBuffer first_buffer c
still_there_example =
    still_there a_host start more (buffer_key a_host (codes "net") (codes "#go")) first_buffer
      first_buffer_lem

handle_topic-old_title_example :
    let br = (run a_host start new_bridge).0 in
    let line = new_line a_host (system_message new_topic (topic_text new_topic)) br.translator in
    let rest = resumes (opens new_topic.server_tag new_topic.target) in
    ((handle a_host (from_erssi new_topic) br).1 ≡ broadcast (line_message line) ∷ [])
    × (rest_of (from_erssi new_topic) br ≡ rest ∷ [])
    × ((handle a_host rest (run a_host (from_erssi new_topic ∷ more) br).0).1
        ≡ broadcast
            (create_buffers_hdata_with_id (buffer_data first_buffer ∷ []) (codes "_buffer_opened"))
          ∷ [])
handle_topic-old_title_example =
    handle_topic-old_title a_host new_topic more (run a_host start new_bridge).0 first_buffer refl
      first_buffer_lem

abbrev dump : WebMessage
dump = record (zero_message state_dump) { server_tag = codes "net" }

abbrev a_join : WebMessage
a_join = record (zero_message channel_join) {
  server_tag = codes "net";
  target = codes "#go";
  nick = codes "eve";
}

joins_are_silent_example :
    let br = (run a_host more (handle a_host (from_erssi dump) new_bridge).0).0 in
    (rest_of (from_erssi a_join) br ≡ resumes (joins true a_join) ∷ [])
    × ((handle a_host (from_erssi a_join) br).1 ≡ [])
    × ((handle a_host (resumes (joins true a_join)) (run a_host start br).0).1 ≡ [])
joins_are_silent_example = joins_are_silent a_host dump a_join more start new_bridge refl refl

run-IsFramed_example : All IsFramed (run a_host start new_bridge).1
run-IsFramed_example = run-IsFramed a_host start new_bridge

pub ten_lines : line_count (codes "(-10)") ≡ pos 10
unfolding line_count find_count count_here signed_run atoi integer in_int64 magnitude run_of
    is_digit has_prefix
ten_lines = refl

get_all_buffers_any_order_example :
    (get_all_buffers (codes "8") (run a_host start new_bridge).0.translator.buffers
      ≡ create_buffers_hdata_with_id (map buffer_data (sorted_buffers a_host start)) (codes "8"))
    × IsAscending (sorted_buffers a_host start)
    × (length (sorted_buffers a_host start)
        ≡ length (run a_host start new_bridge).0.translator.buffers)
    × All
        (λ (e : Bytes × BufferState). IsAmong (sorted_buffers a_host start) e.1)
        (run a_host start new_bridge).0.translator.buffers
get_all_buffers_any_order_example =
    get_all_buffers_any_order a_host start (codes "8")
      (run a_host start new_bridge).0.translator.buffers (omega (arith, few_buffers))
      (own-IsRange (run a_host start new_bridge).0.translator (run-IsMap a_host start))

run-IsTyped_example : All (Carries IsTyped) (run a_host start new_bridge).1
run-IsTyped_example = run-IsTyped a_host start new_bridge

abbrev a_line : LineData
a_line = record {
  pointer = codes "0x1";
  buffer_ptr = codes "0x2";
  date = pos 17;
  date_printed = pos 18;
  displayed = true;
  highlight = false;
  tags = codes "notify_message";
  prefix = codes "bob";
  message = codes "hi";
}

a_line-IsLineData : IsLineData a_line
a_line-IsLineData = record {
  pointer = omega arith;
  buffer_ptr = omega arith;
  date = omega arith;
  date_printed = omega arith;
  tags = omega arith;
  prefix = omega arith;
  message = omega arith;
}

-- a reply with two lines
made_read_back_example :
    (body : Bytes) × (encode_body (create_lines_hdata_with_id (a_line ∷ a_line ∷ []) (codes "7"))
      ≡ ok body)
    × (read_body (5 + length body) (0 ∷ body)
        ≡ some (create_lines_hdata_with_id (a_line ∷ a_line ∷ []) (codes "7")))
made_read_back_example =
    made_read_back _ (made_lines (a_line ∷ a_line ∷ []) (codes "7"))
      (omega arith, (a_line-IsLineData, (a_line-IsLineData, tt)), omega arith)

line_count-decimal_example : line_count (codes "(-50)") ≡ pos 50
unfolding decimal unsigned digits
line_count-decimal_example = line_count-decimal (negsuc 49) []
