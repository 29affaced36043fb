-- ===== src/System/LaterExamples.antt =====
-- What a client types, at concrete lines, and what overtakes another.
use erssi_lith_bridge.Base.{
  ◌≡◌, ◌≤◌, ◌+◌, ◌++◌, refl, [], ◌∷◌, none, some, ok, Bytes, true, false, get_elem?, if◌then◌else◌,
}
use erssi_lith_bridge.Base.Text.{codes, str_eq, cut, trim_space, fields, join, to_lower}
use erssi_lith_bridge.Erssi.Types.{
  WebMessage, message, zero_message, state_dump, channel_join, decoded, null, unmarshal_json,
  take_channel, take_server,
}
use erssi_lith_bridge.Erssi.Client.{Frame, read_frame}
use erssi_lith_bridge.Translator.State.{new_translator}
use erssi_lith_bridge.Translator.History.{new_line}
use erssi_lith_bridge.Translator.Examples.{a_host, ticking, first_buffer, net_Lacks}
use erssi_lith_bridge.Bridge.State.{to_erssi, broadcast}
use erssi_lith_bridge.Bridge.Handlers.{
  left, handle_erssi_message, dispatch, broadcast_line, handle_weechat_command, handle_weechat_init,
  request_state_dump, system_message, request_nicklist,
}
use erssi_lith_bridge.Bridge.Shown.{line_message}
use erssi_lith_bridge.Bridge.Events.{from_client, rest_of, handle}
use erssi_lith_bridge.Weechat.Examples.{log}
use erssi_lith_bridge.Weechat.Command.{parse_line, strip_id}
use erssi_lith_bridge.Weechat.Session.{
  handle_command, new_client, handle_line, dispatch_command, handle_init,
}
use erssi_lith_bridge.Weechat.Server.{Peer, accept, modify, after_line}
use erssi_lith_bridge.System.State.{System, new_system, take_line, run_task, deliver}
use erssi_lith_bridge.System.Runs.{sent_requests, waiting_requests, Reach-asked_once}
use erssi_lith_bridge.System.Steps.{World, accepts, reads_line, runs, Reach, next}
use erssi_lith_bridge.System.Typing.{typed_line}
use erssi_lith_bridge.System.Later.{Leads, stays, goes, typed_line_sent}
use erssi_lith_bridge.System.Overtaking.{read_both, dump_overtaken}
use erssi_lith_bridge.System.Hurried.{typed_event, typed_message, typed_lines_overtake}
use erssi_lith_bridge.System.Examples.{a_world, a_frame, handled, handled_runs, handled_Reach}
use erssi_lith_bridge.System.ArrivalExamples.{a_reader, buffer_there}

two_words : fields (codes " hi   all ") ≡ codes "hi" ∷ codes "all" ∷ []
unfolding fields
two_words = refl

-- one more client came
abbrev joined : System Bytes
joined = record handled { peers = accept [] handled.peers }

handled-Leads : Leads a_world handled joined
handled-Leads = goes stays handled_runs accepts

typed_line_sent_example :
    let task = from_client [] (codes "input") (codes "0x0" ∷ fields (codes " hi   all ")) in
    let msg = record (zero_message message) {
      server_tag = codes "net";
      target = to_lower (λ s. s) (codes "#go");
      text = join (fields (codes " hi   all ")) (codes " ");
    } in
    ((take_line
        (λ w. w)
        0
        (handle_command log none (typed_line (codes "0x0") (codes " hi   all ")) a_reader.client)
        joined).tasks
      ≡ joined.tasks ++ ((some 0, task) ∷ []))
    × ((run_task a_host (some 0) task [] joined).sends
        ≡ joined.sends ++ ((some 0, to_erssi msg) ∷ []))
    × ((deliver log (some 0) (to_erssi msg) joined).sent ≡ joined.sent ++ (msg ∷ []))
typed_line_sent_example =
    typed_line_sent a_world handled joined joined joined 0 a_reader none (codes "net") (codes "#go")
      (codes " hi   all ") (codes "hi") (codes "all" ∷ []) first_buffer [] ticking refl
      handled_Reach buffer_there handled-Leads net_Lacks (λ e. cc) two_words

abbrev a_guest : Peer Bytes
a_guest = record { registered = true; client = new_client [] }

guest_there : get_elem? handled.peers 0 ≡ some a_guest
unfolding run_task accept
guest_there = refl

-- the client said `init`
abbrev typing : System Bytes
typing = take_line (λ w. w) 0 (handle_command log none (codes "init x") (new_client [])) handled

typing_Reach : Reach a_world typing
typing_Reach =
    next handled_Reach handled_runs (reads_line 0 a_guest (codes "init x") none guest_there refl)

typing_there : get_elem? typing.peers 0 ≡ some a_reader
unfolding take_line run_task accept modify after_line handle_command handle_line parse_line strip_id
    cut trim_space fields dispatch_command str_eq handle_init
typing_there = refl

typing_runs : typing.running ≡ true
unfolding take_line run_task handle_command handle_line parse_line strip_id cut trim_space fields
    dispatch_command str_eq handle_init
typing_runs = refl

one_word : fields (codes "hi") ≡ codes "hi" ∷ []
unfolding fields
one_word = refl

another_word : fields (codes "all") ≡ codes "all" ∷ []
unfolding fields
another_word = refl

typed_lines_overtake_example :
    let first = typed_message a_host (codes "net") (codes "#go") (codes "hi") in
    let second = typed_message a_host (codes "net") (codes "#go") (codes "all") in
    (u : System Bytes) × Leads a_world typing u
    × (u.tasks
        ≡ typing.tasks
          ++ ((some 0, typed_event (codes "0x0") (codes "hi"))
              ∷ (some 0, typed_event (codes "0x0") (codes "all"))
              ∷ []))
    × ((t : System Bytes) × Leads a_world u t × (t.sent ≡ typing.sent ++ (second ∷ first ∷ [])))
unfolding take_line run_task
typed_lines_overtake_example =
    typed_lines_overtake a_world typing 0 a_reader none (codes "net") (codes "#go") (codes "hi")
      (codes "all") (codes "hi") (codes "all") [] [] first_buffer ticking typing_Reach typing_runs
      typing_there refl refl buffer_there net_Lacks (λ e. cc) one_word another_word

abbrev a_dump : WebMessage
a_dump = record (zero_message state_dump) { server_tag = codes "net" }

abbrev eve_joins : WebMessage
eve_joins = record (zero_message channel_join) {
  server_tag = codes "net";
  target = codes "#go";
  nick = codes "eve";
}

-- erssi sends a dump as an empty object, and the join as any other
abbrev two_messages : World (Unit {0}) Bytes
two_messages = record a_world {
  decode = λ s.
      if str_eq s (codes "null")
      then null
      else decoded [] (if str_eq s (codes "{}") then a_dump else eve_joins);
}

abbrev another_frame : Frame
another_frame = record { binary = false; payload = codes "[]" }

dump_read : read_frame two_messages.cipher two_messages.decode two_messages.key a_frame ≡ ok a_dump
unfolding read_frame unmarshal_json take_channel take_server str_eq
dump_read = refl

join_read :
    read_frame two_messages.cipher two_messages.decode two_messages.key another_frame ≡ ok eve_joins
unfolding read_frame unmarshal_json take_channel take_server str_eq
join_read = refl

dump_overtaken_example :
    let line =
      new_line a_host (system_message eve_joins (codes "eve has joined #go")) new_translator in
    Leads two_messages new_system (read_both a_dump eve_joins new_system)
    × ((t : System Bytes) × Leads two_messages (read_both a_dump eve_joins new_system) t
        × (t.bridge.in_state_dump ≡ true)
        × (t.sends
            ≡ (none, broadcast (line_message line))
              ∷ (none, request_nicklist (codes "net") (codes "#go"))
              ∷ []))
dump_overtaken_example =
    dump_overtaken two_messages new_system a_frame another_frame a_dump eve_joins refl refl
      dump_read join_read

typing_waits : typing.tasks ≡ (some 0, from_client [] (codes "init") (codes "x" ∷ [])) ∷ []
unfolding take_line run_task handle_command handle_line parse_line strip_id cut trim_space fields
    dispatch_command str_eq handle_init rest_of left
typing_waits = refl

-- the handler of `init` has run, and its request for erssi's state waits
abbrev asked : System Bytes
asked = run_task a_host (some 0) (from_client [] (codes "init") (codes "x" ∷ [])) [] typing

asked_Reach : Reach a_world asked
asked_Reach = next typing_Reach typing_runs (runs [] [] (some 0) _ typing_waits)

one_waits : waiting_requests asked.sends ≡ 1
unfolding waiting_requests run_task take_line handle handle_erssi_message dispatch broadcast_line
    handle_weechat_command str_eq handle_weechat_init request_state_dump
one_waits = refl

Reach-asked_once_example : sent_requests asked.sent + waiting_requests asked.sends ≤ 1
Reach-asked_once_example = Reach-asked_once a_world asked asked_Reach
