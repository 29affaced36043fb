-- ===== src/Bridge/Handlers.antt =====
-- internal/bridge/bridge.go: the handlers of erssi's messages and of the clients' commands, with
-- the requests of internal/erssi/client.go that they make. A handler that takes a second lock after a
-- first has `left` a rest, which goes on where other handlers can have come between.
use erssi_lith_bridge.Base.{
  Bool, true, ◌&&◌, ◌||◌, not, List, [], ◌∷◌, ◌++◌, none, some, Bytes, ok, err, panic,
  if◌then◌else◌,
}
use erssi_lith_bridge.Base.Text.{codes, str_eq, contains}
use erssi_lith_bridge.Erssi.Types.{
  WebMessage, MessageType, message, state_dump, nicklist, channel_join, channel_part, user_quit,
  topic, activity_update, sync_server, other, zero_message, is_empty,
}
use erssi_lith_bridge.Translator.State.{Host}
use erssi_lith_bridge.Translator.Buffers.{
  ensure_buffer, ensure_server_buffer, erssi_message_to_line, erssi_nicklist_to_weechat,
}
use erssi_lith_bridge.Translator.Views.{
  parse_input_command, parse_hdata_command, input_to_erssi_command, get_buffer_info,
  get_buffer_lines, get_all_buffers, get_buffer_opened_event, get_empty_hotlist,
}
use erssi_lith_bridge.Bridge.State.{Bridge, Effect, broadcast, reply, to_erssi, crash}
use erssi_lith_bridge.Bridge.Request.{find_buffer_pointer, line_count}

-- RequestStateDump and RequestNicklist.
unfoldable pub request_state_dump : Effect
request_state_dump = to_erssi (record (zero_message sync_server) { server = codes "*" })

unfoldable pub request_nicklist : Bytes → Bytes → Effect
request_nicklist server_tag channel =
    to_erssi (record (zero_message nicklist) { server_tag = server_tag; target = channel })

-- The system message that a handler makes of another: the nick `--`, and a text.
unfoldable pub system_message : WebMessage → Bytes → WebMessage
system_message msg text = record (zero_message message) {
  server_tag = msg.server_tag;
  target = msg.target;
  nick = codes "--";
  text = text;
  timestamp = msg.timestamp;
}

unfoldable pub part_text : WebMessage → Bytes
part_text msg =
    if is_empty msg.text
    then msg.nick ++ (codes " has left " ++ msg.target)
    else msg.nick ++ (codes " has left " ++ (msg.target ++ (codes " (" ++ (msg.text ++ codes ")"))))

unfoldable pub quit_text : WebMessage → Bytes
quit_text msg =
    if is_empty msg.text
    then msg.nick ++ codes " has quit"
    else msg.nick ++ (codes " has quit (" ++ (msg.text ++ codes ")"))

unfoldable pub topic_text : WebMessage → Bytes
topic_text msg =
    if is_empty msg.nick
    then codes "Topic: " ++ msg.text
    else msg.nick ++ (codes " has changed topic to: " ++ msg.text)

-- What is left of a handler: the buffer of the server whose dump starts, a join with the flag of the
-- dump as it was read, or the event of the buffer whose topic was changed.
pub data Rest : Type 0 where
  makes_server : Bytes → Rest
  joins : Bool → WebMessage → Rest
  opens : Bytes → Bytes → Rest

unfoldable pub left : MessageType → WebMessage → Bridge → List Rest
left state_dump msg b = makes_server msg.server_tag ∷ []
left channel_join msg b = joins b.in_state_dump msg ∷ []
left topic msg b = opens msg.server_tag msg.target ∷ []
left _ msg b = []

-- The flags of a dump, which are set under the lock of the bridge.
unfoldable pub start_state_dump : WebMessage → Bridge → Bridge × List Effect
start_state_dump msg b = (record b { in_state_dump = true; state_dump_server = msg.server_tag }, [])

module _ (h : Host) where
  -- A line is made of the message and sent to the clients.
  unfoldable pub broadcast_line : WebMessage → Bridge → Bridge × List Effect
  broadcast_line msg b =
      let (out, t) = erssi_message_to_line h msg b.translator in
      (record b { translator = t }, broadcast out ∷ [])

  unfoldable pub handle_nicklist : WebMessage → Bridge → Bridge × List Effect
  handle_nicklist msg b = if is_empty msg.text then (b, []) else elim (h.parse_nicks msg.text) [
    | none ↦ (b, [])
    | some nicks ↦
        let (out, t) = erssi_nicklist_to_weechat h msg nicks b.translator in
        (record b { translator = t }, broadcast out ∷ [])
  ]

  unfoldable pub handle_channel_join : Bool → WebMessage → Bridge → Bridge × List Effect
  handle_channel_join in_state_dump msg b =
      if in_state_dump
      then (
        record b { translator = (ensure_buffer h msg.server_tag msg.target b.translator).1 },
        [],
      )
      else let text = msg.nick ++ (codes " has joined " ++ msg.target) in
        let (b', out) = broadcast_line (system_message msg text) b in
        (b', out ++ (request_nicklist msg.server_tag msg.target ∷ []))

  unfoldable pub handle_channel_part : WebMessage → Bridge → Bridge × List Effect
  handle_channel_part msg b =
      let (b', out) = broadcast_line (system_message msg (part_text msg)) b in
      (b', out ++ (request_nicklist msg.server_tag msg.target ∷ []))

  unfoldable pub handle_user_quit : WebMessage → Bridge → Bridge × List Effect
  handle_user_quit msg b =
      if is_empty msg.target then (b, []) else broadcast_line (system_message msg (quit_text msg)) b

  unfoldable pub handle_topic : WebMessage → Bridge → Bridge × List Effect
  handle_topic msg b = broadcast_line (system_message msg (topic_text msg)) b

  abbrev pub make_server_buffer : Bytes → Bridge → Bridge × List Effect
  make_server_buffer tag b =
      (record b { translator = (ensure_server_buffer h tag b.translator).1 }, [])

  abbrev pub broadcast_opened : Bytes → Bytes → Bridge → Bridge × List Effect
  broadcast_opened tag target b =
      (b, broadcast (get_buffer_opened_event h tag target b.translator) ∷ [])

  unfoldable pub go_on : Rest → Bridge → Bridge × List Effect
  go_on (makes_server tag) b = make_server_buffer tag b
  go_on (joins in_state_dump msg) b = handle_channel_join in_state_dump msg b
  go_on (opens tag target) b = broadcast_opened tag target b

  unfoldable pub dispatch : MessageType → WebMessage → Bridge → Bridge × List Effect
  dispatch message msg b = broadcast_line msg b
  dispatch state_dump msg b = start_state_dump msg b
  dispatch nicklist msg b = handle_nicklist msg b
  dispatch channel_join msg b = (b, [])
  dispatch channel_part msg b = handle_channel_part msg b
  dispatch user_quit msg b = handle_user_quit msg b
  dispatch topic msg b = handle_topic msg b
  dispatch activity_update msg b = (b, [])
  dispatch sync_server msg b = (b, [])
  dispatch (other t) msg b = (b, [])

  -- The handler up to where it lets go of its first lock.
  unfoldable pub handle_erssi_message : WebMessage → Bridge → Bridge × List Effect
  handle_erssi_message msg b = dispatch msg.type msg b

-- `init`: the first client makes the bridge ask for the state.
unfoldable pub handle_weechat_init : Bridge → Bridge × List Effect
handle_weechat_init b =
    if b.state_dump_requested
    then (b, [])
    else (record b { state_dump_requested = true }, request_state_dump ∷ [])

unfoldable pub handle_line_request : Bytes → Bytes → Bytes → Bridge → List Effect
handle_line_request id path params b = elim (find_buffer_pointer path) [
  | none ↦ []
  | some ptr ↦ elim (get_buffer_lines ptr (line_count params) id b.translator.buffers) [
    | ok out ↦ reply out ∷ []
    | err e ↦ []
    | panic ↦ crash ∷ []
  ]
]

unfoldable pub handle_weechat_hdata : Bytes → List Bytes → Bridge → List Effect
handle_weechat_hdata id args b = elim (parse_hdata_command args) [
  | err e ↦ []
  | panic ↦ crash ∷ []
  | ok (path, params) ↦
      if str_eq path (codes "buffer:gui_buffers(*)") || str_eq path (codes "buffer:gui_buffers")
      then reply (get_all_buffers id b.translator.buffers) ∷ []
      else if contains path (codes "lines")
      then handle_line_request id path params b
      else if str_eq path (codes "hotlist:gui_hotlist(*)")
      then reply (get_empty_hotlist id) ∷ []
      else []
]

unfoldable pub handle_weechat_input : List Bytes → Bridge → List Effect
handle_weechat_input args b = elim (parse_input_command args) [
  | err e ↦ []
  | panic ↦ crash ∷ []
  | ok (ptr, text) ↦ elim (input_to_erssi_command ptr text b.translator.buffers) [
    | ok msg ↦ to_erssi msg ∷ []
    | err e ↦ []
    | panic ↦ crash ∷ []
  ]
]

unfoldable pub handle_weechat_nicklist : List Bytes → Bridge → List Effect
handle_weechat_nicklist [] b = []
handle_weechat_nicklist (ptr ∷ _) b =
    let info = get_buffer_info ptr b.translator.buffers in
    if not (is_empty info.0) && not (is_empty info.1)
    then request_nicklist info.0 info.1 ∷ []
    else []

unfoldable pub handle_weechat_command : Bytes → Bytes → List Bytes → Bridge → Bridge × List Effect
handle_weechat_command id cmd args b =
    if str_eq cmd (codes "init")
    then handle_weechat_init b
    else if str_eq cmd (codes "hdata")
    then (b, handle_weechat_hdata id args b)
    else if str_eq cmd (codes "input")
    then (b, handle_weechat_input args b)
    else if str_eq cmd (codes "nicklist")
    then (b, handle_weechat_nicklist args b)
    else (b, [])
