-- ===== src/Bridge/Events.antt =====
-- A run of the bridge: messages from erssi, commands of clients and what is left of the handlers, one
-- after the other.
use erssi_lith_bridge.Base.{
  ◌≡◌, Bool, true, false, map, List, [], ◌∷◌, ◌++◌, Bytes, Bool-cases, Option-cases, inl, inr,
  arith,
}
use erssi_lith_bridge.Erssi.Types.{
  WebMessage, MessageType, message, state_dump, nicklist, channel_join, channel_part, user_quit,
  topic, activity_update, sync_server, other, is_empty,
}
use erssi_lith_bridge.Translator.State.{Host}
use erssi_lith_bridge.Translator.Changes.{
  Changes, here, then-Changes, ensure_buffer-Yields, ensure_server_buffer-Yields,
  erssi_message_to_line-Changes, erssi_nicklist_to_weechat-Changes,
}
use erssi_lith_bridge.Bridge.State.{Bridge, Effect}
use erssi_lith_bridge.Bridge.Handlers.{
  broadcast_line, start_state_dump, handle_nicklist, handle_channel_join, handle_channel_part,
  handle_user_quit, handle_topic, dispatch, handle_erssi_message, handle_weechat_init,
  handle_weechat_command, Rest, makes_server, joins, opens, left, go_on,
}

pub data Event : Type 0 where
  from_erssi : WebMessage → Event
  from_client : Bytes → Bytes → List Bytes → Event  -- the identifier, the command, its words
  resumes : Rest → Event

unfoldable pub handle : Host → Event → Bridge → Bridge × List Effect
handle h (from_erssi msg) b = handle_erssi_message h msg b
handle h (from_client id cmd args) b = handle_weechat_command id cmd args b
handle h (resumes r) b = go_on h r b

-- What is left of the handler of an event.
unfoldable pub rest_of : Event → Bridge → List Event
rest_of (from_erssi msg) b = map resumes (left msg.type msg b)
rest_of (from_client id cmd args) b = []
rest_of (resumes r) b = []

-- The state after a run of steps in any order, and all that the run asked for.
unfoldable pub run : Host → List Event → Bridge → Bridge × List Effect
run h [] b = (b, [])
run h (e ∷ es) b =
    let (b', out) = handle h e b in let (b'', rest) = run h es b' in (b'', out ++ rest)

-- The same where each handler comes to its end before the rest_of one starts.
unfoldable pub run_whole : Host → List Event → Bridge → Bridge × List Effect
run_whole h [] b = (b, [])
run_whole h (e ∷ es) b =
    let (b', out) = run h (e ∷ rest_of e b) b in
    let (b'', rest) = run_whole h es b' in (b'', out ++ rest)

module _ (h : Host) where
  broadcast_line-Changes :
      (msg : WebMessage) (b : Bridge) → Changes h b.translator (broadcast_line h msg b).0.translator
  unfolding broadcast_line
  broadcast_line-Changes msg b = erssi_message_to_line-Changes h msg b.translator

  handle_nicklist-Changes :
      (msg : WebMessage) (b : Bridge)
      → Changes h b.translator (handle_nicklist h msg b).0.translator
  unfolding handle_nicklist
  handle_nicklist-Changes msg b = elim (Bool-cases (is_empty msg.text)) [
    | inl e ↦ rw (handle_nicklist, e) here
    | inr e ↦ elim (Option-cases (h.parse_nicks msg.text)) [
      | inl bad ↦ rw (handle_nicklist, e, bad) here
      | inr (nicks, good) ↦
          rw (handle_nicklist, e, good) (erssi_nicklist_to_weechat-Changes h msg nicks b.translator)
    ]
  ]

  handle_channel_join-Changes :
      (dumping : Bool) (msg : WebMessage) (b : Bridge)
      → Changes h b.translator (handle_channel_join h dumping msg b).0.translator
  unfolding handle_channel_join broadcast_line
  handle_channel_join-Changes true msg b =
      (ensure_buffer-Yields h msg.server_tag msg.target b.translator).0
  handle_channel_join-Changes false msg b = broadcast_line-Changes _ b

  handle_user_quit-Changes :
      (msg : WebMessage) (b : Bridge)
      → Changes h b.translator (handle_user_quit h msg b).0.translator
  unfolding handle_user_quit
  handle_user_quit-Changes msg b = elim (Bool-cases (is_empty msg.target)) [
    | inl e ↦ rw (handle_user_quit, e) here
    | inr e ↦ rw (handle_user_quit, e) (broadcast_line-Changes _ b)
  ]

  dispatch-Changes :
      (ty : MessageType) (msg : WebMessage) (b : Bridge)
      → Changes h b.translator (dispatch h ty msg b).0.translator
  unfolding dispatch start_state_dump handle_channel_part handle_topic
  dispatch-Changes message msg b = broadcast_line-Changes msg b
  dispatch-Changes state_dump msg b = here
  dispatch-Changes nicklist msg b = handle_nicklist-Changes msg b
  dispatch-Changes channel_join msg b = here
  dispatch-Changes channel_part msg b = broadcast_line-Changes _ b
  dispatch-Changes user_quit msg b = handle_user_quit-Changes msg b
  dispatch-Changes topic msg b = broadcast_line-Changes _ b
  dispatch-Changes activity_update msg b = here
  dispatch-Changes sync_server msg b = here
  dispatch-Changes (other t) msg b = here

  go_on-Changes : (r : Rest) (b : Bridge) → Changes h b.translator (go_on h r b).0.translator
  unfolding go_on
  go_on-Changes (makes_server tag) b = (ensure_server_buffer-Yields h tag b.translator).0
  go_on-Changes (joins dumping msg) b = handle_channel_join-Changes dumping msg b
  go_on-Changes (opens tag target) b = here

  -- A client's command leaves the translator as it is.
  pub translator-handle_weechat_command :
      (id cmd : Bytes) (args : List Bytes) (b : Bridge)
      → (handle_weechat_command id cmd args b).0.translator ≡ b.translator
  unfolding handle_weechat_command handle_weechat_init
  translator-handle_weechat_command id cmd args b = ground arith

  handle-Changes : (e : Event) (b : Bridge) → Changes h b.translator (handle h e b).0.translator
  unfolding handle handle_erssi_message
  handle-Changes (from_erssi msg) b = dispatch-Changes msg.type msg b
  handle-Changes (from_client id cmd args) b =
      rw (translator-handle_weechat_command id cmd args b) here
  handle-Changes (resumes r) b = go_on-Changes r b

  -- A run changes the translator only in small changes.
  pub run-Changes :
      (es : List Event) (b : Bridge) → Changes h b.translator (run h es b).0.translator
  unfolding run
  run-Changes [] b = here
  run-Changes (e ∷ es) b = then-Changes (handle-Changes e b) (run-Changes es (handle h e b).0)
