-- ===== src/Bridge/Carried.antt =====
-- internal/bridge/bridge.go: what the handlers of erssi's messages send to the clients.
use erssi_lith_bridge.Base.{
  List, [], ◌∷◌, Bytes, Bool, true, false, Bool-cases, Option-cases, inl, inr, All,
}
use erssi_lith_bridge.Base.Text.{codes}
use erssi_lith_bridge.Base.Assoc.{lookup}
use erssi_lith_bridge.Proto.Types.{Message}
use erssi_lith_bridge.Bridge.Made.{IsMade, made_buffers, made_lines, made_nicklist}
use erssi_lith_bridge.Proto.Create.{create_lines_hdata}
use erssi_lith_bridge.Erssi.Types.{
  WebMessage, MessageType, message, state_dump, nicklist, channel_join, channel_part, user_quit,
  topic, activity_update, sync_server, other, is_empty, NickInfo,
}
use erssi_lith_bridge.Translator.State.{Translator, Host, buffer_key}
use erssi_lith_bridge.Translator.Buffers.{
  erssi_message_to_line, erssi_nicklist_to_weechat, find_or_create, make_line, make_nicks,
}
use erssi_lith_bridge.Translator.Views.{get_buffer_opened_event, buffer_data}
use erssi_lith_bridge.Bridge.State.{Bridge, Effect, broadcast, reply, to_erssi, crash}
use erssi_lith_bridge.Bridge.Handlers.{
  request_nicklist, broadcast_line, start_state_dump, handle_nicklist, handle_channel_join,
  handle_channel_part, handle_user_quit, handle_topic, dispatch, Rest, makes_server, joins, opens,
  go_on,
}

-- What a send to a client carries.
abbrev pub Carries : (Message → Type 0) → Effect → Type 0
Carries P (broadcast msg) = P msg
Carries P (reply msg) = P msg
Carries P (to_erssi msg) = Unit
Carries P crash = Unit

abbrev pub AreMade : List Effect → Type 0
AreMade = All (Carries IsMade)

module _ (h : Host) where
  line-IsMade : (msg : WebMessage) (t : Translator) → IsMade (erssi_message_to_line h msg t).0
  unfolding erssi_message_to_line create_lines_hdata
  line-IsMade msg t =
      let (buffer, t') = find_or_create h msg.server_tag msg.target t in
      made_lines ((make_line h msg buffer.pointer t').0 ∷ []) []

  nicks-IsMade :
      (msg : WebMessage) (nicks : List NickInfo) (t : Translator)
      → IsMade (erssi_nicklist_to_weechat h msg nicks t).0
  unfolding erssi_nicklist_to_weechat
  nicks-IsMade msg nicks t =
      made_nicklist (make_nicks h nicks (find_or_create h msg.server_tag msg.target t).1).0

  opened-IsMade :
      (tag target : Bytes) (t : Translator) → IsMade (get_buffer_opened_event h tag target t)
  unfolding get_buffer_opened_event
  opened-IsMade tag target t = elim (Option-cases (lookup (buffer_key h tag target) t.buffers)) [
    | inl e ↦ rw (get_buffer_opened_event, e) (made_buffers [] (codes "_buffer_opened"))
    | inr (b, e) ↦
        rw (get_buffer_opened_event, e) (made_buffers (buffer_data b ∷ []) (codes "_buffer_opened"))
  ]

  broadcast_line-AreMade : (msg : WebMessage) (b : Bridge) → AreMade (broadcast_line h msg b).1
  unfolding broadcast_line
  broadcast_line-AreMade msg b = (line-IsMade msg b.translator, tt)

  nicklist-AreMade : (msg : WebMessage) (b : Bridge) → AreMade (handle_nicklist h msg b).1
  unfolding handle_nicklist
  nicklist-AreMade msg b = elim (Bool-cases (is_empty msg.text)) [
    | inl e ↦ rw (handle_nicklist, e) tt
    | inr e ↦ elim (Option-cases (h.parse_nicks msg.text)) [
      | inl bad ↦ rw (handle_nicklist, e, bad) tt
      | inr (nicks, good) ↦ rw (handle_nicklist, e, good) (nicks-IsMade msg nicks b.translator, tt)
    ]
  ]

  join-AreMade :
      (dumping : Bool) (msg : WebMessage) (b : Bridge)
      → AreMade (handle_channel_join h dumping msg b).1
  unfolding handle_channel_join broadcast_line request_nicklist
  join-AreMade true msg b = tt
  join-AreMade false msg b = (line-IsMade _ b.translator, (tt, tt))

  pub go_on-AreMade : (r : Rest) (b : Bridge) → AreMade (go_on h r b).1
  unfolding go_on
  go_on-AreMade (makes_server tag) b = tt
  go_on-AreMade (joins dumping msg) b = join-AreMade dumping msg b
  go_on-AreMade (opens tag target) b = (opened-IsMade tag target b.translator, tt)

  quit-AreMade : (msg : WebMessage) (b : Bridge) → AreMade (handle_user_quit h msg b).1
  unfolding handle_user_quit
  quit-AreMade msg b = elim (Bool-cases (is_empty msg.target)) [
    | inl e ↦ rw (handle_user_quit, e) tt
    | inr e ↦ rw (handle_user_quit, e) (broadcast_line-AreMade _ b)
  ]

  pub dispatch-AreMade :
      (ty : MessageType) (msg : WebMessage) (b : Bridge) → AreMade (dispatch h ty msg b).1
  unfolding dispatch start_state_dump broadcast_line handle_channel_part handle_topic
      request_nicklist
  dispatch-AreMade message msg b = broadcast_line-AreMade msg b
  dispatch-AreMade state_dump msg b = tt
  dispatch-AreMade nicklist msg b = nicklist-AreMade msg b
  dispatch-AreMade channel_join msg b = tt
  dispatch-AreMade channel_part msg b = (line-IsMade _ b.translator, (tt, tt))
  dispatch-AreMade user_quit msg b = quit-AreMade msg b
  dispatch-AreMade topic msg b = (line-IsMade _ b.translator, tt)
  dispatch-AreMade activity_update msg b = tt
  dispatch-AreMade sync_server msg b = tt
  dispatch-AreMade (other t) msg b = tt
