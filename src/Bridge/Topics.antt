-- ===== src/Bridge/Topics.antt =====
-- internal/bridge/bridge.go: what a message about a topic does to the title of its buffer.
use mathlib.Core.Path.{subst}
use erssi_lith_bridge.Base.{
  ◌≡◌, refl, sym, map, true, false, List, [], ◌∷◌, some, Bytes, Bool-cases, Option-cases, inl, inr,
}
use erssi_lith_bridge.Base.Text.{codes}
use erssi_lith_bridge.Base.Assoc.{lookup}
use erssi_lith_bridge.Proto.Create.{create_buffers_hdata_with_id, create_lines_hdata}
use erssi_lith_bridge.Erssi.Types.{
  WebMessage, MessageType, message, state_dump, nicklist, channel_join, channel_part, user_quit,
  topic, activity_update, sync_server, other, is_empty,
}
use erssi_lith_bridge.Translator.State.{BufferState, Host, buffer_key}
use erssi_lith_bridge.Translator.Buffers.{erssi_message_to_line}
use erssi_lith_bridge.Translator.Views.{get_buffer_opened_event, buffer_data, local_variables}
use erssi_lith_bridge.Translator.Changes.{SameBuffer}
use erssi_lith_bridge.Translator.History.{new_line}
use erssi_lith_bridge.Translator.Stable.{Changes-Lasts}
use erssi_lith_bridge.Translator.Titles.{
  KeepsTitle, same-KeepsTitle, then-KeepsTitle, ensure_buffer-KeepsTitle,
  ensure_server_buffer-KeepsTitle, erssi_message_to_line-KeepsTitle,
  erssi_nicklist_to_weechat-KeepsTitle,
}
use erssi_lith_bridge.Bridge.State.{Bridge, broadcast}
use erssi_lith_bridge.Bridge.Handlers.{
  system_message, topic_text, broadcast_line, start_state_dump, handle_nicklist,
  handle_channel_join, handle_channel_part, handle_user_quit, handle_topic, dispatch,
  handle_erssi_message, Rest, makes_server, joins, opens, left, go_on,
}
use erssi_lith_bridge.Bridge.Events.{
  Event, from_erssi, from_client, resumes, handle, rest_of, run, run-Changes,
  translator-handle_weechat_command,
}
use erssi_lith_bridge.Bridge.Shown.{line_message}

module _ (h : Host) (key : Bytes) where
  abbrev Titled : Bridge → Bridge → Type 0
  Titled b b' = KeepsTitle key b.translator.buffers b'.translator.buffers

  line-Titled : (m : WebMessage) (b : Bridge) → Titled b (broadcast_line h m b).0
  unfolding broadcast_line
  line-Titled m b = erssi_message_to_line-KeepsTitle h key m b.translator

  nicklist-Titled : (m : WebMessage) (b : Bridge) → Titled b (handle_nicklist h m b).0
  unfolding handle_nicklist
  nicklist-Titled m b = elim (Bool-cases (is_empty m.text)) [
    | inl none_there ↦ rw (handle_nicklist, none_there) (same-KeepsTitle key b.translator.buffers)
    | inr text ↦ elim (Option-cases (h.parse_nicks m.text)) [
      | inl bad ↦ rw (handle_nicklist, text, bad) (same-KeepsTitle key b.translator.buffers)
      | inr (nicks, good) ↦
          rw (handle_nicklist, text, good)
            (erssi_nicklist_to_weechat-KeepsTitle h key m nicks b.translator)
    ]
  ]

  quit-Titled : (m : WebMessage) (b : Bridge) → Titled b (handle_user_quit h m b).0
  unfolding handle_user_quit
  quit-Titled m b = elim (Bool-cases (is_empty m.target)) [
    | inl nowhere ↦ rw (handle_user_quit, nowhere) (same-KeepsTitle key b.translator.buffers)
    | inr somewhere ↦ rw (handle_user_quit, somewhere) (line-Titled _ b)
  ]

  dispatch-Titled :
      (ty : MessageType) (m : WebMessage) (b : Bridge) → Titled b (dispatch h ty m b).0
  unfolding dispatch start_state_dump handle_channel_part handle_topic
  dispatch-Titled message m b = line-Titled m b
  dispatch-Titled state_dump m b = same-KeepsTitle key b.translator.buffers
  dispatch-Titled nicklist m b = nicklist-Titled m b
  dispatch-Titled channel_join m b = same-KeepsTitle key b.translator.buffers
  dispatch-Titled channel_part m b = line-Titled _ b
  dispatch-Titled user_quit m b = quit-Titled m b
  dispatch-Titled topic m b = line-Titled _ b
  dispatch-Titled activity_update m b = same-KeepsTitle key b.translator.buffers
  dispatch-Titled sync_server m b = same-KeepsTitle key b.translator.buffers
  dispatch-Titled (other t) m b = same-KeepsTitle key b.translator.buffers

  go_on-Titled : (r : Rest) (b : Bridge) → Titled b (go_on h r b).0
  unfolding go_on handle_channel_join
  go_on-Titled (makes_server tag) b = ensure_server_buffer-KeepsTitle h key tag b.translator
  go_on-Titled (joins true m) b = ensure_buffer-KeepsTitle h key m.server_tag m.target b.translator
  go_on-Titled (joins false m) b = line-Titled _ b
  go_on-Titled (opens tag target) b = same-KeepsTitle key b.translator.buffers

  handle-Titled : (e : Event) (b : Bridge) → Titled b (handle h e b).0
  unfolding handle handle_erssi_message
  handle-Titled (from_erssi m) b = dispatch-Titled m.type m b
  handle-Titled (from_client id cmd args) b =
      rw (translator-handle_weechat_command h id cmd args b)
        (same-KeepsTitle key b.translator.buffers)
  handle-Titled (resumes r) b = go_on-Titled r b

  run-Titled : (es : List Event) (b : Bridge) → Titled b (run h es b).0
  unfolding run
  run-Titled [] b = same-KeepsTitle key b.translator.buffers
  run-Titled (e ∷ es) b =
      let b' = (handle h e b).0 in
      then-KeepsTitle key b.translator.buffers b'.translator.buffers
        (run h es b').0.translator.buffers (handle-Titled e b) (run-Titled es b')

same_data : (b c : BufferState) → SameBuffer b c → c.title ≡ b.title → buffer_data c ≡ buffer_data b
unfolding buffer_data local_variables
same_data b c same titled =
    rw
      (
        titled, same.pointer, same.number, same.server_tag, same.name, same.short_name,
        same.is_server,
      )
      refl

opened_now :
    (h : Host) (tag target : Bytes) (es : List Event) (br : Bridge) (b : BufferState)
    → lookup (buffer_key h tag target) br.translator.buffers ≡ some b
    → (go_on h (opens tag target) (run h es br).0).1
      ≡ broadcast (create_buffers_hdata_with_id (buffer_data b ∷ []) (codes "_buffer_opened")) ∷ []
unfolding go_on get_buffer_opened_event
opened_now h tag target es br b found =
    let key = buffer_key h tag target in
    let (c, there, titled) = run-Titled h key es br b found in
    let (d, there', same) = Changes-Lasts key b (run-Changes h es br) found in
    let one : d ≡ c = cc in
    let kept : buffer_data c ≡ buffer_data b =
      same_data b c (subst (SameBuffer b) one same) titled in
    rw (there, kept) refl

topic_line :
    (h : Host) (msg : WebMessage) (br : Bridge)
    → (dispatch h topic msg br).1
      ≡ broadcast (line_message (new_line h (system_message msg (topic_text msg)) br.translator))
        ∷ []
unfolding dispatch handle_topic broadcast_line erssi_message_to_line new_line create_lines_hdata
topic_line h msg br = refl

topic_left :
    (msg : WebMessage) (br : Bridge)
    → map resumes (left topic msg br) ≡ resumes (opens msg.server_tag msg.target) ∷ []
unfolding left
topic_left msg br = refl

-- A message about the topic of a buffer that is there sends the clients a line with the topic's text
-- and then, whatever comes before its handler goes on, the event of an opened buffer in which the
-- buffer has its old title.
pub handle_topic-old_title :
    (h : Host) (msg : WebMessage) (es : List Event) (br : Bridge) (b : BufferState)
    → msg.type ≡ topic
    → lookup (buffer_key h msg.server_tag msg.target) br.translator.buffers ≡ some b
    → let line = new_line h (system_message msg (topic_text msg)) br.translator in
      let rest = resumes (opens msg.server_tag msg.target) in
      ((handle h (from_erssi msg) br).1 ≡ broadcast (line_message line) ∷ [])
      × (rest_of (from_erssi msg) br ≡ rest ∷ [])
      × ((handle h rest (run h (from_erssi msg ∷ es) br).0).1
          ≡ broadcast (create_buffers_hdata_with_id (buffer_data b ∷ []) (codes "_buffer_opened"))
            ∷ [])
unfolding handle handle_erssi_message rest_of
handle_topic-old_title h msg es br b is_topic found =
    let line = new_line h (system_message msg (topic_text msg)) br.translator in
    (
      subst (λ ty. (dispatch h ty msg br).1 ≡ broadcast (line_message line) ∷ []) (sym is_topic)
          (topic_line h msg br),
      subst (λ ty. map resumes (left ty msg br) ≡ resumes (opens msg.server_tag msg.target) ∷ [])
          (sym is_topic) (topic_left msg br),
      opened_now h msg.server_tag msg.target (from_erssi msg ∷ es) br b found,
    )
