-- ===== src/Bridge/Lines.antt =====
-- internal/bridge/bridge.go: the lines that the buffers keep after a run.
use erssi_lith_bridge.Base.{
  ◌≤◌, ◌≡◌, refl, sym, ap, ◌∙◌, Bool, true, false, List, [], ◌∷◌, ◌++◌, append-nil, append_assoc,
  Option, none, some, Bytes, length, Bool-cases, Option-cases, inl, inr, if◌then◌else◌, arith,
}
use erssi_lith_bridge.Base.Text.{codes, str_eq}
use erssi_lith_bridge.Base.Assoc.{lookup}
use erssi_lith_bridge.Proto.Create.{LineData}
use erssi_lith_bridge.Erssi.Types.{
  WebMessage, MessageType, message, state_dump, nicklist, channel_join, channel_part, user_quit,
  topic, activity_update, sync_server, other, is_empty,
}
use erssi_lith_bridge.Translator.State.{BufferState, Host, Translator, buffer_key}
use erssi_lith_bridge.Translator.Buffers.{trim_lines}
use erssi_lith_bridge.Translator.History.{
  new_line, lines_of, trim_lines-append, trim_twice, length-trim_lines,
  lines_of-erssi_message_to_line,
}
use erssi_lith_bridge.Translator.Kept.{
  lines_of-ensure_buffer, lines_of-ensure_server_buffer, lines_of-erssi_nicklist_to_weechat,
}
use erssi_lith_bridge.Bridge.State.{Bridge, new_bridge}
use erssi_lith_bridge.Bridge.Handlers.{
  system_message, part_text, quit_text, topic_text, broadcast_line, start_state_dump,
  handle_nicklist, handle_channel_join, handle_channel_part, handle_user_quit, handle_topic,
  dispatch, handle_erssi_message, Rest, makes_server, joins, opens, go_on,
}
use erssi_lith_bridge.Bridge.Events.{
  Event, from_erssi, from_client, resumes, handle, run, translator-handle_weechat_command,
}

-- What the first step of a message's handler shows: the message itself, or a system message about a
-- part, a quit that names its channel, or a topic.
abbrev pub shown_as : MessageType → WebMessage → Option WebMessage
shown_as message m = some m
shown_as channel_part m = some (system_message m (part_text m))
shown_as user_quit m = if is_empty m.target then none else some (system_message m (quit_text m))
shown_as topic m = some (system_message m (topic_text m))
shown_as _ m = none

-- A join that was found to be no part of a dump is shown where its handler goes on.
abbrev pub shown_by : Rest → Option WebMessage
shown_by (joins false m) = some (system_message m (m.nick ++ (codes " has joined " ++ m.target)))
shown_by _ = none

abbrev pub shown : Event → Option WebMessage
shown (from_erssi m) = shown_as m.type m
shown (from_client id cmd args) = none
shown (resumes r) = shown_by r

-- The line of what is shown, where it is for the buffer of the key.
abbrev pub line_for : Host → Bytes → Option WebMessage → Bridge → List LineData
line_for h key none b = []
line_for h key (some m) b =
    if str_eq (buffer_key h m.server_tag m.target) key then new_line h m b.translator ∷ [] else []

-- All the lines that a run makes for a key, oldest first.
unfoldable pub lines_shown : Host → Bytes → List Event → Bridge → List LineData
lines_shown h key [] b = []
lines_shown h key (e ∷ es) b = line_for h key (shown e) b ++ lines_shown h key es (handle h e b).0

module _ (h : Host) (key : Bytes) where
  -- After a step the buffer keeps the last of its lines and the new ones.
  abbrev Keeps : List LineData → Translator → Translator → Type 0
  Keeps new t t' =
      trim_lines (lines_of key t) ≡ lines_of key t
      → lines_of key t' ≡ trim_lines (lines_of key t ++ new)

  silent-Keeps : (t t' : Translator) → lines_of key t' ≡ lines_of key t → Keeps [] t t'
  silent-Keeps t t' same full = same ∙ sym full ∙ ap trim_lines (sym (append-nil (lines_of key t)))

  line-Keeps :
      (m : WebMessage) (b : Bridge)
      → Keeps (line_for h key (some m) b) b.translator (broadcast_line h m b).0.translator
  unfolding broadcast_line
  line-Keeps m b full =
      lines_of-erssi_message_to_line h m key b.translator
      ∙ elim (Bool-cases (str_eq (buffer_key h m.server_tag m.target) key)) [
        | inl here ↦ rw here refl
        | inr elsewhere ↦ rw elsewhere (silent-Keeps b.translator b.translator refl full)
      ]

  join-Keeps :
      (dumping : Bool) (m : WebMessage) (b : Bridge)
      → Keeps
          (line_for h key (shown_by (joins dumping m)) b)
          b.translator
          (handle_channel_join h dumping m b).0.translator
  unfolding handle_channel_join
  join-Keeps true m b =
      silent-Keeps b.translator _ (lines_of-ensure_buffer h m.server_tag m.target key b.translator)
  join-Keeps false m b = line-Keeps _ b

  go_on-Keeps :
      (r : Rest) (b : Bridge)
      → Keeps (line_for h key (shown_by r) b) b.translator (go_on h r b).0.translator
  unfolding go_on
  go_on-Keeps (makes_server tag) b =
      silent-Keeps b.translator _ (lines_of-ensure_server_buffer h tag key b.translator)
  go_on-Keeps (joins dumping m) b = join-Keeps dumping m b
  go_on-Keeps (opens tag target) b = silent-Keeps b.translator b.translator refl

  quit-Keeps :
      (m : WebMessage) (b : Bridge)
      → Keeps
          (line_for h key (shown_as user_quit m) b)
          b.translator
          (handle_user_quit h m b).0.translator
  unfolding handle_user_quit
  quit-Keeps m b full = elim (Bool-cases (is_empty m.target)) [
    | inl nowhere ↦
        rw (handle_user_quit, nowhere) (silent-Keeps b.translator b.translator refl full)
    | inr somewhere ↦ rw (handle_user_quit, somewhere) (line-Keeps _ b full)
  ]

  nicklist-Keeps :
      (m : WebMessage) (b : Bridge) → Keeps [] b.translator (handle_nicklist h m b).0.translator
  unfolding handle_nicklist
  nicklist-Keeps m b full = elim (Bool-cases (is_empty m.text)) [
    | inl none_there ↦
        rw (handle_nicklist, none_there) (silent-Keeps b.translator b.translator refl full)
    | inr text ↦ elim (Option-cases (h.parse_nicks m.text)) [
      | inl bad ↦ rw (handle_nicklist, text, bad) (silent-Keeps b.translator b.translator refl full)
      | inr (nicks, good) ↦
          rw (handle_nicklist, text, good)
            (silent-Keeps b.translator _
              (lines_of-erssi_nicklist_to_weechat h m nicks key b.translator) full)
    ]
  ]

  dispatch-Keeps :
      (ty : MessageType) (m : WebMessage) (b : Bridge)
      → Keeps (line_for h key (shown_as ty m) b) b.translator (dispatch h ty m b).0.translator
  unfolding dispatch start_state_dump handle_channel_part handle_topic
  dispatch-Keeps message m b = line-Keeps m b
  dispatch-Keeps state_dump m b = silent-Keeps b.translator b.translator refl
  dispatch-Keeps nicklist m b = nicklist-Keeps m b
  dispatch-Keeps channel_join m b = silent-Keeps b.translator b.translator refl
  dispatch-Keeps channel_part m b = line-Keeps _ b
  dispatch-Keeps user_quit m b = quit-Keeps m b
  dispatch-Keeps topic m b = line-Keeps _ b
  dispatch-Keeps activity_update m b = silent-Keeps b.translator b.translator refl
  dispatch-Keeps sync_server m b = silent-Keeps b.translator b.translator refl
  dispatch-Keeps (other t) m b = silent-Keeps b.translator b.translator refl

  handle-Keeps :
      (e : Event) (b : Bridge)
      → Keeps (line_for h key (shown e) b) b.translator (handle h e b).0.translator
  unfolding handle handle_erssi_message
  handle-Keeps (from_erssi m) b = dispatch-Keeps m.type m b
  handle-Keeps (from_client id cmd args) b =
      silent-Keeps b.translator _
        (ap (lines_of key) (translator-handle_weechat_command h id cmd args b))
  handle-Keeps (resumes r) b = go_on-Keeps r b

  run-Keeps :
      (es : List Event) (b : Bridge)
      → Keeps (lines_shown h key es b) b.translator (run h es b).0.translator
  unfolding run lines_shown
  run-Keeps [] b full = silent-Keeps b.translator b.translator refl full
  run-Keeps (e ∷ es) b full =
      let old = lines_of key b.translator in
      let new = line_for h key (shown e) b in
      let b' = (handle h e b).0 in
      let now = handle-Keeps e b full in
      let again = ap trim_lines now ∙ trim_twice (old ++ new) ∙ sym now in
      run-Keeps es b' again
      ∙ ap (λ ls. trim_lines (ls ++ lines_shown h key es b')) now
      ∙ trim_lines-append (old ++ new) (lines_shown h key es b')
      ∙ ap trim_lines (append_assoc old new (lines_shown h key es b'))

pub run-lines_shown :
    (h : Host) (key : Bytes) (es : List Event)
    → (lines_of key (run h es new_bridge).0.translator
        ≡ trim_lines (lines_shown h key es new_bridge))
      × (length (lines_of key (run h es new_bridge).0.translator) ≤ 500)
unfolding lines_of lookup trim_lines
run-lines_shown h key es =
    let e = run-Keeps h key es new_bridge refl in
    (e, omega (arith, ap length e, length-trim_lines (lines_shown h key es new_bridge)))

-- The same bound for a buffer that is there.
pub run-few_lines :
    (h : Host) (key : Bytes) (es : List Event) (b : BufferState)
    → lookup key (run h es new_bridge).0.translator.buffers ≡ some b
    → length b.lines ≤ 500
unfolding lines_of
run-few_lines h key es b found =
    let same : lines_of key (run h es new_bridge).0.translator ≡ b.lines =
      rw (lines_of, found) refl in
    omega (arith, ap length same, (run-lines_shown h key es).1)
