-- ===== src/Bridge/Shown.antt =====
-- internal/bridge/bridge.go: what a step of a handler shows is sent to all clients, first of all that the
-- step sends.
use erssi_lith_bridge.Base.{
  ◌≡◌, refl, ap, ◌∙◌, Bool, true, false, if◌then◌else◌, List, [], ◌∷◌, none, some,
}
use erssi_lith_bridge.Proto.Types.{Message}
use erssi_lith_bridge.Proto.Create.{LineData, create_lines_hdata, create_lines_hdata_with_id}
use erssi_lith_bridge.Erssi.Types.{
  WebMessage, MessageType, message, state_dump, nicklist, channel_join, channel_part, user_quit,
  topic, activity_update, sync_server, other, is_empty,
}
use erssi_lith_bridge.Translator.State.{Host}
use erssi_lith_bridge.Translator.Buffers.{erssi_message_to_line}
use erssi_lith_bridge.Translator.History.{new_line}
use erssi_lith_bridge.Bridge.State.{Bridge, Effect, broadcast}
use erssi_lith_bridge.Bridge.Handlers.{
  broadcast_line, handle_channel_join, handle_channel_part, handle_user_quit, handle_topic,
  dispatch, handle_erssi_message, Rest, makes_server, joins, opens, go_on,
}
use erssi_lith_bridge.Bridge.Events.{Event, from_erssi, from_client, resumes, handle}
use erssi_lith_bridge.Bridge.Lines.{shown_as, shown_by, shown}

-- The message that tells the clients of a line.
abbrev pub line_message : LineData → Message
line_message l = create_lines_hdata_with_id (l ∷ []) []

-- The sends begin with the line of the message, to all clients.
abbrev pub Shows : Host → WebMessage → Bridge → List Effect → Type 0
Shows h m b out =
    (rest : List Effect) × (out ≡ broadcast (line_message (new_line h m b.translator)) ∷ rest)

module _ (h : Host) where
  line-Shows : (m : WebMessage) (b : Bridge) → Shows h m b (broadcast_line h m b).1
  unfolding broadcast_line erssi_message_to_line new_line create_lines_hdata
  line-Shows m b = ([], refl)

  same-Shows :
      (m m' : WebMessage) (b : Bridge) (out : List Effect)
      → m ≡ m'
      → Shows h m b out
      → Shows h m' b out
  same-Shows m m' b out e (rest, s) = (
    rest,
    s ∙ ap (λ (n : WebMessage). broadcast (line_message (new_line h n b.translator)) ∷ rest) e,
  )

  -- A step that sends nothing where nothing is shown.
  unless-Shows :
      (silent : Bool) (m m' : WebMessage) (b : Bridge) (x y : Bridge × List Effect)
      → (if silent then none else some m) ≡ some m'
      → Shows h m b y.1
      → Shows h m' b (if silent then x else y).1
  unless-Shows true m m' b x y e shows = cc
  unless-Shows false m m' b x y e shows =
      same-Shows m m' b y.1 (let same : m ≡ m' = cc in same) shows

  go_on-Shows :
      (r : Rest) (m' : WebMessage) (b : Bridge)
      → shown_by r ≡ some m'
      → Shows h m' b (go_on h r b).1
  unfolding go_on handle_channel_join broadcast_line erssi_message_to_line new_line
      create_lines_hdata
  go_on-Shows (makes_server tag) m' b e = cc
  go_on-Shows (joins true m) m' b e = cc
  go_on-Shows (joins false m) m' b e = same-Shows _ m' b _ (let s : _ ≡ m' = cc in s) (_, refl)
  go_on-Shows (opens tag target) m' b e = cc

  quit-Shows :
      (m m' : WebMessage) (b : Bridge)
      → shown_as user_quit m ≡ some m'
      → Shows h m' b (handle_user_quit h m b).1
  unfolding handle_user_quit
  quit-Shows m m' b e = unless-Shows (is_empty m.target) _ m' b _ _ e (line-Shows _ b)

  dispatch-Shows :
      (ty : MessageType) (m m' : WebMessage) (b : Bridge)
      → shown_as ty m ≡ some m'
      → Shows h m' b (dispatch h ty m b).1
  unfolding dispatch handle_channel_part handle_topic broadcast_line erssi_message_to_line new_line
      create_lines_hdata
  dispatch-Shows message m m' b e = same-Shows m m' b _ (let s : m ≡ m' = cc in s) (line-Shows m b)
  dispatch-Shows state_dump m m' b e = cc
  dispatch-Shows nicklist m m' b e = cc
  dispatch-Shows channel_join m m' b e = cc
  dispatch-Shows channel_part m m' b e = same-Shows _ m' b _ (let s : _ ≡ m' = cc in s) (_, refl)
  dispatch-Shows user_quit m m' b e = quit-Shows m m' b e
  dispatch-Shows topic m m' b e = same-Shows _ m' b _ (let s : _ ≡ m' = cc in s) (_, refl)
  dispatch-Shows activity_update m m' b e = cc
  dispatch-Shows sync_server m m' b e = cc
  dispatch-Shows (other t) m m' b e = cc

  pub handle-Shows :
      (e : Event) (m' : WebMessage) (b : Bridge) → shown e ≡ some m' → Shows h m' b (handle h e b).1
  unfolding handle handle_erssi_message
  handle-Shows (from_erssi m) m' b s = dispatch-Shows m.type m m' b s
  handle-Shows (from_client id cmd args) m' b s = cc
  handle-Shows (resumes r) m' b s = go_on-Shows r m' b s
