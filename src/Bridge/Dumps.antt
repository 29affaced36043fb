-- ===== src/Bridge/Dumps.antt =====
-- internal/bridge/bridge.go: what the initial state dump does to the messages after it.
use mathlib.Core.Path.{subst}
use erssi_lith_bridge.Base.{
  ◌≡◌, refl, sym, ap, ◌∙◌, map, Bool, true, List, [], ◌∷◌, Bool-cases, Option-cases, inl, inr,
  arith,
}
use erssi_lith_bridge.Erssi.Types.{
  WebMessage, MessageType, message, state_dump, nicklist, channel_join, channel_part, user_quit,
  topic, activity_update, sync_server, other, is_empty,
}
use erssi_lith_bridge.Translator.State.{Host}
use erssi_lith_bridge.Bridge.State.{Bridge}
use erssi_lith_bridge.Bridge.Handlers.{
  broadcast_line, start_state_dump, handle_nicklist, handle_channel_join, handle_channel_part,
  handle_user_quit, handle_topic, dispatch, handle_erssi_message, handle_weechat_init,
  handle_weechat_command, Rest, makes_server, joins, opens, left, go_on,
}
use erssi_lith_bridge.Bridge.Events.{Event, from_erssi, from_client, resumes, handle, rest_of, run}

-- What holds of the flag after each handler.
module _ (h : Host) where
  nicklist_keeps :
      (msg : WebMessage) (b : Bridge) → (handle_nicklist h msg b).0.in_state_dump ≡ b.in_state_dump
  unfolding handle_nicklist
  nicklist_keeps msg b = elim (Bool-cases (is_empty msg.text)) [
    | inl e ↦ rw (handle_nicklist, e) refl
    | inr e ↦ elim (Option-cases (h.parse_nicks msg.text)) [
      | inl bad ↦ rw (handle_nicklist, e, bad) refl
      | inr (nicks, good) ↦ rw (handle_nicklist, e, good) refl
    ]
  ]

  join_keeps :
      (dumping : Bool) (msg : WebMessage) (b : Bridge)
      → (handle_channel_join h dumping msg b).0.in_state_dump ≡ b.in_state_dump
  unfolding handle_channel_join broadcast_line
  join_keeps dumping msg b = ground arith

  go_on_stays : (r : Rest) (b : Bridge) → (go_on h r b).0.in_state_dump ≡ b.in_state_dump
  unfolding go_on
  go_on_stays (makes_server tag) b = refl
  go_on_stays (joins dumping msg) b = join_keeps dumping msg b
  go_on_stays (opens tag target) b = refl

  quit_keeps :
      (msg : WebMessage) (b : Bridge) → (handle_user_quit h msg b).0.in_state_dump ≡ b.in_state_dump
  unfolding handle_user_quit broadcast_line
  quit_keeps msg b = ground arith

  dispatch_dumping :
      (ty : MessageType) (msg : WebMessage) (b : Bridge)
      → b.in_state_dump ≡ true
      → (dispatch h ty msg b).0.in_state_dump ≡ true
  unfolding dispatch start_state_dump broadcast_line handle_channel_part handle_topic
  dispatch_dumping message msg b on = on
  dispatch_dumping state_dump msg b on = refl
  dispatch_dumping nicklist msg b on = nicklist_keeps msg b ∙ on
  dispatch_dumping channel_join msg b on = on
  dispatch_dumping channel_part msg b on = on
  dispatch_dumping user_quit msg b on = quit_keeps msg b ∙ on
  dispatch_dumping topic msg b on = on
  dispatch_dumping activity_update msg b on = on
  dispatch_dumping sync_server msg b on = on
  dispatch_dumping (other t) msg b on = on

  handle_dumping :
      (e : Event) (b : Bridge) → b.in_state_dump ≡ true → (handle h e b).0.in_state_dump ≡ true
  unfolding handle handle_erssi_message handle_weechat_command handle_weechat_init
  handle_dumping (from_erssi msg) b on = dispatch_dumping msg.type msg b on
  handle_dumping (from_client id cmd args) b on = ground arith
  handle_dumping (resumes r) b on = go_on_stays r b ∙ on

  run_dumping :
      (es : List Event) (b : Bridge) → b.in_state_dump ≡ true → (run h es b).0.in_state_dump ≡ true
  unfolding run
  run_dumping [] b on = on
  run_dumping (e ∷ es) b on = run_dumping es (handle h e b).0 (handle_dumping e b on)

dump_begins :
    (h : Host) (dump : WebMessage) (b : Bridge)
    → (dispatch h state_dump dump b).0.in_state_dump ≡ true
unfolding dispatch start_state_dump
dump_begins h dump b = refl

join_left :
    (msg : WebMessage) (b : Bridge)
    → b.in_state_dump ≡ true
    → left channel_join msg b ≡ joins true msg ∷ []
unfolding left
join_left msg b on = rw on refl

-- Once a state dump has begun, the handler of a join of a channel reads that it has, whatever events
-- came in between, and has no effect, whatever comes before it goes on: no line is sent to the clients
-- and no nicks are asked for.
pub joins_are_silent :
    (h : Host) (dump join : WebMessage) (es es' : List Event) (b : Bridge)
    → dump.type ≡ state_dump
    → join.type ≡ channel_join
    → let b' = (run h es (handle h (from_erssi dump) b).0).0 in
      (rest_of (from_erssi join) b' ≡ resumes (joins true join) ∷ [])
      × ((handle h (from_erssi join) b').1 ≡ [])
      × ((handle h (resumes (joins true join)) (run h es' b').0).1 ≡ [])
unfolding handle handle_erssi_message rest_of go_on handle_channel_join dispatch
joins_are_silent h dump join es es' b is_dump is_join =
    let b' = (run h es (handle h (from_erssi dump) b).0).0 in
    let begun =
      subst (λ ty. (dispatch h ty dump b).0.in_state_dump ≡ true) (sym is_dump)
        (dump_begins h dump b) in
    let on = run_dumping h es (dispatch h dump.type dump b).0 begun in
    (
      subst (λ ty. map resumes (left ty join b') ≡ resumes (joins true join) ∷ []) (sym is_join)
          (ap (map resumes) (join_left join b' on)),
      subst (λ ty. (dispatch h ty join b').1 ≡ []) (sym is_join) refl,
      refl,
    )
