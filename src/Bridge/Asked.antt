-- ===== src/Bridge/Asked.antt =====
-- internal/bridge/bridge.go: how often the bridge asks erssi for its state.
use erssi_lith_bridge.Base.{
  ℕ, ◌+◌, ◌≤◌, ◌≡◌, refl, Bool, true, false, List, [], ◌∷◌, ◌++◌, Bytes, Bool-cases, Option-cases,
  inl, inr, arith,
}
use erssi_lith_bridge.Erssi.Types.{
  WebMessage, MessageType, message, state_dump, nicklist, channel_join, channel_part, user_quit,
  topic, activity_update, sync_server, other, is_empty,
}
use erssi_lith_bridge.Translator.State.{Host}
use erssi_lith_bridge.Translator.Views.{input_to_erssi_command}
use erssi_lith_bridge.Bridge.State.{Bridge, Effect, to_erssi, new_bridge}
use erssi_lith_bridge.Bridge.Handlers.{
  request_state_dump, request_nicklist, broadcast_line, start_state_dump, handle_nicklist,
  handle_channel_join, handle_channel_part, handle_user_quit, handle_topic, dispatch,
  handle_erssi_message, handle_weechat_init, handle_line_request, handle_weechat_hdata,
  handle_weechat_input, handle_weechat_nicklist, handle_weechat_command, Rest, makes_server, joins,
  opens, go_on,
}
use erssi_lith_bridge.Bridge.Events.{Event, from_erssi, from_client, resumes, handle, run}

-- How many of the effects ask erssi for its state.
abbrev pub asks : MessageType → ℕ
asks sync_server = 1
asks _ = 0

abbrev pub asks_dump : Effect → ℕ
asks_dump (to_erssi msg) = asks msg.type
asks_dump _ = 0

unfoldable pub dump_requests : List Effect → ℕ
dump_requests [] = 0
dump_requests (e ∷ es) = asks_dump e + dump_requests es

pub dump_requests-append :
    (xs ys : List Effect) → dump_requests (xs ++ ys) ≡ dump_requests xs + dump_requests ys
unfolding dump_requests
dump_requests-append [] ys = omega arith
dump_requests-append (x ∷ xs) ys = omega (arith, dump_requests-append xs ys)

abbrev flag : Bool → ℕ
flag false = 0
flag true = 1

-- What a handler does to the flag of the request, and how many requests it makes.
abbrev Counts : Bridge → Bridge × List Effect → Type 0
Counts b r = dump_requests r.1 + flag b.state_dump_requested ≡ flag r.0.state_dump_requested

module _ (h : Host) where
  handle_nicklist-Counts : (msg : WebMessage) (b : Bridge) → Counts b (handle_nicklist h msg b)
  unfolding handle_nicklist dump_requests
  handle_nicklist-Counts msg b = elim (Bool-cases (is_empty msg.text)) [
    | inl e ↦ rw (handle_nicklist, e) (omega arith)
    | inr e ↦ elim (Option-cases (h.parse_nicks msg.text)) [
      | inl bad ↦ rw (handle_nicklist, e, bad) (omega arith)
      | inr (nicks, good) ↦ rw (handle_nicklist, e, good) (omega arith)
    ]
  ]

  join_Counts :
      (dumping : Bool) (msg : WebMessage) (b : Bridge)
      → Counts b (handle_channel_join h dumping msg b)
  unfolding handle_channel_join broadcast_line dump_requests request_nicklist
  join_Counts dumping msg b = ground arith

  go_on-Counts : (r : Rest) (b : Bridge) → Counts b (go_on h r b)
  unfolding go_on dump_requests
  go_on-Counts (makes_server tag) b = omega arith
  go_on-Counts (joins dumping msg) b = join_Counts dumping msg b
  go_on-Counts (opens tag target) b = omega arith

  quit_Counts : (msg : WebMessage) (b : Bridge) → Counts b (handle_user_quit h msg b)
  unfolding handle_user_quit broadcast_line dump_requests
  quit_Counts msg b = ground arith

  dispatch-Counts :
      (ty : MessageType) (msg : WebMessage) (b : Bridge) → Counts b (dispatch h ty msg b)
  unfolding dispatch start_state_dump broadcast_line handle_channel_part handle_topic dump_requests
      request_nicklist
  dispatch-Counts message msg b = omega arith
  dispatch-Counts state_dump msg b = omega arith
  dispatch-Counts nicklist msg b = handle_nicklist-Counts msg b
  dispatch-Counts channel_join msg b = omega arith
  dispatch-Counts channel_part msg b = omega arith
  dispatch-Counts user_quit msg b = quit_Counts msg b
  dispatch-Counts topic msg b = omega arith
  dispatch-Counts activity_update msg b = omega arith
  dispatch-Counts sync_server msg b = omega arith
  dispatch-Counts (other t) msg b = omega arith

init_Counts : (b : Bridge) → Counts b (handle_weechat_init b)
unfolding handle_weechat_init request_state_dump dump_requests
init_Counts b = ground arith

line_Counts :
    (id path params : Bytes) (b : Bridge) → dump_requests (handle_line_request id path params b) ≡ 0
unfolding handle_line_request dump_requests
line_Counts id path params b = ground arith

hdata_Counts :
    (id : Bytes) (args : List Bytes) (b : Bridge)
    → dump_requests (handle_weechat_hdata id args b) ≡ 0
unfolding handle_weechat_hdata dump_requests
hdata_Counts id args b = grind (arith, line_Counts)

input_Counts : (args : List Bytes) (b : Bridge) → dump_requests (handle_weechat_input args b) ≡ 0
unfolding handle_weechat_input input_to_erssi_command dump_requests
input_Counts args b = ground arith

nicklist_Counts :
    (args : List Bytes) (b : Bridge) → dump_requests (handle_weechat_nicklist args b) ≡ 0
unfolding handle_weechat_nicklist request_nicklist dump_requests
nicklist_Counts [] b = refl
nicklist_Counts (p ∷ ws) b = ground arith

command_Counts :
    (id cmd : Bytes) (args : List Bytes) (b : Bridge)
    → Counts b (handle_weechat_command id cmd args b)
unfolding handle_weechat_command dump_requests
command_Counts id cmd args b =
    let init = init_Counts b in
    let hdata = hdata_Counts id args b in
    let input = input_Counts args b in let nicks = nicklist_Counts args b in ground arith

handle-Counts : (h : Host) (e : Event) (b : Bridge) → Counts b (handle h e b)
unfolding handle handle_erssi_message
handle-Counts h (from_erssi msg) b = dispatch-Counts h msg.type msg b
handle-Counts h (from_client id cmd args) b = command_Counts id cmd args b
handle-Counts h (resumes r) b = go_on-Counts h r b

run-Counts : (h : Host) (es : List Event) (b : Bridge) → Counts b (run h es b)
unfolding run dump_requests
run-Counts h [] b = omega arith
run-Counts h (e ∷ es) b =
    let first = handle-Counts h e b in
    let later = run-Counts h es (handle h e b).0 in
    omega (arith, dump_requests-append (handle h e b).1 (run h es (handle h e b).0).1)

flag_small : (b : Bool) → flag b ≤ 1
flag_small false = omega arith
flag_small true = omega arith

-- In any run of the bridge from its start erssi is asked for its state at most once, however many
-- clients send `init`.
pub run-asks_once : (h : Host) (es : List Event) → dump_requests (run h es new_bridge).1 ≤ 1
run-asks_once h es =
    let sum = run-Counts h es new_bridge in
    omega (arith, flag_small (run h es new_bridge).0.state_dump_requested)
