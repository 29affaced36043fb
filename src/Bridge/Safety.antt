-- ===== src/Bridge/Safety.antt =====
-- internal/bridge/bridge.go: which commands of a client can make a handler panic.
use erssi_lith_bridge.Base.{
  ℕ, ◌-◌, ◌≡◌, refl, Bool, true, false, List, [], ◌∷◌, ◌++◌, Bytes, Bool-cases, Option-cases, inl,
  inr, if◌then◌else◌, arith, All, length, drop, not, ◌&&◌, ok, ltb,
}
use erssi_lith_bridge.Base.Int.{ℤ, pos}
use erssi_lith_bridge.Proto.Types.{Message}
use erssi_lith_bridge.Proto.Create.{create_lines_hdata_with_id}
use erssi_lith_bridge.Erssi.Types.{
  WebMessage, MessageType, message, state_dump, nicklist, channel_join, channel_part, user_quit,
  topic, activity_update, sync_server, other, is_empty,
}
use erssi_lith_bridge.Translator.State.{BufferState, Host}
use erssi_lith_bridge.Translator.Views.{
  parse_input_command, parse_hdata_command, input_to_erssi_command, get_buffer_lines, last_lines,
  find_pointer,
}
use erssi_lith_bridge.Bridge.State.{Bridge, Effect, crash}
use erssi_lith_bridge.Bridge.Handlers.{
  request_state_dump, request_nicklist, broadcast_line, start_state_dump, handle_nicklist,
  handle_channel_join, handle_channel_part, handle_user_quit, handle_topic, dispatch,
  handle_erssi_message, handle_weechat_init, handle_line_request, handle_weechat_hdata,
  handle_weechat_input, handle_weechat_nicklist, handle_weechat_command, Rest, makes_server, joins,
  opens, go_on,
}
use erssi_lith_bridge.Bridge.Events.{Event, from_erssi, from_client, resumes, handle, run}
use erssi_lith_bridge.Bridge.Request.{find_count, line_count, find_buffer_pointer}

abbrev is_crash : Effect → Bool
is_crash crash = true
is_crash _ = false

-- None of the effects is a panic.
unfoldable pub quiet : List Effect → Bool
quiet [] = true
quiet (e ∷ es) = not (is_crash e) && quiet es

quiet-append : (xs ys : List Effect) → quiet xs ≡ true → quiet ys ≡ true → quiet (xs ++ ys) ≡ true
unfolding quiet
quiet-append [] ys p q = q
quiet-append (x ∷ xs) ys p q =
    let rest : quiet xs ≡ true → quiet (xs ++ ys) ≡ true = λ r. quiet-append xs ys r q in
    ground arith

module _ (h : Host) where
  nicklist_quiet : (msg : WebMessage) (b : Bridge) → quiet (handle_nicklist h msg b).1 ≡ true
  unfolding handle_nicklist quiet
  nicklist_quiet msg b = elim (Bool-cases (is_empty msg.text)) [
    | inl e ↦ rw (handle_nicklist, e) refl
    | inr e ↦ elim (Option-cases (h.parse_nicks msg.text)) [
      | inl bad ↦ rw (handle_nicklist, e, bad) refl
      | inr (nicks, good) ↦ rw (handle_nicklist, e, good) refl
    ]
  ]

  join_quiet :
      (dumping : Bool) (msg : WebMessage) (b : Bridge)
      → quiet (handle_channel_join h dumping msg b).1 ≡ true
  unfolding handle_channel_join broadcast_line request_nicklist quiet
  join_quiet dumping msg b = ground arith

  go_on-quiet : (r : Rest) (b : Bridge) → quiet (go_on h r b).1 ≡ true
  unfolding go_on quiet
  go_on-quiet (makes_server tag) b = refl
  go_on-quiet (joins dumping msg) b = join_quiet dumping msg b
  go_on-quiet (opens tag target) b = refl

  quit_quiet : (msg : WebMessage) (b : Bridge) → quiet (handle_user_quit h msg b).1 ≡ true
  unfolding handle_user_quit broadcast_line quiet
  quit_quiet msg b = ground arith

  dispatch-quiet :
      (ty : MessageType) (msg : WebMessage) (b : Bridge) → quiet (dispatch h ty msg b).1 ≡ true
  unfolding dispatch start_state_dump broadcast_line handle_channel_part handle_topic
      request_nicklist quiet
  dispatch-quiet message msg b = refl
  dispatch-quiet state_dump msg b = refl
  dispatch-quiet nicklist msg b = nicklist_quiet msg b
  dispatch-quiet channel_join msg b = refl
  dispatch-quiet channel_part msg b = refl
  dispatch-quiet user_quit msg b = quit_quiet msg b
  dispatch-quiet topic msg b = refl
  dispatch-quiet activity_update msg b = refl
  dispatch-quiet sync_server msg b = refl
  dispatch-quiet (other t) msg b = refl

init_quiet : (b : Bridge) → quiet (handle_weechat_init b).1 ≡ true
unfolding handle_weechat_init request_state_dump quiet
init_quiet b = ground arith

-- The count that a request asks for is not negative.
abbrev IsPositive : ℤ → Type 0
IsPositive v = (n : ℕ) × (v ≡ pos n)

lines_answered :
    (ptr id : Bytes) (n : ℕ) (m : List (Bytes × BufferState))
    → (out : Message) × (get_buffer_lines ptr (pos n) id m ≡ ok out)
unfolding get_buffer_lines last_lines
lines_answered ptr id n m = elim (Option-cases (find_pointer ptr m)) [
  | inl e ↦ (create_lines_hdata_with_id [] id, rw (get_buffer_lines, e) refl)
  | inr ((k, b), e) ↦ (
    create_lines_hdata_with_id
        (if ltb n (length b.lines) then drop (length b.lines - n) b.lines else b.lines) id,
    rw (get_buffer_lines, e) refl,
  )
]

line_quiet :
    (id path params : Bytes) (b : Bridge)
    → IsPositive (line_count params)
    → quiet (handle_line_request id path params b) ≡ true
unfolding handle_line_request quiet
line_quiet id path params b (n, e) = elim (Option-cases (find_buffer_pointer path)) [
  | inl none_there ↦ rw (handle_line_request, none_there) refl
  | inr (ptr, found) ↦
      let (out, answer) = lines_answered ptr id n b.translator.buffers in
      rw (handle_line_request, found, e, answer) refl
]

-- The second word of an `hdata`, if there is one, asks for no negative count.
abbrev pub HasCount : List Bytes → Type 0
HasCount (path ∷ params ∷ _) = IsPositive (line_count params)
HasCount _ = Unit

hdata_quiet :
    (id : Bytes) (args : List Bytes) (b : Bridge)
    → HasCount args
    → quiet (handle_weechat_hdata id args b) ≡ true
unfolding handle_weechat_hdata parse_hdata_command quiet
hdata_quiet id [] b safe = refl
hdata_quiet id (path ∷ []) b safe =
    let inner = line_quiet id path [] b (50, unfold line_count in unfold find_count in refl) in
    ground arith
hdata_quiet id (path ∷ params ∷ ws) b safe =
    let inner = line_quiet id path params b safe in ground arith

input_quiet : (args : List Bytes) (b : Bridge) → quiet (handle_weechat_input args b) ≡ true
unfolding handle_weechat_input parse_input_command input_to_erssi_command quiet
input_quiet [] b = refl
input_quiet (p ∷ []) b = refl
input_quiet (p ∷ w ∷ ws) b = ground arith

nicks_quiet : (args : List Bytes) (b : Bridge) → quiet (handle_weechat_nicklist args b) ≡ true
unfolding handle_weechat_nicklist request_nicklist quiet
nicks_quiet [] b = refl
nicks_quiet (p ∷ ws) b = ground arith

command_quiet :
    (id cmd : Bytes) (args : List Bytes) (b : Bridge)
    → HasCount args
    → quiet (handle_weechat_command id cmd args b).1 ≡ true
unfolding handle_weechat_command quiet
command_quiet id cmd args b safe =
    let init = init_quiet b in
    let hdata = hdata_quiet id args b safe in
    let input = input_quiet args b in let nicks = nicks_quiet args b in ground arith

-- A message of erssi, what is left of a handler, or a command whose second word asks for no negative count.
abbrev pub IsSafe : Event → Type 0
IsSafe (from_erssi msg) = Unit
IsSafe (from_client id cmd args) = HasCount args
IsSafe (resumes r) = Unit

pub handle-quiet : (h : Host) (e : Event) (b : Bridge) → IsSafe e → quiet (handle h e b).1 ≡ true
unfolding handle handle_erssi_message
handle-quiet h (from_erssi msg) b safe = dispatch-quiet h msg.type msg b
handle-quiet h (from_client id cmd args) b safe = command_quiet id cmd args b safe
handle-quiet h (resumes r) b safe = go_on-quiet h r b

-- In a run in which no command's second word asks for a negative count of lines, no handler
-- panics, whatever erssi and the clients send.
pub run-quiet :
    (h : Host) (es : List Event) (b : Bridge) → All IsSafe es → quiet (run h es b).1 ≡ true
unfolding run quiet
run-quiet h [] b safe = refl
run-quiet h (e ∷ es) b (safe, rest) =
    quiet-append (handle h e b).1 (run h es (handle h e b).0).1 (handle-quiet h e b safe)
      (run-quiet h es (handle h e b).0 rest)
