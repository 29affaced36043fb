-- ===== src/Bridge/Answers.antt =====
-- internal/bridge/bridge.go: every message that a run sends to the clients is one that a Create function
-- made.
use mathlib.Core.Path.{subst}
use erssi_lith_bridge.Base.{
  ◌-◌, length, drop, ltb, ◌≡◌, refl, List, [], ◌∷◌, Bytes, Bool-cases, Option-cases, inl, inr,
  if◌then◌else◌, All-append, not, ◌&&◌, ◌||◌, ok, err, panic, Result,
}
use erssi_lith_bridge.Base.Int.{ℤ, pos, negsuc}
use erssi_lith_bridge.Base.Text.{codes, str_eq, contains, join}
use erssi_lith_bridge.Bridge.Made.{IsMade, made_buffers, made_lines, made_hotlist}
use erssi_lith_bridge.Proto.Create.{create_lines_hdata_with_id}
use erssi_lith_bridge.Proto.Types.{Message}
use erssi_lith_bridge.Erssi.Types.{WebMessage, is_empty}
use erssi_lith_bridge.Translator.State.{BufferState, Host}
use erssi_lith_bridge.Translator.Views.{
  parse_input_command, parse_hdata_command, input_to_erssi_command, get_buffer_lines, last_lines,
  find_pointer, get_all_buffers, get_empty_hotlist, get_buffer_info, ParseError,
}
use erssi_lith_bridge.Bridge.State.{Bridge, reply, to_erssi, crash}
use erssi_lith_bridge.Bridge.Request.{line_count, find_buffer_pointer}
use erssi_lith_bridge.Bridge.Handlers.{
  request_state_dump, request_nicklist, handle_erssi_message, handle_weechat_init,
  handle_line_request, handle_weechat_hdata, handle_weechat_input, handle_weechat_nicklist,
  handle_weechat_command,
}
use erssi_lith_bridge.Bridge.Events.{Event, from_erssi, from_client, resumes, handle, run}
use erssi_lith_bridge.Bridge.Carried.{Carries, AreMade, dispatch-AreMade, go_on-AreMade}

init-AreMade : (b : Bridge) → AreMade (handle_weechat_init b).1
unfolding handle_weechat_init request_state_dump
init-AreMade b = elim (Bool-cases b.state_dump_requested) [
  | inl e ↦ rw (handle_weechat_init, e) tt
  | inr e ↦ rw (handle_weechat_init, e) (tt, tt)
]

get_buffer_lines-IsMade :
    (ptr id : Bytes) (n : ℤ) (m : List (Bytes × BufferState)) (out : Message)
    → get_buffer_lines ptr n id m ≡ ok out
    → IsMade out
unfolding get_buffer_lines last_lines
get_buffer_lines-IsMade ptr id n m out e = elim (Option-cases (find_pointer ptr m)) [
  | inl missing ↦
      let r : ok (create_lines_hdata_with_id [] id) ≡ ok out =
        rw (get_buffer_lines, missing) at e in
      let same : create_lines_hdata_with_id [] id ≡ out = cc in subst IsMade same (made_lines [] id)
  | inr ((k, b), found) ↦ by_count n b (rw (get_buffer_lines, found) at e)
]
  where
    by_count :
        (n : ℤ) (b : BufferState)
        → elim (last_lines {E = ParseError} n b.lines) [
          | ok ls ↦ ok (create_lines_hdata_with_id ls id)
          | err e ↦ err e
          | panic ↦ panic
        ]
          ≡ ok out
        → IsMade out
    by_count (pos n) b r =
        let ls = if ltb n (length b.lines) then drop (length b.lines - n) b.lines else b.lines in
        let same : create_lines_hdata_with_id ls id ≡ out = cc in
        subst IsMade same (made_lines ls id)
    by_count (negsuc n) b r = cc

line_request-AreMade :
    (id path params : Bytes) (b : Bridge) → AreMade (handle_line_request id path params b)
unfolding handle_line_request
line_request-AreMade id path params b = elim (Option-cases (find_buffer_pointer path)) [
  | inl none_there ↦ rw (handle_line_request, none_there) tt
  | inr (ptr, found) ↦
      rw (handle_line_request, found)
        (answered (get_buffer_lines ptr (line_count params) id b.translator.buffers)
          (λ out e. get_buffer_lines-IsMade ptr id (line_count params) b.translator.buffers out e))
]
  where
    answered :
        (r : Result ParseError Message)
        → ((out : Message) → r ≡ ok out → IsMade out)
        → AreMade (elim r [ ok out ↦ reply out ∷ [] | err e ↦ [] | panic ↦ crash ∷ [] ])
    answered (ok out) f = (f out refl, tt)
    answered (err e) f = tt
    answered panic f = (tt, tt)

path-AreMade :
    (id path params : Bytes) (b : Bridge)
    → AreMade (
        if str_eq path (codes "buffer:gui_buffers(*)") || str_eq path (codes "buffer:gui_buffers")
        then reply (get_all_buffers id b.translator.buffers) ∷ []
        else if contains path (codes "lines")
        then handle_line_request id path params b
        else if str_eq path (codes "hotlist:gui_hotlist(*)")
        then reply (get_empty_hotlist id) ∷ []
        else [])
unfolding get_all_buffers get_empty_hotlist
path-AreMade id path params b =
    elim (Bool-cases
      (str_eq path (codes "buffer:gui_buffers(*)") || str_eq path (codes "buffer:gui_buffers"))) [
        | inl e ↦ rw e (made_buffers _ id, tt)
        | inr e ↦ elim (Bool-cases (contains path (codes "lines"))) [
          | inl l ↦ rw (e, l) (line_request-AreMade id path params b)
          | inr l ↦ elim (Bool-cases (str_eq path (codes "hotlist:gui_hotlist(*)"))) [
            | inl k ↦ rw (e, l, k) (made_hotlist id, tt)
            | inr k ↦ rw (e, l, k) tt
          ]
        ]
      ]

hdata-AreMade :
    (id : Bytes) (args : List Bytes) (b : Bridge) → AreMade (handle_weechat_hdata id args b)
unfolding handle_weechat_hdata parse_hdata_command
hdata-AreMade id [] b = tt
hdata-AreMade id (path ∷ []) b = path-AreMade id path [] b
hdata-AreMade id (path ∷ params ∷ ws) b = path-AreMade id path params b

input-AreMade : (args : List Bytes) (b : Bridge) → AreMade (handle_weechat_input args b)
unfolding handle_weechat_input parse_input_command
input-AreMade [] b = tt
input-AreMade (p ∷ []) b = tt
input-AreMade (p ∷ w ∷ ws) b =
    sent (input_to_erssi_command p (join (w ∷ ws) (codes " ")) b.translator.buffers)
  where
    sent :
        (r : Result ParseError WebMessage)
        → AreMade (elim r [ ok msg ↦ to_erssi msg ∷ [] | err e ↦ [] | panic ↦ crash ∷ [] ])
    sent (ok msg) = (tt, tt)
    sent (err e) = tt
    sent panic = (tt, tt)

asked-AreMade : (args : List Bytes) (b : Bridge) → AreMade (handle_weechat_nicklist args b)
unfolding handle_weechat_nicklist request_nicklist
asked-AreMade [] b = tt
asked-AreMade (p ∷ ws) b =
    let info = get_buffer_info p b.translator.buffers in
    elim (Bool-cases (not (is_empty info.0) && not (is_empty info.1))) [
      | inl e ↦ rw (handle_weechat_nicklist, e) (tt, tt)
      | inr e ↦ rw (handle_weechat_nicklist, e) tt
    ]

command-AreMade :
    (id cmd : Bytes) (args : List Bytes) (b : Bridge)
    → AreMade (handle_weechat_command id cmd args b).1
unfolding handle_weechat_command
command-AreMade id cmd args b = elim (Bool-cases (str_eq cmd (codes "init"))) [
  | inl i ↦ rw (handle_weechat_command, i) (init-AreMade b)
  | inr i ↦ elim (Bool-cases (str_eq cmd (codes "hdata"))) [
    | inl d ↦ rw (handle_weechat_command, i, d) (hdata-AreMade id args b)
    | inr d ↦ elim (Bool-cases (str_eq cmd (codes "input"))) [
      | inl t ↦ rw (handle_weechat_command, i, d, t) (input-AreMade args b)
      | inr t ↦ elim (Bool-cases (str_eq cmd (codes "nicklist"))) [
        | inl n ↦ rw (handle_weechat_command, i, d, t, n) (asked-AreMade args b)
        | inr n ↦ rw (handle_weechat_command, i, d, t, n) tt
      ]
    ]
  ]
]

pub handle-AreMade : (h : Host) (e : Event) (b : Bridge) → AreMade (handle h e b).1
unfolding handle handle_erssi_message
handle-AreMade h (from_erssi msg) b = dispatch-AreMade h msg.type msg b
handle-AreMade h (from_client id cmd args) b = command-AreMade id cmd args b
handle-AreMade h (resumes r) b = go_on-AreMade h r b

pub run-AreMade : (h : Host) (es : List Event) (b : Bridge) → AreMade (run h es b).1
unfolding run
run-AreMade h [] b = tt
run-AreMade h (e ∷ es) b =
    All-append (Carries IsMade) (handle h e b).1 (run h es (handle h e b).0).1
      (handle-AreMade h e b) (run-AreMade h es (handle h e b).0)
