-- ===== src/Bridge/LineRequests.antt =====
-- internal/bridge/bridge.go: a client's request for the lines of a buffer, from its words to the reply.
use erssi_lith_bridge.Base.{
  ℕ, ◌-◌, ◌≡◌, ◌≢◌, refl, ap, true, false, List, [], ◌∷◌, ◌++◌, some, Bytes, length, drop, All,
  arith, ok,
}
use erssi_lith_bridge.Base.Int.{pos}
use erssi_lith_bridge.Base.Text.{
  codes, str_eq, contains, has_prefix, hex, hex-All, hex-ne-nil, IsDigit,
}
use erssi_lith_bridge.Base.Assoc.{lookup}
use erssi_lith_bridge.Proto.Types.{Message}
use erssi_lith_bridge.Proto.Create.{create_lines_hdata_with_id}
use erssi_lith_bridge.Erssi.Types.{is_empty}
use erssi_lith_bridge.Translator.State.{BufferState, Host, pointer_text}
use erssi_lith_bridge.Translator.Views.{parse_hdata_command, get_buffer_lines}
use erssi_lith_bridge.Translator.Identity.{IsTicking}
use erssi_lith_bridge.Translator.Lookup.{get_buffer_lines-lookup}
use erssi_lith_bridge.Translator.Stable.{own-IsRange}
use erssi_lith_bridge.Bridge.State.{Bridge, reply, new_bridge}
use erssi_lith_bridge.Bridge.Request.{is_hex, run_of, find_buffer_pointer, line_count}
use erssi_lith_bridge.Bridge.Handlers.{
  handle_line_request, handle_weechat_hdata, handle_weechat_command,
}
use erssi_lith_bridge.Bridge.Events.{Event, run}
use erssi_lith_bridge.Bridge.Runs.{run-HasPointers, run-IsMap}

-- The path of a request, as clients write it.
abbrev pub line_path : Bytes → Bytes → Bytes
line_path ptr rest = codes "buffer:" ++ (ptr ++ (codes "/" ++ rest))

digit-is_hex : (c : ℕ) → IsDigit 16 c → is_hex c ≡ true
unfolding is_hex
digit-is_hex c h = ground arith

run_of-digits : (s rest : Bytes) → All (IsDigit 16) s → (run_of is_hex (s ++ (b'/' ∷ rest))).0 ≡ s
unfolding run_of is_hex
run_of-digits [] rest h = refl
run_of-digits (c ∷ s) rest h =
    let one = digit-is_hex c h.0 in
    let more = run_of-digits s rest h.1 in rw (run_of, one) (ap (λ t. c ∷ t) more)

pub nonempty : (s : Bytes) → s ≢ [] → is_empty s ≡ false
nonempty [] h = absurd (h refl)
nonempty (c ∷ s) h = refl

find_buffer_pointer-line_path :
    (n : ℕ) (rest : Bytes)
    → find_buffer_pointer (line_path (pointer_text n) rest) ≡ some (pointer_text n)
unfolding find_buffer_pointer pointer_text has_prefix
find_buffer_pointer-line_path n rest =
    let digits = run_of-digits (hex n) rest (hex-All n) in
    let some_digit = nonempty (hex n) (hex-ne-nil n) in rw (digits, some_digit)

contains-behind : (s rest p : Bytes) → contains rest p ≡ true → contains (s ++ rest) p ≡ true
unfolding contains
contains-behind [] rest p h = h
contains-behind (c ∷ s) rest p h = let later = contains-behind s rest p h in ground arith

no_list :
    (p rest : Bytes) (n : ℕ)
    → p ≡ pointer_text n
    → (str_eq (p ++ rest) (codes "gui_buffers(*)") ≡ false)
      × (str_eq (p ++ rest) (codes "gui_buffers") ≡ false)
unfolding str_eq pointer_text
no_list p rest n e = rw e (refl, refl)

lines_replied :
    (id path params ptr : Bytes) (b : Bridge) (n : ℕ) (out : Message)
    → find_buffer_pointer path ≡ some ptr
    → line_count params ≡ pos n
    → get_buffer_lines ptr (pos n) id b.translator.buffers ≡ ok out
    → handle_line_request id path params b ≡ reply out ∷ []
unfolding handle_line_request
lines_replied id path params ptr b n out found count answer =
    rw (handle_line_request, found, count, answer)

-- A client that asks by its pointer for up to n lines of a buffer that is there after a run gets one
-- reply, with the request's identifier and the last n of the lines that the buffer keeps, or all
-- where there are no more; what follows the pointer in the path must speak of lines, and no two
-- readings of the clock are equal.
pub lines_reach_client :
    (h : Host) (es : List Event) (key id params rest : Bytes) (b : BufferState) (n : ℕ)
    → IsTicking h
    → lookup key (run h es new_bridge).0.translator.buffers ≡ some b
    → contains rest (codes "lines") ≡ true
    → line_count params ≡ pos n
    → (handle_weechat_command id
        (codes "hdata")
        (line_path b.pointer rest ∷ params ∷ [])
        (run h es new_bridge).0).1
      ≡ reply (create_lines_hdata_with_id (drop (length b.lines - n) b.lines) id) ∷ []
unfolding handle_weechat_command handle_weechat_hdata parse_hdata_command str_eq
lines_reach_client h es key id params rest b n ticking found spoken count =
    let t = (run h es new_bridge).0.translator in
    let pointers = run-HasPointers h es ticking in
    let (i, old, issued) = pointers.issued key b found in
    let there =
      contains-behind (codes "buffer:") (b.pointer ++ (codes "/" ++ rest)) (codes "lines") (
        contains-behind b.pointer (codes "/" ++ rest) (codes "lines")
          (contains-behind (codes "/") rest (codes "lines") spoken)) in
    let ptr : find_buffer_pointer (line_path b.pointer rest) ≡ some b.pointer =
      rw issued (find_buffer_pointer-line_path (h.clock i) rest) in
    let answer =
      get_buffer_lines-lookup h t key id b n t.buffers pointers (own-IsRange t (run-IsMap h es))
        found in
    let apart = no_list b.pointer (codes "/" ++ rest) (h.clock i) issued in
    let replied =
      lines_replied id (line_path b.pointer rest) params b.pointer (run h es new_bridge).0 n
        (create_lines_hdata_with_id (drop (length b.lines - n) b.lines) id) ptr count answer in
    rw (apart.0, apart.1, there) replied
