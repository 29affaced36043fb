-- ===== src/Bridge/Runs.antt =====
-- internal/bridge/bridge.go: what holds of the buffers after any run of the bridge, and where the
-- text goes that a client types.
use erssi_lith_bridge.Base.{◌-◌, ◌^◌, ◌<◌, ◌≡◌, ◌≢◌, List, [], ◌∷◌, some, Bytes, length}
use erssi_lith_bridge.Base.Text.{codes, Lacks, to_lower, join, str_eq}
use erssi_lith_bridge.Base.Assoc.{lookup}
use erssi_lith_bridge.Erssi.Types.{message, zero_message}
use erssi_lith_bridge.Translator.State.{BufferState, Host, buffer_key}
use erssi_lith_bridge.Translator.Views.{parse_input_command}
use erssi_lith_bridge.Translator.Changes.{SameBuffer}
use erssi_lith_bridge.Translator.Readings.{HasReadings, Changes-HasReadings, HasReadings-new}
use erssi_lith_bridge.Translator.Identity.{
  IsTicking, HasPointers, HasNumbers, Changes-HasPointers, Changes-HasNumbers, HasPointers-new,
  HasNumbers-new,
}
use erssi_lith_bridge.Translator.Lookup.{IsMap, input_to_erssi_command-lookup}
use erssi_lith_bridge.Translator.Stable.{Changes-IsMap, Changes-Lasts, own-IsRange}
use erssi_lith_bridge.Bridge.State.{to_erssi, new_bridge}
use erssi_lith_bridge.Bridge.Handlers.{handle_weechat_input, handle_weechat_command}
use erssi_lith_bridge.Bridge.Events.{Event, run, run-Changes}

pub run-IsMap : (h : Host) (es : List Event) → IsMap (run h es new_bridge).0.translator.buffers
run-IsMap h es = Changes-IsMap (run-Changes h es new_bridge) tt

-- Where no two readings of the clock are equal, no two buffers have the same pointer.
pub run-HasPointers :
    (h : Host) (es : List Event) → IsTicking h → HasPointers h (run h es new_bridge).0.translator
run-HasPointers h es ticking =
    Changes-HasPointers h ticking (run-Changes h es new_bridge) (HasPointers-new h)

-- After any run of the bridge from its start, every buffer's pointer is a reading of the clock, and two
-- keys have buffers of one pointer only where the clock gave that pointer at two of its readings.
pub run-HasReadings :
    (h : Host) (es : List Event) → HasReadings h (run h es new_bridge).0.translator
run-HasReadings h es = Changes-HasReadings h (run-Changes h es new_bridge) (HasReadings-new h)

-- After any run of the bridge from its start that has made n buffers, n < 2^31 - 1, each has a number
-- from 1 to n, no two have the same number, and the next number is n + 1.
pub run-HasNumbers :
    (h : Host) (es : List Event)
    → length (run h es new_bridge).0.translator.buffers < 2 ^ 31 - 1
    → HasNumbers (run h es new_bridge).0.translator
run-HasNumbers h es room = Changes-HasNumbers (run-Changes h es new_bridge) room HasNumbers-new

-- A buffer that is there after a run is still under its key after any more events, with the same
-- pointer, number, server, name and short name.
pub still_there :
    (h : Host) (es es' : List Event) (key : Bytes) (b : BufferState)
    → lookup key (run h es new_bridge).0.translator.buffers ≡ some b
    → (c : BufferState) × (lookup key (run h es' (run h es new_bridge).0).0.translator.buffers
        ≡ some c)
      × SameBuffer b c
still_there h es es' key b found =
    Changes-Lasts key b (run-Changes h es' (run h es new_bridge).0) found

module _ (h : Host) (es es' : List Event) (ticking : IsTicking h) where
  later_HasPointers : HasPointers h (run h es' (run h es new_bridge).0).0.translator
  later_HasPointers =
      Changes-HasPointers h ticking (run-Changes h es' (run h es new_bridge).0)
        (run-HasPointers h es ticking)

  later_IsMap : IsMap (run h es' (run h es new_bridge).0).0.translator.buffers
  later_IsMap = Changes-IsMap (run-Changes h es' (run h es new_bridge).0) (run-IsMap h es)

-- Once a buffer of a server and a target is there, text that a client types under its pointer is
-- sent to erssi as one message for that server and the target in lower case, whatever events came
-- in between; the server's tag must be without a dot and not empty, and no two readings of the
-- clock are equal.
pub typed_text_reaches_erssi :
    (h : Host) (es es' : List Event) (tag target id w : Bytes) (ws : List Bytes) (b : BufferState)
    → IsTicking h
    → lookup (buffer_key h tag target) (run h es new_bridge).0.translator.buffers ≡ some b
    → Lacks b'.' tag
    → tag ≢ []
    → (handle_weechat_command id
        (codes "input")
        (b.pointer ∷ w ∷ ws)
        (run h es' (run h es new_bridge).0).0).1
      ≡ to_erssi (record (zero_message message) {
        server_tag = tag;
        target = to_lower h.unicode_lower target;
        text = join (w ∷ ws) (codes " ");
      })
        ∷ []
unfolding handle_weechat_command handle_weechat_input parse_input_command str_eq to_lower join
typed_text_reaches_erssi h es es' tag target id w ws b ticking found lacks nonempty =
    let key = buffer_key h tag target in
    let (c, now, same) = still_there h es es' key b found in
    let t = (run h es' (run h es new_bridge).0).0.translator in
    rw (
      handle_weechat_input,
      same.pointer,
      input_to_erssi_command-lookup h t tag target (join (w ∷ ws) (codes " ")) c t.buffers
          (later_HasPointers h es es' ticking) (own-IsRange t (later_IsMap h es es' ticking)) now
          lacks nonempty,
    )
