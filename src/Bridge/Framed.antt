-- ===== src/Bridge/Framed.antt =====
-- internal/bridge/bridge.go: every message that a run sends to the clients can be encoded, and its
-- fields have the types that it declares.
use erssi_lith_bridge.Base.{List, All, All-mono}
use erssi_lith_bridge.Proto.Types.{Message}
use erssi_lith_bridge.Proto.Frames.{
  HasFrame, buffers-HasFrame, lines-HasFrame, nicklist-HasFrame, hotlist-HasFrame,
}
use erssi_lith_bridge.Proto.Typed.{
  IsTyped, buffers-IsTyped, lines-IsTyped, nicklist-IsTyped, hotlist-IsTyped,
}
use erssi_lith_bridge.Translator.State.{Host}
use erssi_lith_bridge.Bridge.State.{Bridge, Effect, broadcast, reply, to_erssi, crash}
use erssi_lith_bridge.Bridge.Events.{Event, handle, run}
use erssi_lith_bridge.Bridge.Made.{IsMade, made_buffers, made_lines, made_nicklist, made_hotlist}
use erssi_lith_bridge.Bridge.Carried.{Carries}
use erssi_lith_bridge.Bridge.Answers.{handle-AreMade, run-AreMade}

-- What a send to a client carries can be encoded.
abbrev pub IsFramed : Effect → Type 0
IsFramed = Carries HasFrame

made-HasFrame : (msg : Message) → IsMade msg → HasFrame msg
made-HasFrame _ (made_buffers bs id) = buffers-HasFrame bs id
made-HasFrame _ (made_lines ls id) = lines-HasFrame ls id
made-HasFrame _ (made_nicklist ns) = nicklist-HasFrame ns
made-HasFrame _ (made_hotlist id) = hotlist-HasFrame id

Carries-mono :
    (P Q : Message → Type 0)
    → ((msg : Message) → P msg → Q msg)
    → (e : Effect) → Carries P e
    → Carries Q e
Carries-mono P Q f (broadcast msg) p = f msg p
Carries-mono P Q f (reply msg) p = f msg p
Carries-mono P Q f (to_erssi msg) p = tt
Carries-mono P Q f crash p = tt

pub handle-AreFramed : (h : Host) (e : Event) (b : Bridge) → All IsFramed (handle h e b).1
handle-AreFramed h e b =
    All-mono (Carries IsMade) IsFramed (handle h e b).1 (Carries-mono IsMade HasFrame made-HasFrame)
      (handle-AreMade h e b)

-- Every message that a run sends to the clients can be encoded, whatever erssi and the clients sent:
-- the encoder gives neither an error nor a panic of its own.
pub run-IsFramed : (h : Host) (es : List Event) (b : Bridge) → All IsFramed (run h es b).1
run-IsFramed h es b =
    All-mono (Carries IsMade) IsFramed (run h es b).1 (Carries-mono IsMade HasFrame made-HasFrame)
      (run-AreMade h es b)

made-IsTyped : (msg : Message) → IsMade msg → IsTyped msg
made-IsTyped _ (made_buffers bs id) = buffers-IsTyped bs id
made-IsTyped _ (made_lines ls id) = lines-IsTyped ls id
made-IsTyped _ (made_nicklist ns) = nicklist-IsTyped ns
made-IsTyped _ (made_hotlist id) = hotlist-IsTyped id

-- Every message that a run sends to the clients is one uncompressed hdata object whose keys can be
-- read, which counts its items in 32 bits, and whose items each have as many pointers as the path has
-- elements and, under each key, an object of the type that the key declares.
pub run-IsTyped : (h : Host) (es : List Event) (b : Bridge) → All (Carries IsTyped) (run h es b).1
run-IsTyped h es b =
    All-mono (Carries IsMade) (Carries IsTyped) (run h es b).1
      (Carries-mono IsMade IsTyped made-IsTyped) (run-AreMade h es b)
