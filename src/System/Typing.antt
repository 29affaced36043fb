-- ===== src/System/Typing.antt =====
-- From a line that a client sends to the message that erssi gets.
use erssi_lith_bridge.Base.{
  ℕ, ◌≡◌, ◌≢◌, refl, true, List, [], ◌∷◌, ◌++◌, Option, some, Bytes, ok, All, arith,
}
use erssi_lith_bridge.Base.Text.{
  codes, Lacks, to_lower, join, fields, fields-append, IsWord, space_width, str_eq, IsDigit,
  IsPlainText, hex, hex-All,
}
use erssi_lith_bridge.Base.Assoc.{lookup}
use erssi_lith_bridge.Erssi.Types.{message, zero_message}
use erssi_lith_bridge.Translator.State.{BufferState, Host, buffer_key, pointer_text}
use erssi_lith_bridge.Translator.Identity.{IsTicking}
use erssi_lith_bridge.Bridge.State.{to_erssi, new_bridge}
use erssi_lith_bridge.Bridge.Handlers.{handle_weechat_command}
use erssi_lith_bridge.Bridge.Events.{Event, run}
use erssi_lith_bridge.Bridge.Runs.{run-HasPointers, typed_text_reaches_erssi}
use erssi_lith_bridge.Weechat.Command.{Command, command, strip_id, parse_line}
use erssi_lith_bridge.Weechat.Session.{
  Client, handle_command, handle_line, dispatch_command, forward, is_forwarded,
}

-- The line of a client that types a text into a buffer, with no identifier.
abbrev pub typed_line : Bytes → Bytes → Bytes
typed_line ptr text = codes "input " ++ (ptr ++ (codes " " ++ text))

abbrev pub typed_command : Bytes → Bytes → Command
typed_command ptr text = record { id = []; name = codes "input"; args = ptr ∷ fields text }

input_IsWord : IsWord (codes "input")
unfolding space_width
input_IsWord = ((λ e. cc), (refl, (refl, (refl, (refl, (refl, tt))))))

parse_line-typed_line :
    (ptr text : Bytes)
    → IsWord ptr
    → parse_line (typed_line ptr text) ≡ command (typed_command ptr text)
unfolding parse_line strip_id
parse_line-typed_line ptr text h =
    rw (fields-append (codes "input") (ptr ++ (b' ' ∷ text)) input_IsWord, fields-append ptr text h)

module _ {E W : Type 0} (write : Bytes → W → Option E × W) where
  typed_line_handled :
      (ptr text : Bytes) (random : Option Bytes) (c : Client W)
      → IsWord ptr
      → c.authenticated ≡ true
      → handle_command write random (typed_line ptr text) c
        ≡ (ok tt, c, typed_command ptr text ∷ [])
  unfolding handle_command handle_line dispatch_command forward is_forwarded str_eq
  typed_line_handled ptr text random c h on = rw (parse_line-typed_line ptr text h, handle_line, on)

digit_plain : (c : ℕ) (s : Bytes) → IsDigit 16 c → space_width (c ∷ s) ≡ 0
unfolding space_width
digit_plain c s h = ground arith

digits_plain : (s : Bytes) → All (IsDigit 16) s → IsPlainText s
digits_plain [] h = tt
digits_plain (c ∷ s) h = (digit_plain c s h.0, digits_plain s h.1)

x_plain : (s : Bytes) → (space_width (b'0' ∷ b'x' ∷ s) ≡ 0) × (space_width (b'x' ∷ s) ≡ 0)
unfolding space_width
x_plain s = (refl, refl)

-- A pointer is one word of a command.
pub pointer_text-IsWord : (n : ℕ) → IsWord (pointer_text n)
unfolding pointer_text
pointer_text-IsWord n =
    ((λ e. cc), ((x_plain (hex n)).0, ((x_plain (hex n)).1, digits_plain (hex n) (hex-All n))))

-- A client that is authenticated types a text that is not blank into a buffer of a server and a
-- target, by the buffer's pointer. Its line is handed on as one command, and that reaches erssi as one
-- message for the server and the target in lower case, whatever events came since the buffer was made.
-- The words of the text are joined by single blanks: white space at its ends is lost, and so is more
-- than a blank between two words. The server's tag must be without a dot and not empty, and no two
-- readings of the clock are equal.
pub typed_line_reaches_erssi :
    {E W : Type 0} (write : Bytes → W → Option E × W) (random : Option Bytes) (c : Client W)
    (h : Host) (es es' : List Event) (tag target text w : Bytes) (ws : List Bytes) (b : BufferState)
    → c.authenticated ≡ true
    → IsTicking h
    → lookup (buffer_key h tag target) (run h es new_bridge).0.translator.buffers ≡ some b
    → Lacks b'.' tag
    → tag ≢ []
    → fields text ≡ w ∷ ws
    → (handle_command write random (typed_line b.pointer text) c
        ≡ (ok tt, c, typed_command b.pointer text ∷ []))
      × ((handle_weechat_command []
            (codes "input")
            (typed_command b.pointer text).args
            (run h es' (run h es new_bridge).0).0).1
          ≡ to_erssi (record (zero_message message) {
            server_tag = tag;
            target = to_lower h.unicode_lower target;
            text = join (fields text) (codes " ");
          })
            ∷ [])
typed_line_reaches_erssi write random c h es es' tag target text w ws b on ticking found lacks
      nonempty spoken =
    let (i, old, e) = (run-HasPointers h es ticking).issued (buffer_key h tag target) b found in
    (
      typed_line_handled write b.pointer text random c (rw e (pointer_text-IsWord (h.clock i))) on,
      rw spoken
          (typed_text_reaches_erssi h es es' tag target [] w ws b ticking found lacks nonempty),
    )
