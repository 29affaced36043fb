-- ===== src/Weechat/Session.antt =====
-- internal/weechat/server.go: the state of a client, and the handling of its commands.
use erssi_lith_bridge.Base.{
  ℕ, ◌+◌, ◌/◌, ◌%◌, Bool, true, false, List, [], ◌∷◌, ◌++◌, Option, none, some, Bytes, Result, ok,
  err, panic, ◌||◌, if◌then◌else◌,
}
use erssi_lith_bridge.Base.Text.{codes, str_eq, digit}
use erssi_lith_bridge.Proto.Types.{Message}
use erssi_lith_bridge.Proto.Create.{create_handshake_response}
use erssi_lith_bridge.Proto.Encoder.{SendError, encode_message}
use erssi_lith_bridge.Weechat.Command.{Command, Line, malformed, blank, command, parse_line, scan}

-- `W` is the connection, with all that was written to it.
pub record Client (W : Type 0) : Type 0 where
  pub conn : W
  pub authenticated : Bool
  pub nonce : Bytes

abbrev pub new_client : {W : Type 0} → W → Client W
new_client w = record { conn = w; authenticated = false; nonce = [] }

-- The errors of `handleCommand`. `E` is the connection's.
pub data CommandError (E : Type 0) : Type 0 where
  malformed_id not_authenticated quit_requested random_failed : CommandError E
  send_failed : SendError E → CommandError E

-- What handling gives: the error or none, the client after it, and the commands handed on to the
-- bridge, each of which runs in a goroutine of its own.
abbrev pub Handled : Type 0 → Type 0 → Type 0
Handled E W = Result (CommandError E) (Unit {0}) × Client W × List Command

-- hex.EncodeToString.
unfoldable pub hex_encode : Bytes → Bytes
hex_encode [] = []
hex_encode (c ∷ s) = digit (c / 16) ∷ digit (c % 16) ∷ hex_encode s

abbrev pub send_result :
    {E : Type 0} → Result (SendError E) (Unit {0}) → Result (CommandError E) (Unit {0})
send_result (ok _) = ok tt
send_result (err e) = err (send_failed e)
send_result panic = panic

module _ {E W : Type 0} (write : Bytes → W → Option E × W) where
  -- `SendMessage`.
  unfoldable pub send_message : Message → Client W → Result (SendError E) (Unit {0}) × Client W
  send_message msg c = let (r, w) = encode_message write msg c.conn in (r, record c { conn = w })

  -- `random` is what rand.Read gives: sixteen bytes, or none where it fails.
  unfoldable pub handle_handshake : Option Bytes → Bytes → Client W → Handled E W
  unfolding send_message
  handle_handshake none id c = (err random_failed, c, [])
  handle_handshake (some bytes) id c =
      let nonce = hex_encode bytes in
      let (r, c') =
        send_message (create_handshake_response id (codes "plain") nonce)
          (record c { nonce = nonce }) in
      (send_result r, c', [])

-- `handleInit`: every client is accepted.
unfoldable pub handle_init : {E W : Type 0} → Command → Client W → Handled E W
handle_init cmd c = (ok tt, record c { authenticated = true }, cmd ∷ [])

-- `handleHData`, `handleInput`, `handleSync`, `handleDesync` and `handleNicklist`.
unfoldable pub forward : {E W : Type 0} → Command → Client W → Handled E W
forward cmd c = if c.authenticated then (ok tt, c, cmd ∷ []) else (err not_authenticated, c, [])

unfoldable pub is_forwarded : Bytes → Bool
is_forwarded name =
    str_eq name (codes "hdata")
    || (str_eq name (codes "input")
        || (str_eq name (codes "sync")
            || (str_eq name (codes "desync") || str_eq name (codes "nicklist"))))

-- One line is handled, and then the rest unless it failed.
unfoldable pub then_lines : {E W : Type 0} → Handled E W → (Client W → Handled E W) → Handled E W
then_lines (ok _, c, out) rest = let (r, c', out') = rest c in (r, c', out ++ out')
then_lines (err e, c, out) rest = (err e, c, out)
then_lines (panic, c, out) rest = (panic, c, out)

module _ {E W : Type 0} (write : Bytes → W → Option E × W) where
  -- The switch of `handleCommand`.
  unfoldable pub dispatch_command : Option Bytes → Command → Client W → Handled E W
  unfolding is_forwarded
  dispatch_command random cmd c =
      if str_eq cmd.name (codes "handshake")
      then handle_handshake write random cmd.id c
      else if str_eq cmd.name (codes "init")
      then handle_init cmd c
      else if is_forwarded cmd.name
      then forward cmd c
      else if str_eq cmd.name (codes "quit")
      then (err quit_requested, c, [])
      else (ok tt, c, [])

  unfoldable pub handle_line : Option Bytes → Line → Client W → Handled E W
  handle_line random malformed c = (err malformed_id, c, [])
  handle_line random blank c = (ok tt, c, [])
  handle_line random (command cmd) c = dispatch_command random cmd c

  unfoldable pub handle_command : Option Bytes → Bytes → Client W → Handled E W
  handle_command random line c = handle_line random (parse_line line) c

  -- The loop of `handleClient`: an error ends it, and the lines behind are not handled. `random n` is
  -- the reading of rand.Read during line n.
  unfoldable pub handle_lines : (ℕ → Option Bytes) → ℕ → List Bytes → Client W → Handled E W
  handle_lines random n [] c = (ok tt, c, [])
  handle_lines random n (l ∷ ls) c =
      then_lines (handle_command (random n) l c) (λ c'. handle_lines random (n + 1) ls c')

  -- A whole connection, from its bytes; the scanner's own error is logged.
  unfoldable pub handle_client : (ℕ → Option Bytes) → Bytes → Client W → Handled E W
  handle_client random input c = handle_lines random 0 (scan input).0 c
