-- ===== src/System/Examples.antt =====
-- The theorems on the whole program at a concrete run: a client connects, sends a handshake and a
-- command that is refused, and erssi sends a message.
use erssi_lith_bridge.Base.{◌⊎◌, ◌≡◌, refl, ok, true, false, [], ◌∷◌, none, some, Bytes, get_elem?}
use erssi_lith_bridge.Base.Text.{codes, fields, str_eq, cut, trim_space}
use erssi_lith_bridge.Erssi.Types.{decoded, unmarshal_json, take_channel, take_server}
use erssi_lith_bridge.Erssi.Client.{Frame, read_frame}
use erssi_lith_bridge.Translator.Examples.{a_host, hello}
use erssi_lith_bridge.Bridge.Events.{from_erssi}
use erssi_lith_bridge.Proto.Types.{type_of}
use erssi_lith_bridge.Proto.Encode.{encode, encode_pairs}
use erssi_lith_bridge.Proto.Encoder.{
  encode_message, send_body, encode_body, encode_objects, encode_typed, wrap_object, then_write,
  after_write,
}
use erssi_lith_bridge.Proto.Create.{create_handshake_response}
use erssi_lith_bridge.Weechat.Command.{parse_line, strip_id}
use erssi_lith_bridge.Weechat.Session.{
  new_client, handle_command, handle_line, dispatch_command, handle_handshake, send_message,
}
use erssi_lith_bridge.Weechat.Server.{Peer, accept, modify, after_line}
use erssi_lith_bridge.Weechat.Examples.{log}
use erssi_lith_bridge.System.State.{System, new_system, take_line, run_task}
use erssi_lith_bridge.System.Steps.{
  World, Step, accepts, reads_line, receives, runs, Reach, start, next,
}
use erssi_lith_bridge.System.Privacy.{OnlyHandshakes}
use erssi_lith_bridge.System.Reachable.{unauthenticated-OnlyHandshakes}
use erssi_lith_bridge.System.Panics.{HasCrash, HasBroken, goes_on}
use erssi_lith_bridge.System.Modest.{IsModest, modest-running}

abbrev pub a_world : World (Unit {0}) Bytes
a_world = record {
  write = log;
  close = λ w. w;
  fresh = [];
  host = a_host;
  cipher = record {
    pbkdf2_key = λ password salt rounds size. password;
    new_cipher = λ key. true;
    new_gcm = λ key. true;
    gcm_open = λ key iv sealed. none;
  };
  decode = λ s. decoded [] hello;
  key = none;
}

abbrev pub a_frame : Frame
a_frame = record { binary = false; payload = codes "{}" }

pub hello_read : read_frame a_world.cipher a_world.decode a_world.key a_frame ≡ ok hello
unfolding read_frame unmarshal_json take_channel take_server
hello_read = refl

abbrev connected : System Bytes
connected = record new_system { peers = accept [] [] }

abbrev pub told : System Bytes
told = record connected { tasks = (none, from_erssi hello) ∷ [] }

abbrev pub handled : System Bytes
handled = run_task a_host none (from_erssi hello) [] told

pub handled_runs : handled.running ≡ true
unfolding run_task
handled_runs = refl

connected_Reach : Reach a_world connected
connected_Reach = next start refl accepts

-- the steps to it
abbrev pub told_steps : Reach a_world told
told_steps = next (next start refl accepts) refl (receives a_frame hello hello_read)

told_Reach : Reach a_world told
told_Reach = told_steps

pub handled_Reach : Reach a_world handled
handled_Reach = next told_Reach refl (runs [] [] none (from_erssi hello) refl)

abbrev a_peer : Peer Bytes
a_peer = record { registered = true; client = new_client [] }

peer_there : get_elem? connected.peers 0 ≡ some a_peer
unfolding accept
peer_there = refl

-- the client's handshake is answered
abbrev pub greeted_state : System Bytes
greeted_state =
    take_line (λ w. w) 0
      (handle_command log (some (1 ∷ 2 ∷ [])) (codes "(1) handshake x") a_peer.client) connected

pub greeted_Reach : Reach a_world greeted_state
greeted_Reach =
    next connected_Reach refl
      (reads_line 0 a_peer (codes "(1) handshake x") (some (1 ∷ 2 ∷ [])) peer_there refl)

abbrev pub greeted_peer : Peer Bytes
greeted_peer =
    after_line (λ w. w)
      (handle_command log (some (1 ∷ 2 ∷ [])) (codes "(1) handshake x") a_peer.client) a_peer

pub greeted_there : get_elem? greeted_state.peers 0 ≡ some greeted_peer
unfolding take_line modify accept
greeted_there = refl

greeted_off : greeted_peer.client.authenticated ≡ false
unfolding after_line handle_command handle_line parse_line strip_id cut trim_space fields
    dispatch_command str_eq handle_handshake send_message encode_message send_body encode_body
    encode_objects encode_typed wrap_object type_of encode create_handshake_response encode_pairs
    then_write after_write
greeted_off = refl

unauthenticated-OnlyHandshakes_example : OnlyHandshakes log (λ w. w) [] greeted_peer.client.conn
unauthenticated-OnlyHandshakes_example =
    unauthenticated-OnlyHandshakes a_world greeted_state 0 greeted_peer greeted_Reach greeted_there
      greeted_off

abbrev greeting : Step a_world connected greeted_state
greeting = reads_line 0 a_peer (codes "(1) handshake x") (some (1 ∷ 2 ∷ [])) peer_there refl

goes_on_example : (greeted_state.running ≡ true) ⊎ HasCrash connected ⊎ HasBroken greeting
goes_on_example = goes_on a_world connected greeted_state connected_Reach refl greeting

-- the steps to the greeted state
abbrev greeted_steps : Reach a_world greeted_state
greeted_steps =
    next (next start refl accepts) refl
      (reads_line 0 a_peer (codes "(1) handshake x") (some (1 ∷ 2 ∷ [])) peer_there refl)

greeted-IsModest : IsModest greeted_steps
unfolding handle_command handle_line parse_line strip_id cut trim_space fields dispatch_command
    str_eq handle_handshake
greeted-IsModest = ((tt, tt), tt)

modest-running_example : greeted_state.running ≡ true
modest-running_example = modest-running a_world greeted_state greeted_steps greeted-IsModest
