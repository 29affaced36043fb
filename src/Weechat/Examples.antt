-- ===== src/Weechat/Examples.antt =====
-- internal/weechat: the theorems on the server at concrete clients, and tests of its parsing.
use mathlib.Core.List.Perm
use erssi_lith_bridge.Base.{
  ℕ, ◌≡◌, refl, true, false, List, [], ◌∷◌, ◌++◌, Option, none, some, Bytes, ok, arith,
}
use erssi_lith_bridge.Base.Text.{codes, fields, trim_space, split, space_width, join}
use erssi_lith_bridge.Proto.Types.{Message, type_of, chr}
use erssi_lith_bridge.Proto.Encode.{encode, encode_string, encode_bytes, be32}
use erssi_lith_bridge.Proto.Encoder.{
  frame, encode_body, encode_objects, encode_typed, wrap_object, total_length,
}
use erssi_lith_bridge.Weechat.Command.{Command, drop_cr, scan}
use erssi_lith_bridge.Weechat.Session.{new_client, handle_client, hex_encode}
use erssi_lith_bridge.Weechat.Parsing.{print_command, IsCommand, unlines}
use erssi_lith_bridge.Weechat.Gate.{IsGated, handle_client-IsGated}
use erssi_lith_bridge.Weechat.Requests.{
  Request, init, hdata, IsRequest, line_of, command_of, handle_client-requests,
}
use erssi_lith_bridge.Weechat.Server.{Peer, broadcast_message}
use erssi_lith_bridge.Weechat.Clients.{clients_of, send_to_all, broadcast_message-send_to_all}

-- A connection that keeps all that is written to it.
abbrev pub log : Bytes → Bytes → Option (Unit {0}) × Bytes
log bs w = (none, w ++ bs)

abbrev pub sixteen_bytes : ℕ → Option Bytes
sixteen_bytes n = some (n ∷ [])

fields_blanks :
    fields (codes "  input 0x1  hello   world ")
    ≡ codes "input" ∷ codes "0x1" ∷ codes "hello" ∷ codes "world" ∷ []
unfolding fields
fields_blanks = refl

-- U+00A0 and U+2003 are white space, and the letter U+00E9 is none.
fields_unicode :
    fields (b'a' ∷ 0xc2 ∷ 0xa0 ∷ b'b' ∷ 0xe2 ∷ 0x80 ∷ 0x83 ∷ 0xc3 ∷ 0xa9 ∷ [])
    ≡ (b'a' ∷ []) ∷ (b'b' ∷ []) ∷ (0xc3 ∷ 0xa9 ∷ []) ∷ []
unfolding fields
fields_unicode = refl

trimmed : trim_space (codes "  a b \t") ≡ codes "a b"
unfolding trim_space
trimmed = refl

scanned : scan (codes "one\r\n\ntwo") ≡ (codes "one" ∷ [] ∷ codes "two" ∷ [], false)
unfolding scan split
scanned = refl

hexed : hex_encode (0 ∷ 171 ∷ 255 ∷ []) ≡ codes "00abff"
unfolding hex_encode
hexed = refl

abbrev greeting : Command
greeting = record { id = codes "7"; name = codes "hdata"; args = codes "hotlist" ∷ [] }

greeting-IsCommand : IsCommand greeting
unfolding space_width
greeting-IsCommand = record {
  id_lacks = omega arith;
  words = (((λ e. cc), omega arith), (((λ e. cc), omega arith), tt));
}

handle_client-IsGated_example :
    IsGated (handle_client log sixteen_bytes (codes "hdata x\ninit\n") (new_client []))
handle_client-IsGated_example = handle_client-IsGated log sixteen_bytes (codes "hdata x\ninit\n") []

abbrev an_init : Request
an_init = record { verb = init; id = codes "1"; args = [] }

abbrev a_request : Request
a_request = record { verb = hdata; id = codes "7"; args = codes "hotlist" ∷ [] }

an_init-IsRequest : IsRequest an_init
unfolding space_width print_command drop_cr join
an_init-IsRequest = record {
  printable = record { id_lacks = omega arith; words = (((λ e. cc), omega arith), tt) };
  one_line = record { lacks = omega arith; fits = omega arith; no_cr = refl };
}

a_request-IsRequest : IsRequest a_request
unfolding space_width print_command drop_cr join
a_request-IsRequest = record {
  printable = greeting-IsCommand;
  one_line = record { lacks = omega arith; fits = omega arith; no_cr = refl };
}

handle_client-requests_example :
    handle_client log sixteen_bytes
      (unlines (line_of an_init ∷ line_of a_request ∷ []))
      (new_client [])
    ≡ (
      ok tt,
      record { conn = []; authenticated = true; nonce = [] },
      command_of an_init ∷ command_of a_request ∷ [],
    )
handle_client-requests_example =
    handle_client-requests log sixteen_bytes (codes "1") [] (a_request ∷ []) [] an_init-IsRequest
      (a_request-IsRequest, tt)

-- two clients, of which the second did not send `init`
abbrev first_peer : Peer Bytes
first_peer = record {
  registered = true;
  client = record { conn = []; authenticated = true; nonce = [] };
}

abbrev second_peer : Peer Bytes
second_peer = record { registered = true; client = new_client [] }

abbrev two_peers : List (Peer Bytes)
two_peers = first_peer ∷ second_peer ∷ []

abbrev a_message : Message
a_message = record { id = []; compression = 0; objects = chr b'x' ∷ [] }

a_message-frame :
    frame a_message ≡ ok (0 ∷ 0 ∷ 0 ∷ 13 ∷ 0 ∷ 0 ∷ 0 ∷ 0 ∷ 0 ∷ b'c' ∷ b'h' ∷ b'r' ∷ b'x' ∷ [])
unfolding frame encode_body encode_objects encode_typed wrap_object type_of encode encode_string
    encode_bytes be32 total_length
a_message-frame = refl

-- the map is ranged over in the other order
broadcast_message-send_to_all_example :
    (clients_of (broadcast_message log a_message two_peers).0
      ≡ send_to_all log a_message (clients_of (second_peer ∷ first_peer ∷ [])))
    × ((broadcast_message log a_message two_peers).1 ≡ false)
broadcast_message-send_to_all_example =
    broadcast_message-send_to_all log a_message _ two_peers (second_peer ∷ first_peer ∷ [])
      a_message-frame (Perm.swap second_peer first_peer [])
