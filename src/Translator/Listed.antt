-- ===== src/Translator/Listed.antt =====
-- internal/translator/translator.go: the list of buffers that `ErssiToBufferList` gives.
use erssi_lith_bridge.Base.{◌≡◌, List, [], ◌∷◌, ◌++◌, Option, some, Bytes, if◌then◌else◌, Each}
use erssi_lith_bridge.Base.Text.{codes}
use erssi_lith_bridge.Base.Assoc.{lookup}
use erssi_lith_bridge.Proto.Create.{BufferData}
use erssi_lith_bridge.Erssi.Types.{
  Json, Values, Members, number, object, stop, value, WebMessage, is_empty,
}
use erssi_lith_bridge.Translator.State.{BufferState, Translator, Host, buffer_key}
use erssi_lith_bridge.Translator.Dump.{
  get_member, get_string, values_of, Listing, parsed_data, servers_of,
}
use erssi_lith_bridge.Translator.Changes.{Changes}

-- The server tag and the name of a channel or a query.
abbrev Room : Type 0
Room = Bytes × Bytes

room : Bytes → Bytes → List Room
room server_tag name = if is_empty name then [] else (server_tag, name) ∷ []

channel_rooms : Bytes → Json → List Room
unfolding room
channel_rooms server_tag (object m) = room server_tag (get_string m (codes "name"))
channel_rooms server_tag _ = []

query_rooms : Bytes → Json → List Room
unfolding room
query_rooms server_tag (object m) = room server_tag (get_string m (codes "nick"))
query_rooms server_tag _ = []

all_rooms : (Json → List Room) → Values → List Room
all_rooms f stop = []
all_rooms f (value j vs) = f j ++ all_rooms f vs

server_rooms : Json → List Room
unfolding all_rooms channel_rooms query_rooms
server_rooms (object m) =
    let tag = get_string m (codes "tag") in
    if is_empty tag
    then []
    else all_rooms (channel_rooms tag) (values_of (get_member (codes "channels") m))
      ++ all_rooms (query_rooms tag) (values_of (get_member (codes "queries") m))
server_rooms _ = []

-- The channels and queries that a dump names, server by server: its channels, then its queries.
unfoldable pub rooms_of : (Bytes → Option Members) → WebMessage → List Room
unfolding all_rooms server_rooms
rooms_of parse msg = all_rooms server_rooms (servers_of (parsed_data parse msg))

-- The entry of the list that is sent and the buffer that is kept agree.
pub record IsListed (h : Host) (t : Translator) (r : Room) (d : BufferData) : Type 0 where
  buffer : BufferState
  found : lookup (buffer_key h r.0 r.1) t.buffers ≡ some buffer
  pointer : d.pointer ≡ buffer.pointer
  number : d.number ≡ buffer.number
  name : d.name ≡ buffer.name
  short_name : d.short_name ≡ buffer.short_name

module _ (h : Host) where
  -- A step makes changes, and lists these rooms.
  abbrev Lists : List Room → Translator → Listing → Type 0
  Lists rs t l = Changes h t l.1 × Each (IsListed h l.1) rs l.0

  -- What a listing of a buffer tells of it.
  record Tells (data_of : BufferState → BufferData) : Type 0 where
    pointer : (b : BufferState) → (data_of b).pointer ≡ b.pointer
    number : (b : BufferState) → (data_of b).number ≡ b.number
    name : (b : BufferState) → (data_of b).name ≡ b.name
    short_name : (b : BufferState) → (data_of b).short_name ≡ b.short_name
