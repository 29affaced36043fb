-- ===== src/Translator/Dump.antt =====
-- internal/translator/translator.go: `ErssiToBufferList`, which makes buffers from a dump of erssi's
-- state. A map holds a key once, and the first member with a key is taken.
use erssi_lith_bridge.Base.{false, List, [], ◌∷◌, ◌++◌, Option, none, some, Bytes, if◌then◌else◌}
use erssi_lith_bridge.Base.Int.{pos}
use erssi_lith_bridge.Base.Text.{codes, str_eq}
use erssi_lith_bridge.Base.Assoc.{insert}
use erssi_lith_bridge.Proto.Types.{Message}
use erssi_lith_bridge.Proto.Create.{BufferData, create_buffers_hdata}
use erssi_lith_bridge.Erssi.Types.{
  Json, Values, Members, string, array, object, stop, value, close, member, WebMessage, is_empty,
}
use erssi_lith_bridge.Translator.State.{BufferState, Translator, Host, generate_pointer}
use erssi_lith_bridge.Translator.Buffers.{create_buffer_with_topic}

unfoldable pub get_member : Bytes → Members → Option Json
get_member key close = none
get_member key (member k v m) = if str_eq k key then some v else get_member key m

abbrev pub string_of : Option Json → Bytes
string_of (some (string s)) = s
string_of _ = []

-- `getString`.
unfoldable pub get_string : Members → Bytes → Bytes
get_string m key = string_of (get_member key m)

-- The values of an array; the loop over anything else is not entered.
abbrev pub values_of : Option Json → Values
values_of (some (array vs)) = vs
values_of _ = stop

-- The buffers that a step adds to the list, and the translator after it.
abbrev pub Listing : Type 0
Listing = List BufferData × Translator

unfoldable pub then_list : Listing → (Translator → Listing) → Listing
then_list (bs, t) rest = let (cs, t') = rest t in (bs ++ cs, t')

unfoldable pub each_value : (Json → Translator → Listing) → Values → Translator → Listing
unfolding then_list
each_value f stop t = ([], t)
each_value f (value j vs) t = then_list (f j t) (each_value f vs)

abbrev pub channel_data : BufferState → BufferData
channel_data b = record {
  pointer = b.pointer;
  number = b.number;
  name = b.name;
  short_name = b.short_name;
  hidden = false;
  title = b.title;
  local_variables = codes "type=channel";
}

abbrev pub query_data : Bytes → BufferState → BufferData
query_data nick b = record {
  pointer = b.pointer;
  number = b.number;
  name = b.name;
  short_name = b.short_name;
  hidden = false;
  title = codes "Private chat with " ++ nick;
  local_variables = codes "type=private";
}

abbrev pub core_data : Bytes → BufferData
core_data ptr = record {
  pointer = ptr;
  number = pos 1;
  name = codes "core.weechat";
  short_name = codes "weechat";
  hidden = false;
  title = codes "WeeChat (via erssi bridge)";
  local_variables = codes "type=server";
}

abbrev pub core_buffer : Bytes → BufferState
core_buffer ptr = record {
  pointer = ptr;
  number = pos 1;
  server_tag = [];
  name = codes "core.weechat";
  short_name = codes "weechat";
  title = [];
  lines = [];
  nicks = [];
  is_server = false;
}

-- `parsedData`: `parse` is json.Unmarshal into a map.
unfoldable pub parsed_data : (Bytes → Option Members) → WebMessage → Option Members
parsed_data parse msg = elim msg.extra_data [
  | member k v m ↦ some (member k v m)
  | close ↦ if is_empty msg.text then none else parse msg.text
]

abbrev pub servers_of : Option Members → Values
servers_of none = stop
servers_of (some m) = values_of (get_member (codes "servers") m)

module _ (h : Host) where
  unfoldable pub list_room :
      Bytes → Bytes → Bytes → (BufferState → BufferData) → Translator → Listing
  list_room server_tag name topic data_of t = if is_empty name then ([], t) else (
    data_of (create_buffer_with_topic h server_tag name topic t).0 ∷ [],
    (create_buffer_with_topic h server_tag name topic t).1,
  )

  unfoldable pub list_channel : Bytes → Json → Translator → Listing
  unfolding list_room
  list_channel server_tag (object m) t =
      list_room server_tag (get_string m (codes "name")) (get_string m (codes "topic")) channel_data
        t
  list_channel server_tag _ t = ([], t)

  unfoldable pub list_query : Bytes → Json → Translator → Listing
  unfolding list_room
  list_query server_tag (object m) t =
      let nick = get_string m (codes "nick") in list_room server_tag nick [] (query_data nick) t
  list_query server_tag _ t = ([], t)

  unfoldable pub list_rooms : Bytes → Members → Translator → Listing
  unfolding list_channel list_query
  list_rooms server_tag m t =
      if is_empty server_tag
      then ([], t)
      else then_list
          (each_value (list_channel server_tag) (values_of (get_member (codes "channels") m)) t)
          (each_value (list_query server_tag) (values_of (get_member (codes "queries") m)))

  unfoldable pub list_server : Json → Translator → Listing
  unfolding list_rooms
  list_server (object m) t = list_rooms (get_string m (codes "tag")) m t
  list_server _ t = ([], t)

  -- The core buffer has the number 1 and is kept under the key `core`.
  unfoldable pub add_core : Translator → Bytes × Translator
  add_core t =
      let (ptr, t') = generate_pointer h t in
      (ptr, record t' { buffers = insert (codes "core") (core_buffer ptr) t'.buffers })

  unfoldable pub erssi_to_buffer_list :
      (Bytes → Option Members) → WebMessage → Translator → Message × Translator
  unfolding add_core
  erssi_to_buffer_list parse msg t =
      let (ptr, t') = add_core t in
      let (bs, t'') = each_value list_server (servers_of (parsed_data parse msg)) t' in
      (create_buffers_hdata (core_data ptr ∷ bs), t'')
