-- ===== src/Erssi/Types.antt =====
-- pkg/erssiproto/types.go: the messages of erssi's fe-web module.
use erssi_lith_bridge.Base.{
  Bool, true, false, ◌&&◌, not, List, [], ◌∷◌, Bytes, Result, ok, err, panic, if◌then◌else◌,
}
use erssi_lith_bridge.Base.Int.{ℤ, pos}

-- JSON values, as Go's `interface{}` holds them after json.Unmarshal. The program reads strings,
-- arrays and objects.
mutual
  pub data Json : Type 0 where
    null : Json
    bool : Bool → Json
    number : Bytes → Json  -- a float64, which the program never reads
    string : Bytes → Json
    array : Values → Json
    object : Members → Json

  -- []interface{}
  pub data Values : Type 0 where
    stop : Values
    value : Json → Values → Values

  -- map[string]interface{}
  pub data Members : Type 0 where
    close : Members
    member : Bytes → Json → Members → Members

-- The types that the bridge sends or tells apart; `other` is any other string.
pub data MessageType : Type 0 where
  message state_dump nicklist channel_join channel_part user_quit topic : MessageType
  activity_update sync_server : MessageType
  other : Bytes → MessageType

pub record WebMessage : Type 0 where
  pub id : Bytes
  pub type : MessageType
  pub server : Bytes
  pub server_tag : Bytes
  pub target : Bytes
  pub nick : Bytes
  pub text : Bytes
  pub level : ℤ
  pub timestamp : ℤ
  pub is_own : Bool
  pub is_highlight : Bool
  pub extra_data : Members  -- a nil map and an empty one are read alike
  pub response_to : Bytes

pub record NickInfo : Type 0 where
  pub nick : Bytes
  pub prefix : Bytes
  pub mode : Bytes
  pub host : Bytes

-- The records of the protocol that the program never makes or reads.
pub record ChannelInfo : Type 0 where
  pub name : Bytes
  pub topic : Bytes
  pub mode : Bytes
  pub user_count : ℤ
  pub nicks : List NickInfo

pub record ServerInfo : Type 0 where
  pub tag : Bytes
  pub address : Bytes
  pub port : ℤ
  pub connected : Bool
  pub nick : Bytes
  pub channels : List Bytes

pub record AuthRequest : Type 0 where
  pub type : MessageType
  pub password : Bytes
  pub token : Bytes

pub record CommandRequest : Type 0 where
  pub type : MessageType
  pub server_tag : Bytes
  pub target : Bytes
  pub command : Bytes
  pub text : Bytes

-- A message of the zero values, but for its type.
abbrev pub zero_message : MessageType → WebMessage
zero_message t = record {
  id = [];
  type = t;
  server = [];
  server_tag = [];
  target = [];
  nick = [];
  text = [];
  level = pos 0;
  timestamp = pos 0;
  is_own = false;
  is_highlight = false;
  extra_data = close;
  response_to = [];
}

abbrev pub is_empty : Bytes → Bool
is_empty [] = true
is_empty (c ∷ s) = false

-- `UnmarshalJSON` after the fields are decoded: `channel` is the field beside the message's own.
unfoldable pub take_channel : Bytes → WebMessage → WebMessage
take_channel channel m =
    if not (is_empty channel) && is_empty m.target then record m { target = channel } else m

unfoldable pub take_server : WebMessage → WebMessage
take_server m =
    if not (is_empty m.server) && is_empty m.server_tag
    then record m { server_tag = m.server }
    else m

-- What json.Unmarshal makes of a text for the struct and the pointer to it: an error, a nil pointer
-- for the text `null`, or the field `channel` and the message's own fields.
pub data Decoded : Type 0 where
  refused null : Decoded
  decoded : Bytes → WebMessage → Decoded

-- A field of a nil pointer is read, which panics.
unfoldable pub unmarshal_json : (Bytes → Decoded) → Bytes → Result (Unit {0}) WebMessage
unmarshal_json decode bs = elim (decode bs) [
  | refused ↦ err tt
  | null ↦ panic
  | decoded channel m ↦ ok (take_server (take_channel channel m))
]
