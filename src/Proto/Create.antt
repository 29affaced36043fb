-- ===== src/Proto/Create.antt =====
-- pkg/weechatproto/encoder.go: the messages that the bridge sends.
use erssi_lith_bridge.Base.{◌%◌, ◌^◌, Bool, true, false, List, [], ◌∷◌, ◌++◌, Bytes, length}
use erssi_lith_bridge.Base.Int.{ℤ, pos, int32}
use erssi_lith_bridge.Base.Text.{codes}
use erssi_lith_bridge.Proto.Types.{
  int, ptr, tim, htb, hda, Items, nil, item, Fields, end, field, Message, new_string,
}

pub record BufferData : Type 0 where
  pub pointer : Bytes
  pub number : ℤ
  pub name : Bytes
  pub short_name : Bytes
  pub hidden : Bool
  pub title : Bytes
  pub local_variables : Bytes

pub record LineData : Type 0 where
  pub pointer : Bytes
  pub buffer_ptr : Bytes
  pub date : ℤ
  pub date_printed : ℤ
  pub displayed : Bool
  pub highlight : Bool
  pub tags : Bytes
  pub prefix : Bytes
  pub message : Bytes

pub record NickData : Type 0 where
  pub pointer : Bytes
  pub is_group : Bool
  pub visible : Bool
  pub name : Bytes
  pub color : Bytes
  pub prefix : Bytes
  pub prefix_color : Bytes

unfoldable pub bool_to_int : Bool → ℤ
bool_to_int true = pos 1
bool_to_int false = pos 0

unfoldable pub create_handshake_response : Bytes → Bytes → Bytes → Message
create_handshake_response id password_hash_algo nonce = record {
  id = id;
  compression = 0;
  objects =
      htb (codes "str") (codes "str") (pos 6)
        (codes "password_hash_algo"
          ∷ codes "password_hash_iterations"
          ∷ codes "totp"
          ∷ codes "nonce"
          ∷ codes "compression"
          ∷ codes "escape_commands"
          ∷ [])
        (password_hash_algo ∷ codes "100000" ∷ codes "off" ∷ nonce ∷ codes "off" ∷ codes "off" ∷ [])
      ∷ [];
}

-- `Count: int32(len(items))`
abbrev pub count_of {ℓ} : {A : Type ℓ} → List A → ℤ
count_of xs = int32 (length xs % 2 ^ 32)

-- One HData object in a message.
abbrev pub hdata_message : Bytes → Bytes → Bytes → ℤ → Items → Message
hdata_message id path keys n is = record {
  id = id;
  compression = 0;
  objects = hda path keys n is ∷ [];
}

abbrev pub buffer_keys : Bytes
buffer_keys = codes "number:int,name:str,short_name:str,hidden:int,title:str,local_variables:str"

unfoldable pub buffer_fields : BufferData → Fields
unfolding bool_to_int
buffer_fields b = field (codes "number") (int b.number) (
    field (codes "name") (new_string b.name) (
      field (codes "short_name") (new_string b.short_name) (
        field (codes "hidden") (int (bool_to_int b.hidden)) (
          field (codes "title") (new_string b.title)
            (field (codes "local_variables") (new_string b.local_variables) end)))))

unfoldable pub buffer_items : List BufferData → Items
unfolding buffer_fields
buffer_items [] = nil
buffer_items (b ∷ bs) = item (b.pointer ∷ []) (buffer_fields b) (buffer_items bs)

unfoldable pub create_buffers_hdata_with_id : List BufferData → Bytes → Message
unfolding buffer_items int32
create_buffers_hdata_with_id buffers id =
    hdata_message id (codes "buffer") buffer_keys (count_of buffers) (buffer_items buffers)

unfoldable pub create_buffers_hdata : List BufferData → Message
unfolding create_buffers_hdata_with_id
create_buffers_hdata buffers = create_buffers_hdata_with_id buffers []

unfoldable pub create_empty_hotlist_with_id : Bytes → Message
create_empty_hotlist_with_id id =
    hdata_message id (codes "hotlist")
      (codes "priority:int,date:tim,date_printed:tim,buffer:ptr,count:int") (pos 0) nil

unfoldable pub create_empty_hotlist : Message
unfolding create_empty_hotlist_with_id
create_empty_hotlist = create_empty_hotlist_with_id []

abbrev pub line_keys : Bytes
line_keys =
    codes "buffer:ptr,date:tim,date_printed:tim,displayed:int,highlight:int,"
    ++ codes "tags_array:str,prefix:str,message:str"

unfoldable pub line_fields : LineData → Fields
unfolding bool_to_int
line_fields l = field (codes "buffer") (ptr l.buffer_ptr) (
    field (codes "date") (tim l.date) (
      field (codes "date_printed") (tim l.date_printed) (
        field (codes "displayed") (int (bool_to_int l.displayed)) (
          field (codes "highlight") (int (bool_to_int l.highlight)) (
            field (codes "tags_array") (new_string l.tags) (
              field (codes "prefix") (new_string l.prefix)
                (field (codes "message") (new_string l.message) end)))))))

unfoldable pub line_items : List LineData → Items
unfolding line_fields
line_items [] = nil
line_items (l ∷ ls) = item (l.pointer ∷ []) (line_fields l) (line_items ls)

unfoldable pub create_lines_hdata_with_id : List LineData → Bytes → Message
unfolding line_items int32
create_lines_hdata_with_id lines id =
    hdata_message id (codes "line_data") line_keys (count_of lines) (line_items lines)

unfoldable pub create_lines_hdata : List LineData → Message
unfolding create_lines_hdata_with_id
create_lines_hdata lines = create_lines_hdata_with_id lines []

abbrev pub nick_keys : Bytes
nick_keys = codes "group:int,visible:int,name:str,color:str,prefix:str,prefix_color:str"

unfoldable pub nick_fields : NickData → Fields
unfolding bool_to_int
nick_fields n = field (codes "group") (int (bool_to_int n.is_group)) (
    field (codes "visible") (int (bool_to_int n.visible)) (
      field (codes "name") (new_string n.name) (
        field (codes "color") (new_string n.color) (
          field (codes "prefix") (new_string n.prefix)
            (field (codes "prefix_color") (new_string n.prefix_color) end)))))

unfoldable pub nick_items : List NickData → Items
unfolding nick_fields
nick_items [] = nil
nick_items (n ∷ ns) = item (n.pointer ∷ []) (nick_fields n) (nick_items ns)

unfoldable pub create_nicklist_hdata : List NickData → Message
unfolding nick_items int32
create_nicklist_hdata nicks =
    hdata_message [] (codes "nicklist_item") nick_keys (count_of nicks) (nick_items nicks)
