-- ===== src/Proto/Typed.antt =====
-- pkg/weechatproto: the messages that the Create functions make of hdata hold what their keys declare.
use erssi_lith_bridge.Base.{ℕ, ◌%◌, ◌^◌, ◌≡◌, refl, sym, ap, List, [], ◌∷◌, Bytes, length, some}
use erssi_lith_bridge.Base.Int.{int32}
use erssi_lith_bridge.Base.Text.{codes, str_eq, split}
use erssi_lith_bridge.Proto.Types.{Message, Object, Items, nil, item, Fields}
use erssi_lith_bridge.Proto.Encode.{get_field}
use erssi_lith_bridge.Proto.Create.{
  BufferData, LineData, NickData, hdata_message, buffer_keys, buffer_items, buffer_fields,
  line_keys, line_items, line_fields, nick_keys, nick_items, nick_fields,
  create_buffers_hdata_with_id, create_lines_hdata_with_id, create_nicklist_hdata,
  create_empty_hotlist_with_id,
}
use erssi_lith_bridge.Proto.Wire.{tag_of}
use erssi_lith_bridge.Proto.WireMessage.{Key, key, read_keys, path_size}
use erssi_lith_bridge.Proto.RoundTrip.Objects.{tag}
use erssi_lith_bridge.Proto.RoundTrip.Hdata.{count_items}
use erssi_lith_bridge.Proto.RoundTrip.Created.{
  buffer_declared, buffer_keys_read, count-buffer_items, line_declared, line_keys_read,
  count-line_items,
}
use erssi_lith_bridge.Proto.RoundTrip.Nicks.{nick_declared, nick_keys_read, count-nick_items}

-- Under each key there is an object of the type that it declares.
abbrev pub HasFields : List Key → Fields → Type 0
HasFields [] fs = Unit
HasFields (key name t ∷ ks) fs =
    ((o : Object) × (get_field name fs ≡ some o) × (tag o ≡ t)) × HasFields ks fs

abbrev pub HasItems : ℕ → List Key → Items → Type 0
HasItems n ks nil = Unit
HasItems n ks (item ps fs is) = (length ps ≡ n) × HasFields ks fs × HasItems n ks is

-- One object of hdata, with the keys that it declares.
pub record IsTyped (msg : Message) : Type 0 where
  pub path : Bytes
  pub keys : Bytes
  pub items : Items
  pub declared : List Key
  pub shape : msg ≡ hdata_message msg.id path keys (int32 (count_items items % 2 ^ 32)) items
  pub keys_read : read_keys keys ≡ some declared
  pub has_items : HasItems (path_size path) declared items

buffers-HasItems : (bs : List BufferData) → HasItems 1 buffer_declared (buffer_items bs)
unfolding buffer_items buffer_fields get_field str_eq
buffers-HasItems [] = tt
buffers-HasItems (b ∷ bs) = (
  refl,
  (
    (_, refl, refl),
    (
      (_, refl, refl),
      ((_, refl, refl), ((_, refl, refl), ((_, refl, refl), ((_, refl, refl), tt)))),
    ),
  ),
  buffers-HasItems bs,
)

lines-HasItems : (ls : List LineData) → HasItems 1 line_declared (line_items ls)
unfolding line_items line_fields get_field str_eq
lines-HasItems [] = tt
lines-HasItems (l ∷ ls) = (
  refl,
  (
    (_, refl, refl),
    (
      (_, refl, refl),
      (
        (_, refl, refl),
        (
          (_, refl, refl),
          ((_, refl, refl), ((_, refl, refl), ((_, refl, refl), ((_, refl, refl), tt)))),
        ),
      ),
    ),
  ),
  lines-HasItems ls,
)

nicks-HasItems : (ns : List NickData) → HasItems 1 nick_declared (nick_items ns)
unfolding nick_items nick_fields get_field str_eq
nicks-HasItems [] = tt
nicks-HasItems (n ∷ ns) = (
  refl,
  (
    (_, refl, refl),
    (
      (_, refl, refl),
      ((_, refl, refl), ((_, refl, refl), ((_, refl, refl), ((_, refl, refl), tt)))),
    ),
  ),
  nicks-HasItems ns,
)

pub buffers-IsTyped :
    (bs : List BufferData) (id : Bytes) → IsTyped (create_buffers_hdata_with_id bs id)
unfolding create_buffers_hdata_with_id path_size split
buffers-IsTyped bs id = record {
  path = codes "buffer";
  keys = buffer_keys;
  items = buffer_items bs;
  declared = buffer_declared;
  shape =
      ap (λ c. hdata_message id (codes "buffer") buffer_keys (int32 (c % 2 ^ 32)) (buffer_items bs))
        (sym (count-buffer_items bs));
  keys_read = buffer_keys_read;
  has_items = buffers-HasItems bs;
}

pub lines-IsTyped : (ls : List LineData) (id : Bytes) → IsTyped (create_lines_hdata_with_id ls id)
unfolding create_lines_hdata_with_id path_size split
lines-IsTyped ls id = record {
  path = codes "line_data";
  keys = line_keys;
  items = line_items ls;
  declared = line_declared;
  shape =
      ap (λ c. hdata_message id (codes "line_data") line_keys (int32 (c % 2 ^ 32)) (line_items ls))
        (sym (count-line_items ls));
  keys_read = line_keys_read;
  has_items = lines-HasItems ls;
}

pub nicklist-IsTyped : (ns : List NickData) → IsTyped (create_nicklist_hdata ns)
unfolding create_nicklist_hdata path_size split
nicklist-IsTyped ns = record {
  path = codes "nicklist_item";
  keys = nick_keys;
  items = nick_items ns;
  declared = nick_declared;
  shape =
      ap
        (λ c.
          hdata_message [] (codes "nicklist_item") nick_keys (int32 (c % 2 ^ 32)) (nick_items ns))
        (sym (count-nick_items ns));
  keys_read = nick_keys_read;
  has_items = nicks-HasItems ns;
}

pub hotlist-IsTyped : (id : Bytes) → IsTyped (create_empty_hotlist_with_id id)
unfolding create_empty_hotlist_with_id read_keys split tag_of str_eq int32
hotlist-IsTyped id = record {
  path = codes "hotlist";
  keys = codes "priority:int,date:tim,date_printed:tim,buffer:ptr,count:int";
  items = nil;
  declared = _;
  shape = refl;
  keys_read = refl;
  has_items = tt;
}
