-- ===== src/Proto/RoundTrip/Nicks.antt =====
-- The nicklist, the hotlist and the answer to a handshake are readable.
use erssi_lith_bridge.Base.{
  suc, ◌+◌, ◌^◌, ◌<◌, ◌≡◌, refl, ap, List, [], ◌∷◌, Bytes, ok, some, length, All, arith,
}
use erssi_lith_bridge.Base.Int.{int32}
use erssi_lith_bridge.Base.Text.{codes, str_eq, split}
use erssi_lith_bridge.Proto.Encode.{get_field}
use erssi_lith_bridge.Proto.Encoder.{encode_body}
use erssi_lith_bridge.Proto.Create.{
  NickData, nick_keys, nick_fields, nick_items, create_nicklist_hdata, create_empty_hotlist_with_id,
}
use erssi_lith_bridge.Proto.Wire.{int_tag, str_tag, tag_of}
use erssi_lith_bridge.Proto.WireMessage.{Key, key, read_keys, path_size, read_body}
use erssi_lith_bridge.Proto.RoundTrip.Plain.{IsText, IsShort}
use erssi_lith_bridge.Proto.RoundTrip.Hdata.{Conforms, AreItems, count_items}
use erssi_lith_bridge.Proto.RoundTrip.Created.{bool_to_int-IsInt32, hdata_read_back}

-- The strings of a nick fit the widths of the format.
pub record IsNickData (n : NickData) : Type 0 where
  pub pointer : IsShort n.pointer
  pub name : IsText n.name
  pub color : IsText n.color
  pub prefix : IsText n.prefix
  pub prefix_color : IsText n.prefix_color

abbrev pub nick_declared : List Key
nick_declared =
    key (codes "group") int_tag
    ∷ key (codes "visible") int_tag
    ∷ key (codes "name") str_tag
    ∷ key (codes "color") str_tag
    ∷ key (codes "prefix") str_tag
    ∷ key (codes "prefix_color") str_tag
    ∷ []

pub nick_keys_read : read_keys nick_keys ≡ some nick_declared
unfolding read_keys split tag_of str_eq
nick_keys_read = refl

pub count-nick_items : (ns : List NickData) → count_items (nick_items ns) ≡ length ns
unfolding nick_items
count-nick_items [] = refl
count-nick_items (n ∷ ns) = ap suc (count-nick_items ns)

nick_fields-Conforms :
    (n : NickData) → IsNickData n → Conforms nick_declared (nick_fields n) (nick_fields n)
unfolding nick_fields get_field str_eq
nick_fields-Conforms n h = (
  refl,
  refl,
  bool_to_int-IsInt32 n.is_group,
  refl,
  (
    refl,
    refl,
    bool_to_int-IsInt32 n.visible,
    refl,
    (
      refl,
      refl,
      h.name,
      refl,
      (
        refl,
        refl,
        h.color,
        refl,
        (refl, refl, h.prefix, refl, (refl, refl, h.prefix_color, refl, tt)),
      ),
    ),
  ),
)

nick_items-AreItems :
    (ns : List NickData)
    → All IsNickData ns
    → AreItems 1 nick_declared (nick_items ns) (nick_items ns)
unfolding nick_items
nick_items-AreItems [] h = tt
nick_items-AreItems (n ∷ ns) h =
    (refl, refl, (h.0.pointer, tt), nick_fields-Conforms n h.0, nick_items-AreItems ns h.1)

-- The frame of a list of fewer than 2 ^ 31 nicks can be encoded, and a client reads the same nicks, in
-- the same order, from it.
pub nicklist_read_back :
    (ns : List NickData)
    → All IsNickData ns
    → length ns < 2 ^ 31
    → (body : Bytes) × (encode_body (create_nicklist_hdata ns) ≡ ok body)
      × (read_body (5 + length body) (0 ∷ body) ≡ some (create_nicklist_hdata ns))
unfolding create_nicklist_hdata path_size split
nicklist_read_back ns h small =
    hdata_read_back [] (codes "nicklist_item") nick_keys nick_declared (length ns) (nick_items ns)
      (omega arith) (omega arith, omega arith, refl) nick_keys_read (nick_items-AreItems ns h)
      (count-nick_items ns) small

-- The frame of an empty hotlist can be encoded, and a client reads it back.
pub hotlist_read_back :
    (id : Bytes)
    → IsText id
    → (body : Bytes) × (encode_body (create_empty_hotlist_with_id id) ≡ ok body)
      × (read_body (5 + length body) (0 ∷ body) ≡ some (create_empty_hotlist_with_id id))
unfolding create_empty_hotlist_with_id path_size split read_keys tag_of str_eq int32
hotlist_read_back id i =
    hdata_read_back id _ _ _ 0 _ i (omega arith, omega arith, refl) refl tt refl (omega arith)
