-- ===== src/Proto/RoundTrip/Created.antt =====
-- The messages that the bridge builds are readable: the keys of their hdata name the fields that
-- their items have, at the types that they declare.
use erssi_lith_bridge.Base.{
  ℕ, suc, ◌+◌, ◌%◌, ◌^◌, ◌<◌, ◌≡◌, refl, ap, ◌∙◌, Bool, true, false, List, [], ◌∷◌, Bytes, ok, some,
  length, All, arith,
}
use erssi_lith_bridge.Base.Int.{pos, int32, IsInt32, IsInt64}
use erssi_lith_bridge.Base.Text.{codes, str_eq, split}
use erssi_lith_bridge.Proto.Types.{Items}
use erssi_lith_bridge.Proto.Encode.{get_field}
use erssi_lith_bridge.Proto.Encoder.{encode_body}
use erssi_lith_bridge.Proto.Create.{
  BufferData, LineData, bool_to_int, hdata_message, buffer_keys, buffer_fields, buffer_items,
  create_buffers_hdata_with_id, line_keys, line_fields, line_items, create_lines_hdata_with_id,
}
use erssi_lith_bridge.Proto.Wire.{int_tag, str_tag, ptr_tag, tim_tag, tag_of}
use erssi_lith_bridge.Proto.WireMessage.{Key, key, read_keys, path_size, read_body}
use erssi_lith_bridge.Proto.RoundTrip.Plain.{IsText, IsShort}
use erssi_lith_bridge.Proto.RoundTrip.Hdata.{Conforms, AreItems, count_items}
use erssi_lith_bridge.Proto.RoundTrip.Messages.{read_body-encode_body}

pub bool_to_int-IsInt32 : (b : Bool) → IsInt32 (bool_to_int b)
unfolding bool_to_int
bool_to_int-IsInt32 true = omega arith
bool_to_int-IsInt32 false = omega arith

count_small : (n : ℕ) → n < 2 ^ 31 → int32 (n % 2 ^ 32) ≡ pos n
unfolding int32
count_small n h = ground arith

-- The strings and numbers of a buffer fit the widths of the format.
pub record IsBufferData (b : BufferData) : Type 0 where
  pub pointer : IsShort b.pointer
  pub number : IsInt32 b.number
  pub name : IsText b.name
  pub short_name : IsText b.short_name
  pub title : IsText b.title
  pub local_variables : IsText b.local_variables

abbrev pub buffer_declared : List Key
buffer_declared =
    key (codes "number") int_tag
    ∷ key (codes "name") str_tag
    ∷ key (codes "short_name") str_tag
    ∷ key (codes "hidden") int_tag
    ∷ key (codes "title") str_tag
    ∷ key (codes "local_variables") str_tag
    ∷ []

pub buffer_keys_read : read_keys buffer_keys ≡ some buffer_declared
unfolding read_keys split tag_of str_eq
buffer_keys_read = refl

buffer_fields-Conforms :
    (b : BufferData) → IsBufferData b → Conforms buffer_declared (buffer_fields b) (buffer_fields b)
unfolding buffer_fields get_field str_eq
buffer_fields-Conforms b h = (
  refl,
  refl,
  h.number,
  refl,
  (
    refl,
    refl,
    h.name,
    refl,
    (
      refl,
      refl,
      h.short_name,
      refl,
      (
        refl,
        refl,
        bool_to_int-IsInt32 b.hidden,
        refl,
        (refl, refl, h.title, refl, (refl, refl, h.local_variables, refl, tt)),
      ),
    ),
  ),
)

buffer_items-AreItems :
    (bs : List BufferData)
    → All IsBufferData bs
    → AreItems 1 buffer_declared (buffer_items bs) (buffer_items bs)
unfolding buffer_items
buffer_items-AreItems [] h = tt
buffer_items-AreItems (b ∷ bs) h =
    (refl, refl, (h.0.pointer, tt), buffer_fields-Conforms b h.0, buffer_items-AreItems bs h.1)

pub count-buffer_items : (bs : List BufferData) → count_items (buffer_items bs) ≡ length bs
unfolding buffer_items
count-buffer_items [] = refl
count-buffer_items (b ∷ bs) = ap suc (count-buffer_items bs)

-- A message of one hdata object whose items conform to its keys in the keys' own order.
pub hdata_read_back :
    (id path keys : Bytes) (ks : List Key) (n : ℕ) (is : Items)
    → IsText id
    → IsText path × IsText keys × (path_size path ≡ 1)
    → read_keys keys ≡ some ks
    → AreItems 1 ks is is
    → count_items is ≡ n
    → n < 2 ^ 31
    → (body : Bytes) × (encode_body (hdata_message id path keys (int32 (n % 2 ^ 32)) is) ≡ ok body)
      × (read_body (5 + length body) (0 ∷ body)
          ≡ some (hdata_message id path keys (int32 (n % 2 ^ 32)) is))
hdata_read_back id path keys ks n is i (p, k, one) read items counted small =
    read_body-encode_body (hdata_message id path keys (int32 (n % 2 ^ 32)) is) _ i (
      (
        is,
        refl,
        record {
          path_text = p;
          keys_text = k;
          counted = count_small n small ∙ ap pos (omega arith);
          small = omega arith;
          declared = ks;
          keys_read = read;
          items = rw one items;
        },
      ),
      tt,
    )

-- The frame of a list of fewer than 2 ^ 31 buffers can be encoded, and a client reads the same
-- buffers, in the same order, from it.
pub buffers_read_back :
    (bs : List BufferData) (id : Bytes)
    → IsText id
    → All IsBufferData bs
    → length bs < 2 ^ 31
    → (body : Bytes) × (encode_body (create_buffers_hdata_with_id bs id) ≡ ok body)
      × (read_body (5 + length body) (0 ∷ body) ≡ some (create_buffers_hdata_with_id bs id))
unfolding create_buffers_hdata_with_id path_size split
buffers_read_back bs id i h small =
    hdata_read_back id (codes "buffer") buffer_keys buffer_declared (length bs) (buffer_items bs) i
      (omega arith, omega arith, refl) buffer_keys_read (buffer_items-AreItems bs h)
      (count-buffer_items bs) small

-- The strings and numbers of a line fit the widths of the format.
pub record IsLineData (l : LineData) : Type 0 where
  pub pointer : IsShort l.pointer
  pub buffer_ptr : IsShort l.buffer_ptr
  pub date : IsInt64 l.date
  pub date_printed : IsInt64 l.date_printed
  pub tags : IsText l.tags
  pub prefix : IsText l.prefix
  pub message : IsText l.message

abbrev pub line_declared : List Key
line_declared =
    key (codes "buffer") ptr_tag
    ∷ key (codes "date") tim_tag
    ∷ key (codes "date_printed") tim_tag
    ∷ key (codes "displayed") int_tag
    ∷ key (codes "highlight") int_tag
    ∷ key (codes "tags_array") str_tag
    ∷ key (codes "prefix") str_tag
    ∷ key (codes "message") str_tag
    ∷ []

pub line_keys_read : read_keys line_keys ≡ some line_declared
unfolding read_keys split tag_of str_eq
line_keys_read = refl

line_fields-Conforms :
    (l : LineData) → IsLineData l → Conforms line_declared (line_fields l) (line_fields l)
unfolding line_fields get_field str_eq
line_fields-Conforms l h = (
  refl,
  refl,
  h.buffer_ptr,
  refl,
  (
    refl,
    refl,
    h.date,
    refl,
    (
      refl,
      refl,
      h.date_printed,
      refl,
      (
        refl,
        refl,
        bool_to_int-IsInt32 l.displayed,
        refl,
        (
          refl,
          refl,
          bool_to_int-IsInt32 l.highlight,
          refl,
          (
            refl,
            refl,
            h.tags,
            refl,
            (refl, refl, h.prefix, refl, (refl, refl, h.message, refl, tt)),
          ),
        ),
      ),
    ),
  ),
)

line_items-AreItems :
    (ls : List LineData)
    → All IsLineData ls
    → AreItems 1 line_declared (line_items ls) (line_items ls)
unfolding line_items
line_items-AreItems [] h = tt
line_items-AreItems (l ∷ ls) h =
    (refl, refl, (h.0.pointer, tt), line_fields-Conforms l h.0, line_items-AreItems ls h.1)

pub count-line_items : (ls : List LineData) → count_items (line_items ls) ≡ length ls
unfolding line_items
count-line_items [] = refl
count-line_items (l ∷ ls) = ap suc (count-line_items ls)

-- The frame of a list of fewer than 2 ^ 31 lines can be encoded, and a client reads the same
-- lines, in the same order, from it.
pub lines_read_back :
    (ls : List LineData) (id : Bytes)
    → IsText id
    → All IsLineData ls
    → length ls < 2 ^ 31
    → (body : Bytes) × (encode_body (create_lines_hdata_with_id ls id) ≡ ok body)
      × (read_body (5 + length body) (0 ∷ body) ≡ some (create_lines_hdata_with_id ls id))
unfolding create_lines_hdata_with_id path_size split
lines_read_back ls id i h small =
    hdata_read_back id (codes "line_data") line_keys line_declared (length ls) (line_items ls) i
      (omega arith, omega arith, refl) line_keys_read (line_items-AreItems ls h)
      (count-line_items ls) small
