-- ===== src/Proto/Tests.antt =====
-- Runs of the encoder and the reader on small inputs.
use erssi_lith_bridge.Base.{◌≡◌, refl, [], ◌∷◌, Option, none, some, ok, err, panic, true, false}
use erssi_lith_bridge.Base.Int.{pos, uint32, int32, integer, decimal}
use erssi_lith_bridge.Base.Text.{codes, digits, unsigned, str_eq, split}
use erssi_lith_bridge.Proto.Types.{Message, int, type_of}
use erssi_lith_bridge.Proto.Encode.{
  encode, encode_string, encode_bytes, encode_short, be32, encode_pairs, encode_fields,
  encode_field, encode_pointers, parse_hdata_keys,
}
use erssi_lith_bridge.Proto.Encoder.{
  frame, encode_body, encode_objects, encode_typed, wrap_object, total_length,
}
use erssi_lith_bridge.Proto.Create.{
  LineData, create_lines_hdata_with_id, create_handshake_response, line_keys,
}
use erssi_lith_bridge.Proto.Wire.{
  read_be32, read_byte, read_text, read_string, read_exact, read_plain, tag_of, read_short,
  read_integer, read_count, read_pairs, read_table,
}
use erssi_lith_bridge.Proto.WireMessage.{
  read_message, read_body, read_objects, read_typed, read_object, read_hdata, read_keys, path_size,
  read_pointers, read_fields, read_items,
}

keys_of_lines :
    parse_hdata_keys line_keys
    ≡ codes "buffer"
      ∷ codes "date"
      ∷ codes "date_printed"
      ∷ codes "displayed"
      ∷ codes "highlight"
      ∷ codes "tags_array"
      ∷ codes "prefix"
      ∷ codes "message"
      ∷ []
unfolding parse_hdata_keys split
keys_of_lines = refl

abbrev a_line : LineData
a_line = record {
  pointer = codes "0x1";
  buffer_ptr = codes "0x2";
  date = pos 17;
  date_printed = pos 18;
  displayed = true;
  highlight = false;
  tags = codes "notify_message";
  prefix = codes "bob";
  message = codes "hi";
}

abbrev a_message : Message
a_message = create_lines_hdata_with_id (a_line ∷ []) (codes "7")

abbrev a_greeting : Message
a_greeting = create_handshake_response (codes "1") (codes "plain") (codes "00ff")

small_frame :
    frame (record { id = codes "x"; compression = 0; objects = int (pos 258) ∷ [] })
    ≡ ok (0 ∷ 0 ∷ 0 ∷ 17 ∷ 0 ∷ 0 ∷ 0 ∷ 0 ∷ 1 ∷ b'x' ∷ b'i' ∷ b'n' ∷ b't' ∷ 0 ∷ 0 ∷ 1 ∷ 2 ∷ [])
unfolding frame encode_body encode_objects encode_typed wrap_object type_of encode encode_string
    encode_bytes encode_short be32 total_length encode_pairs encode_fields encode_field
    encode_pointers parse_hdata_keys uint32
small_frame = refl

-- Send a message and read the frame.
abbrev reread : Message → Option Message
reread m = elim (frame m) [ ok bs ↦ read_message bs | err e ↦ none | panic ↦ none ]

sent_line : reread a_message ≡ some a_message
unfolding frame encode_body encode_objects encode_typed wrap_object type_of encode encode_string
    encode_bytes encode_short be32 total_length encode_pairs encode_fields encode_field
    encode_pointers parse_hdata_keys read_message read_be32 read_body read_byte read_text
    read_string read_exact read_objects read_typed read_object read_plain tag_of read_short
    read_integer read_count read_pairs read_table read_hdata read_keys path_size read_pointers
    read_fields read_items uint32 int32 integer decimal unsigned digits str_eq split
    create_lines_hdata_with_id
sent_line = refl

sent_greeting : reread a_greeting ≡ some a_greeting
unfolding frame encode_body encode_objects encode_typed wrap_object type_of encode encode_string
    encode_bytes encode_short be32 total_length encode_pairs encode_fields encode_field
    encode_pointers parse_hdata_keys read_message read_be32 read_body read_byte read_text
    read_string read_exact read_objects read_typed read_object read_plain tag_of read_short
    read_integer read_count read_pairs read_table read_hdata read_keys path_size read_pointers
    read_fields read_items uint32 int32 integer decimal unsigned digits str_eq split
    create_handshake_response
sent_greeting = refl
