-- ===== src/Proto/Frames.antt =====
-- pkg/weechatproto: every message that a Create function makes can be encoded, whatever its data.
use erssi_lith_bridge.Base.{◌≡◌, refl, ap, ◌∙◌, List, [], ◌∷◌, Bytes, Result, ok, ◌>>=◌}
use erssi_lith_bridge.Base.Int.{ℤ}
use erssi_lith_bridge.Base.Text.{str_eq, split}
use erssi_lith_bridge.Proto.Types.{Message, Items, Object, hda, type_of}
use erssi_lith_bridge.Proto.Encode.{
  EncodeError, encode, encode_items, encode_fields, encode_field, encode_pairs, parse_hdata_keys,
}
use erssi_lith_bridge.Proto.Encoder.{encode_body, encode_objects, encode_typed, wrap_object, frame}
use erssi_lith_bridge.Proto.Create.{
  BufferData, LineData, NickData, buffer_keys, line_keys, nick_keys, buffer_items, line_items,
  nick_items, buffer_fields, line_fields, nick_fields, hdata_message, create_buffers_hdata_with_id,
  create_lines_hdata_with_id, create_nicklist_hdata, create_empty_hotlist_with_id,
  create_handshake_response,
}

-- The message is encoded: there is no error and no panic but of the connection's writes.
abbrev pub HasFrame : Message → Type 0
HasFrame msg = (bs : Bytes) × (frame msg ≡ ok bs)

abbrev Encodes : Bytes → Items → Type 0
Encodes keys is = (bs : Bytes) × (encode_items (parse_hdata_keys keys) is ≡ ok bs)

-- Two steps that give results.
bind-ok :
    {A B : Type 0} (r : Result EncodeError A) (f : A → Result EncodeError B)
    → (a : A) × (r ≡ ok a)
    → ((a : A) → (b : B) × (f a ≡ ok b))
    → (b : B) × ((r >>= f) ≡ ok b)
bind-ok r f (a, e) g = let (b, p) = g a in (b, ap (λ s. s >>= f) e ∙ p)

object-HasFrame :
    (id : Bytes) (o : Object)
    → (bs : Bytes) × (encode_typed o ≡ ok bs)
    → HasFrame (record { id = id; compression = 0; objects = o ∷ [] })
unfolding frame encode_body encode_objects
object-HasFrame id o typed =
    bind-ok _ _
      (bind-ok _ _ (bind-ok (encode_typed o) _ typed (λ bs. (_, refl))) (λ rest. (_, refl)))
      (λ body. (_, refl))

wrap-ok :
    (ty : Bytes) (r : Result EncodeError Bytes)
    → (bs : Bytes) × (r ≡ ok bs)
    → (bs : Bytes) × (wrap_object ty r ≡ ok bs)
unfolding wrap_object
wrap-ok ty r (bs, e) = (bs, ap (wrap_object ty) e)

hdata-HasFrame :
    (id path keys : Bytes) (n : ℤ) (is : Items)
    → Encodes keys is
    → HasFrame (hdata_message id path keys n is)
unfolding encode_typed wrap_object type_of encode
hdata-HasFrame id path keys n is (bs, e) =
    object-HasFrame id (hda path keys n is)
      (bind-ok _ _ (wrap-ok _ _ (bind-ok _ _ (bs, e) (λ body. (_, refl)))) (λ out. (_, refl)))

buffers-Encodes : (bs : List BufferData) → Encodes buffer_keys (buffer_items bs)
unfolding buffer_items encode parse_hdata_keys encode_fields encode_field str_eq split buffer_fields
buffers-Encodes [] = ([], refl)
buffers-Encodes (b ∷ bs) = bind-ok _ _ (buffers-Encodes bs) (λ rest. (_, refl))

lines-Encodes : (ls : List LineData) → Encodes line_keys (line_items ls)
unfolding line_items encode parse_hdata_keys encode_fields encode_field str_eq split line_fields
lines-Encodes [] = ([], refl)
lines-Encodes (l ∷ ls) = bind-ok _ _ (lines-Encodes ls) (λ rest. (_, refl))

nicks-Encodes : (ns : List NickData) → Encodes nick_keys (nick_items ns)
unfolding nick_items encode parse_hdata_keys encode_fields encode_field str_eq split nick_fields
nicks-Encodes [] = ([], refl)
nicks-Encodes (n ∷ ns) = bind-ok _ _ (nicks-Encodes ns) (λ rest. (_, refl))

pub buffers-HasFrame :
    (bs : List BufferData) (id : Bytes) → HasFrame (create_buffers_hdata_with_id bs id)
unfolding create_buffers_hdata_with_id
buffers-HasFrame bs id = hdata-HasFrame id _ buffer_keys _ (buffer_items bs) (buffers-Encodes bs)

pub lines-HasFrame : (ls : List LineData) (id : Bytes) → HasFrame (create_lines_hdata_with_id ls id)
unfolding create_lines_hdata_with_id
lines-HasFrame ls id = hdata-HasFrame id _ line_keys _ (line_items ls) (lines-Encodes ls)

pub nicklist-HasFrame : (ns : List NickData) → HasFrame (create_nicklist_hdata ns)
unfolding create_nicklist_hdata
nicklist-HasFrame ns = hdata-HasFrame [] _ nick_keys _ (nick_items ns) (nicks-Encodes ns)

pub hotlist-HasFrame : (id : Bytes) → HasFrame (create_empty_hotlist_with_id id)
unfolding create_empty_hotlist_with_id encode
hotlist-HasFrame id = hdata-HasFrame id _ _ _ _ ([], refl)

pub handshake-HasFrame :
    (id algo nonce : Bytes) → HasFrame (create_handshake_response id algo nonce)
unfolding create_handshake_response encode_typed wrap_object type_of encode encode_pairs
handshake-HasFrame id algo nonce = object-HasFrame id _ (_, refl)
