-- ===== src/Proto/WireMessage.antt =====
-- The WeeChat relay format, as a client reads it: hdata objects and whole messages.
use erssi_lith_bridge.Base.{
  ℕ, zero, suc, List, [], ◌∷◌, Option, none, some, Bytes, length, ◌==◌, if◌then◌else◌, and_then,
}
use erssi_lith_bridge.Base.Int.{pos}
use erssi_lith_bridge.Base.Text.{split}
use erssi_lith_bridge.Proto.Types.{Object, hda, Items, nil, item, Fields, end, field, Message}
use erssi_lith_bridge.Proto.Wire.{
  Reader, ◌>>=◌, pure, lift, read_byte, read_be32, read_exact, read_text, read_short, read_count,
  Tag, hda_tag, tag_of, read_plain,
}

-- What a key declares: the field's name and the type of its object.
pub data Key : Type 0 where
  key : Bytes → Tag → Key

abbrev pub read_key : List Bytes → Option Key
read_key (name ∷ ty ∷ []) = and_then (tag_of ty) (λ t. some (key name t))
read_key (name ∷ ty ∷ _ ∷ _) = none
read_key (name ∷ []) = none
read_key [] = none

abbrev pub read_keys_of : List Bytes → Option (List Key)
read_keys_of [] = some []
read_keys_of (f ∷ fs) =
    and_then (read_key (split b':' f)) (λ k. and_then (read_keys_of fs) (λ ks. some (k ∷ ks)))

-- "name:type,name:type,…"
unfoldable pub read_keys : Bytes → Option (List Key)
read_keys s = read_keys_of (split b',' s)

-- One pointer for each element of the path.
unfoldable pub path_size : Bytes → ℕ
path_size path = length (split b'/' path)

unfoldable pub read_pointers : ℕ → Reader (List Bytes)
read_pointers zero = pure []
read_pointers (suc n) = do p ← read_short; ps ← read_pointers n; pure (p ∷ ps)

unfoldable pub read_fields : List Key → Reader Fields
read_fields [] = pure end
read_fields (key name t ∷ ks) = do o ← read_plain t; fs ← read_fields ks; pure (field name o fs)

unfoldable pub read_items : ℕ → ℕ → List Key → Reader Items
read_items pointers zero ks = pure nil
read_items pointers (suc n) ks = do
  ps ← read_pointers pointers
  fs ← read_fields ks
  is ← read_items pointers n ks
  pure (item ps fs is)

unfoldable pub read_hdata : Reader Object
read_hdata = do
  path ← read_text
  keys ← read_text
  n ← read_count
  ks ← lift (read_keys keys)
  is ← read_items (path_size path) n ks
  pure (hda path keys (pos n) is)

unfoldable pub read_object : Tag → Reader Object
read_object hda_tag = read_hdata
read_object t = read_plain t

unfoldable pub read_typed : Reader Object
read_typed = do ty ← read_exact 3; t ← lift (tag_of ty); read_object t

-- The objects up to the end of the frame; each takes a byte at least, so the frame's length is
-- enough fuel.
unfoldable pub read_objects : ℕ → Bytes → Option (List Object)
read_objects fuel [] = some []
read_objects zero (c ∷ s) = none
read_objects (suc fuel) (c ∷ s) =
    and_then (read_typed (c ∷ s)) (λ p. and_then (read_objects fuel p.1) (λ os. some (p.0 ∷ os)))

-- A frame is its length, a compression byte, an identifier and objects. The length counts the
-- whole frame.
unfoldable pub read_body : ℕ → Bytes → Option Message
read_body fuel s = and_then (read_byte s) λ c. and_then (read_text c.1) λ id.
    and_then (read_objects fuel id.1)
      λ os. some (record { id = id.0; compression = c.0; objects = os })

unfoldable pub read_message : Bytes → Option Message
read_message s =
    and_then (read_be32 s) λ n. if n.0 == length s then read_body (length s) n.1 else none
