-- ===== src/Proto/Encode.antt =====
-- pkg/weechatproto/types.go: the `Encode` methods, as the bytes that they append to the body
-- buffer. Writing to a `bytes.Buffer` does not fail, and what a failing method has written is
-- dropped with the buffer, so an error carries no bytes.
use erssi_lith_bridge.Base.{
  ℕ, zero, suc, ◌/◌, ◌%◌, ◌^◌, List, [], ◌∷◌, ◌++◌, map, Option, none, some, Bytes, Result, ok, err,
  panic, ◌>>=◌, length, if◌then◌else◌,
}
use erssi_lith_bridge.Base.Int.{ℤ, pos, negsuc, uint32, decimal}
use erssi_lith_bridge.Base.Text.{str_eq, split}
use erssi_lith_bridge.Proto.Types.{
  Object, chr, int, lon, str, buf, ptr, tim, htb, hda, inf, Items, nil, item, Fields, end, field,
}

pub data EncodeError : Type 0 where
  missing_field : Bytes → EncodeError
  field_failed : Bytes → EncodeError → EncodeError
  invalid_type : Bytes → EncodeError
  object_failed : Bytes → EncodeError → EncodeError

-- binary.Write(w, binary.BigEndian, uint32(n)).
unfoldable pub be32 : ℕ → Bytes
be32 n = (n / 2 ^ 24 % 256) ∷ (n / 2 ^ 16 % 256) ∷ (n / 2 ^ 8 % 256) ∷ (n % 256) ∷ []

-- `int32(len(s))` keeps the low 32 bits of the length.
unfoldable pub encode_bytes : Bytes → Bytes
encode_bytes s = be32 (length s % 2 ^ 32) ++ s

unfoldable pub encode_string : Option Bytes → Bytes
encode_string none = be32 (uint32 (negsuc 0))
encode_string (some s) = encode_bytes s

-- `byte(len(s))` keeps the low 8 bits of the length.
unfoldable pub encode_short : Bytes → Bytes
encode_short s = (length s % 256) ∷ s

-- `int(h.Count)` rounds; an index out of range panics.
unfoldable pub encode_pairs : ℕ → List Bytes → List Bytes → Result EncodeError Bytes
encode_pairs zero ks vs = ok []
encode_pairs (suc n) (k ∷ ks) (v ∷ vs) = do
  rest ← encode_pairs n ks vs
  ok (encode_string (some k) ++ (encode_string (some v) ++ rest))
encode_pairs (suc n) (k ∷ ks) [] = panic
encode_pairs (suc n) [] vs = panic

-- The rounds of a loop up to a signed bound.
abbrev pub rounds : ℤ → ℕ
rounds (pos n) = n
rounds (negsuc n) = 0

-- `parts[0]`, where there always is one
abbrev pub first_part : List Bytes → Bytes
first_part [] = []
first_part (p ∷ ps) = p

unfoldable pub parse_hdata_keys : Bytes → List Bytes
parse_hdata_keys [] = []
parse_hdata_keys (c ∷ s) = map (λ f. first_part (split b':' f)) (split b',' (c ∷ s))

unfoldable pub encode_pointers : List Bytes → Bytes
encode_pointers [] = []
encode_pointers (p ∷ ps) = encode_short p ++ encode_pointers ps

-- The object of a map under a name, encoded; the list has what each entry of the map writes.
unfoldable pub encode_field :
    Bytes → List (Bytes × Result EncodeError Bytes) → Result EncodeError Bytes
encode_field name [] = err (missing_field name)
encode_field name ((k, ok bs) ∷ fs) = if str_eq k name then ok bs else encode_field name fs
encode_field name ((k, err e) ∷ fs) =
    if str_eq k name then err (field_failed name e) else encode_field name fs
encode_field name ((k, panic) ∷ fs) = if str_eq k name then panic else encode_field name fs

-- The objects of one item, in the order of the keys.
unfoldable pub encode_fields :
    List Bytes → List (Bytes × Result EncodeError Bytes) → Result EncodeError Bytes
encode_fields [] fs = ok []
encode_fields (k ∷ ks) fs = do bs ← encode_field k fs; rest ← encode_fields ks fs; ok (bs ++ rest)

unfoldable mutual
  pub encode : Object → Result EncodeError Bytes
  encode (chr b) = ok (b ∷ [])
  encode (int v) = ok (be32 (uint32 v))
  encode (lon v) = ok (encode_short (decimal v))
  encode (str s) = ok (encode_string s)
  encode (buf s) = ok (encode_bytes s)
  encode (ptr s) = ok (encode_short s)
  encode (tim v) = ok (encode_short (decimal v))
  encode (htb kt vt n ks vs) = do
    pairs ← encode_pairs (rounds n) ks vs
    ok (kt ++ (vt ++ (be32 (uint32 n) ++ pairs)))
  encode (hda path keys n is) = do
    body ← encode_items (parse_hdata_keys keys) is
    ok (encode_string (some path) ++ (encode_string (some keys) ++ (be32 (uint32 n) ++ body)))
  encode (inf n v) = ok (encode_string (some n) ++ encode_string (some v))

  pub encode_items : List Bytes → Items → Result EncodeError Bytes
  encode_items keys nil = ok []
  encode_items keys (item ps fs is) = do
    bs ← encode_fields keys (encode_map fs)
    rest ← encode_items keys is
    ok (encode_pointers ps ++ (bs ++ rest))

  pub encode_map : Fields → List (Bytes × Result EncodeError Bytes)
  encode_map end = []
  encode_map (field k o fs) = (k, encode o) ∷ encode_map fs

-- `obj, exists := item.Objects[keyName]`.
unfoldable pub get_field : Bytes → Fields → Option Object
get_field name end = none
get_field name (field k o fs) = if str_eq k name then some o else get_field name fs

-- `fmt.Errorf("failed to encode field %s: %w", …)`, and the error of a missing field.
unfoldable pub wrap_field : Bytes → Option Object → Result EncodeError Bytes
wrap_field name none = err (missing_field name)
wrap_field name (some o) = elim (encode o) [
  | ok bs ↦ ok bs
  | err e ↦ err (field_failed name e)
  | panic ↦ panic
]
