-- ===== src/Proto/RoundTrip/Hdata.antt =====
-- The reader undoes the encoder on hdata whose items have, under each key, an object of the type
-- that the key declares. The reader finds the fields in the order of the keys.
use erssi_lith_bridge.Base.{
  ℕ, suc, ◌^◌, ◌<◌, ◌≡◌, refl, sym, ap, List, [], ◌∷◌, ◌++◌, map, append_assoc, Option, none, some,
  Bytes, ok, length, All, arith, and_then,
}
use erssi_lith_bridge.Base.Int.{ℤ, pos, uint32}
use erssi_lith_bridge.Base.Text.{split}
use erssi_lith_bridge.Proto.Types.{Object, hda, Items, nil, item, Fields, end, field}
use erssi_lith_bridge.Proto.Encode.{
  be32, encode, encode_string, encode_pointers, encode_field, encode_fields, encode_map,
  encode_items, get_field, wrap_field, first_part, parse_hdata_keys,
}
use erssi_lith_bridge.Proto.Wire.{Tag, tag_of}
use erssi_lith_bridge.Proto.WireMessage.{
  Key, key, read_key, read_keys_of, read_keys, read_pointers, read_fields, read_items, read_hdata,
  path_size,
}
use erssi_lith_bridge.Proto.RoundTrip.Plain.{
  IsText, IsShort, read_text-encode_string, read_short-encode_short, read_count-be32,
}
use erssi_lith_bridge.Proto.RoundTrip.Objects.{tag, IsPlain, read_plain-encode}

abbrev pub AreShort : List Bytes → Type 0
AreShort = All IsShort

pub read_pointers-encode_pointers :
    (ps : List Bytes) (s : Bytes)
    → AreShort ps
    → read_pointers (length ps) (encode_pointers ps ++ s) ≡ some (ps, s)
unfolding read_pointers encode_pointers
read_pointers-encode_pointers [] s h = refl
read_pointers-encode_pointers (p ∷ ps) s h =
    rw (append_assoc, read_short-encode_short p _ h.0, read_pointers-encode_pointers ps s h.1)

-- Encoding a map and picking a field is picking the field and encoding it.
pub encode_field-encode_map :
    (name : Bytes) (fs : Fields)
    → encode_field name (encode_map fs) ≡ wrap_field name (get_field name fs)
unfolding encode_field get_field wrap_field encode
encode_field-encode_map name end = refl
encode_field-encode_map name (field k o fs) = ground (arith, encode_field-encode_map name fs)

found_field :
    (name : Bytes) (o : Object) (fs : Fields) {bs : Bytes}
    → get_field name fs ≡ some o
    → encode o ≡ ok bs
    → encode_field name (encode_map fs) ≡ ok bs
unfolding wrap_field
found_field name o fs found w = rw (encode_field-encode_map name fs, found, wrap_field, w)

pointers_at :
    (n : ℕ) (ps : List Bytes) (s : Bytes)
    → length ps ≡ n
    → AreShort ps
    → read_pointers n (encode_pointers ps ++ s) ≡ some (ps, s)
pointers_at n ps s e h = rw (← e) (read_pointers-encode_pointers ps s h)

-- The fields of an item conform to the keys: under each name there is an object of the declared
-- type. The last argument lists these objects in the order of the keys.
abbrev pub Conforms : List Key → Fields → Fields → Type 0
Conforms [] fs end = Unit
Conforms [] fs (field _ _ _) = ⊥
Conforms (key name t ∷ ks) fs end = ⊥
Conforms (key name t ∷ ks) fs (field name' o out) =
    (name' ≡ name) × (tag o ≡ t) × IsPlain o × (get_field name fs ≡ some o) × Conforms ks fs out

abbrev pub key_name : Key → Bytes
key_name (key name t) = name

pub read_fields-encode_fields :
    (ks : List Key) (fs out : Fields) (s : Bytes)
    → Conforms ks fs out
    → (bs : Bytes) × (encode_fields (map key_name ks) (encode_map fs) ≡ ok bs)
      × (read_fields ks (bs ++ s) ≡ some (out, s))
unfolding encode_fields read_fields
read_fields-encode_fields [] fs end s h = ([], refl, refl)
read_fields-encode_fields [] fs (field n o out) s h = absurd h
read_fields-encode_fields (key name t ∷ ks) fs end s h = absurd h
read_fields-encode_fields (key name t ∷ ks) fs (field name' o out) s (en, et, plain, found, more) =
    let (rest, w, back) = read_fields-encode_fields ks fs out s more in
    let (bs, w', back') = read_plain-encode o (rest ++ s) plain in
    (
      bs ++ rest,
      rw (found_field name o fs found w', w),
      rw (append_assoc, ← et, back', back) (ap (λ n. some (field n o out, s)) (sym en)),
    )

-- The same of the items, each with as many pointers as the path has elements.
abbrev pub AreItems : ℕ → List Key → Items → Items → Type 0
AreItems n ks nil nil = Unit
AreItems n ks nil (item _ _ _) = ⊥
AreItems n ks (item ps fs is) nil = ⊥
AreItems n ks (item ps fs is) (item ps' out is') =
    (ps' ≡ ps) × (length ps ≡ n) × AreShort ps × Conforms ks fs out × AreItems n ks is is'

abbrev pub count_items : Items → ℕ
count_items nil = 0
count_items (item ps fs is) = suc (count_items is)

pub read_items-encode_items :
    (n : ℕ) (ks : List Key) (is out : Items) (s : Bytes)
    → AreItems n ks is out
    → (bs : Bytes) × (encode_items (map key_name ks) is ≡ ok bs)
      × (read_items n (count_items is) ks (bs ++ s) ≡ some (out, s))
unfolding encode read_items
read_items-encode_items n ks nil nil s h = ([], refl, refl)
read_items-encode_items n ks nil (item _ _ _) s h = absurd h
read_items-encode_items n ks (item ps fs is) nil s h = absurd h
read_items-encode_items n ks (item ps fs is) (item ps' out is') s (ep, en, short, conf, more) =
    let (rest, w, back) = read_items-encode_items n ks is is' s more in
    let (bs, w', back') = read_fields-encode_fields ks fs out (rest ++ s) conf in
    (
      encode_pointers ps ++ (bs ++ rest),
      rw (w', w),
      rw (append_assoc, append_assoc, pointers_at n ps _ en short, back', back)
          (ap (λ p. some (item p out is', s)) (sym ep)),
    )

first_key :
    (parts : List Bytes) (rest : Option (List Key)) (ks : List Key)
    → and_then (read_key parts) (λ k. and_then rest (λ ks'. some (k ∷ ks'))) ≡ some ks
    → (k : Key) × (ks' : List Key) × (rest ≡ some ks')
      × (ks ≡ k ∷ ks')
      × (first_part parts ≡ key_name k)
first_key [] rest ks h = cc
first_key (name ∷ []) rest ks h = cc
first_key (name ∷ ty ∷ _ ∷ _) rest ks h = cc
first_key (name ∷ ty ∷ []) rest ks h = typed (tag_of ty) rest h
  where
    typed :
        (t : Option Tag) (r : Option (List Key))
        → and_then (and_then t (λ u. some (key name u))) (λ k. and_then r (λ ks'. some (k ∷ ks')))
          ≡ some ks
        → (k : Key) × (ks' : List Key) × (r ≡ some ks') × (ks ≡ k ∷ ks') × (name ≡ key_name k)
    typed none r e = cc
    typed (some u) none e = cc
    typed (some u) (some ks') e = (key name u, ks', refl, cc, refl)

-- "name:type,…" gives the encoder the names that it gives the reader.
names_agree :
    (fields : List Bytes) (ks : List Key)
    → read_keys_of fields ≡ some ks
    → map (λ f. first_part (split b':' f)) fields ≡ map key_name ks
names_agree [] ks h = cc
names_agree (f ∷ fs) ks h =
    let (k, ks', found, whole, named) = first_key (split b':' f) (read_keys_of fs) ks h in
    rw whole (cc (named, names_agree fs ks' found))

pub parse_hdata_keys-read_keys :
    (keys : Bytes) (ks : List Key)
    → read_keys keys ≡ some ks
    → parse_hdata_keys keys ≡ map key_name ks
unfolding parse_hdata_keys read_keys
parse_hdata_keys-read_keys [] ks h = unfold split in cc h
parse_hdata_keys-read_keys (c ∷ s) ks h = names_agree (split b',' (c ∷ s)) ks h

-- Hdata whose keys are well formed and whose items conform to them.
pub record IsHdata (path keys : Bytes) (n : ℤ) (is out : Items) : Type 0 where
  pub path_text : IsText path
  pub keys_text : IsText keys
  pub counted : n ≡ pos (count_items is)
  pub small : count_items is < 2 ^ 31
  pub declared : List Key
  pub keys_read : read_keys keys ≡ some declared
  pub items : AreItems (path_size path) declared is out

pub read_hdata-encode :
    (path keys : Bytes) (is out : Items) (s : Bytes) (n : ℤ)
    → IsHdata path keys n is out
    → (bs : Bytes) × (encode (hda path keys n is) ≡ ok bs)
      × (read_hdata (bs ++ s) ≡ some (hda path keys n out, s))
unfolding encode
read_hdata-encode path keys is out s n h =
    let (bs, w, back) = read_items-encode_items (path_size path) h.declared is out s h.items in
    (
      encode_string (some path) ++ (encode_string (some keys) ++ (be32 (uint32 n) ++ bs)),
      rw (parse_hdata_keys-read_keys keys h.declared h.keys_read, w),
      rw (h.counted, append_assoc, append_assoc, append_assoc)
          (unfold read_hdata in
            rw (
              read_text-encode_string path _ h.path_text,
              read_text-encode_string keys _ h.keys_text,
              read_count-be32 (count_items is) _ h.small,
              h.keys_read,
              back,
            )),
    )
