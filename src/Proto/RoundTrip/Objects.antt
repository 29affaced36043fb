-- ===== src/Proto/RoundTrip/Objects.antt =====
-- The reader undoes the encoder on an object that holds no other object.
use erssi_lith_bridge.Base.{
  ◌^◌, ◌<◌, ◌≡◌, refl, sym, List, [], ◌∷◌, ◌++◌, append_assoc, some, Bytes, ok, length,
}
use mathlib.Core.Path.{subst}
use erssi_lith_bridge.Base.Int.{ℤ, pos, IsInt32, IsInt64, uint32, int32-uint32, uint32-lt, decimal}
use erssi_lith_bridge.Base.Text.{codes, str_eq}
use erssi_lith_bridge.Proto.Types.{
  Object, chr, int, lon, str, buf, ptr, tim, htb, hda, inf, type_of,
}
use erssi_lith_bridge.Proto.Encode.{be32, encode, encode_bytes, encode_string, encode_short}
use erssi_lith_bridge.Proto.Wire.{
  read_plain, read_table, read_byte, Tag, chr_tag, int_tag, lon_tag, str_tag, buf_tag, ptr_tag,
  tim_tag, htb_tag, hda_tag, inf_tag, tag_of,
}
use erssi_lith_bridge.Proto.RoundTrip.Plain.{
  IsText, IsOptionText, IsShort, AreTexts, read_be32-be32, read_exact-append,
  read_string-encode_string, read_text-encode_bytes, read_text-encode_string,
  read_short-encode_short, read_integer-encode_short, read_count-be32, read_pairs-encode_pairs,
}

-- The tag of an object's type.
abbrev pub tag : Object → Tag
tag (chr b) = chr_tag
tag (int v) = int_tag
tag (lon v) = lon_tag
tag (str s) = str_tag
tag (buf s) = buf_tag
tag (ptr s) = ptr_tag
tag (tim v) = tim_tag
tag (htb kt vt n ks vs) = htb_tag
tag (hda p ks n is) = hda_tag
tag (inf n v) = inf_tag

-- The three letters of a type tell which it is.
pub tag_of-type_of : (o : Object) → tag_of (type_of o) ≡ some (tag o)
unfolding tag_of type_of str_eq
tag_of-type_of (chr b) = refl
tag_of-type_of (int v) = refl
tag_of-type_of (lon v) = refl
tag_of-type_of (str s) = refl
tag_of-type_of (buf s) = refl
tag_of-type_of (ptr s) = refl
tag_of-type_of (tim v) = refl
tag_of-type_of (htb kt vt n ks vs) = refl
tag_of-type_of (hda p ks n is) = refl
tag_of-type_of (inf n v) = refl

-- A table from strings to strings, with as many values as keys.
pub record IsTable (kt vt : Bytes) (n : ℤ) (ks vs : List Bytes) : Type 0 where
  pub key_type : kt ≡ codes "str"
  pub value_type : vt ≡ codes "str"
  pub counted : n ≡ pos (length ks)
  pub paired : length vs ≡ length ks
  pub small : length ks < 2 ^ 31
  pub keys : AreTexts ks
  pub values : AreTexts vs

-- The values of an object fit the widths of the format, and it holds no other object.
abbrev pub IsPlain : Object → Type 0
IsPlain (chr b) = Unit
IsPlain (int v) = IsInt32 v
IsPlain (lon v) = IsInt64 v
IsPlain (str s) = IsOptionText s
IsPlain (buf s) = IsText s
IsPlain (ptr s) = IsShort s
IsPlain (tim v) = IsInt64 v
IsPlain (htb kt vt n ks vs) = IsTable kt vt n ks vs
IsPlain (hda p ks n is) = ⊥
IsPlain (inf n v) = IsText n × IsText v

-- An object of the given tag is written, and read back, whatever follows.
abbrev pub Survives : Tag → Object → Bytes → Type 0
Survives t o s = (bs : Bytes) × (encode o ≡ ok bs) × (read_plain t (bs ++ s) ≡ some (o, s))

table-Survives :
    (ks vs : List Bytes) (s : Bytes)
    → IsTable (codes "str") (codes "str") (pos (length ks)) ks vs
    → Survives htb_tag (htb (codes "str") (codes "str") (pos (length ks)) ks vs) s
unfolding encode read_plain
table-Survives ks vs s t =
    let (bs, written, back) = read_pairs-encode_pairs ks vs s t.paired t.keys t.values in
    (
      codes "str" ++ (codes "str" ++ (be32 (uint32 (pos (length ks))) ++ bs)),
      rw written,
      unfold read_table str_eq in
          rw (
            read_exact-append 3 (codes "str") _ refl,
            read_exact-append 3 (codes "str") _ refl,
            append_assoc,
            read_count-be32 (length ks) _ t.small,
            back,
          ),
    )

pub read_plain-encode : (o : Object) (s : Bytes) → IsPlain o → Survives (tag o) o s
unfolding encode read_plain
read_plain-encode (chr b) s h = (b ∷ [], refl, unfold read_byte in refl)
read_plain-encode (int v) s h =
    (be32 (uint32 v), refl, rw (read_be32-be32 (uint32 v) s (uint32-lt v), int32-uint32 v h))
read_plain-encode (lon v) s h =
    (encode_short (decimal v), refl, rw (read_integer-encode_short v s h))
read_plain-encode (str t) s h = (encode_string t, refl, rw (read_string-encode_string t s h))
read_plain-encode (buf t) s h = (encode_bytes t, refl, rw (read_text-encode_bytes t s h))
read_plain-encode (ptr t) s h = (encode_short t, refl, rw (read_short-encode_short t s h))
read_plain-encode (tim v) s h =
    (encode_short (decimal v), refl, rw (read_integer-encode_short v s h))
read_plain-encode (htb kt vt n ks vs) s h =
    let whole : htb kt vt n ks vs ≡ htb (codes "str") (codes "str") (pos (length ks)) ks vs =
      λ i. htb (h.key_type i) (h.value_type i) (h.counted i) ks vs in
    let t : IsTable (codes "str") (codes "str") (pos (length ks)) ks vs = record {
      key_type = refl;
      value_type = refl;
      counted = refl;
      paired = h.paired;
      small = h.small;
      keys = h.keys;
      values = h.values;
    } in
    subst (λ o. Survives htb_tag o s) (sym whole) (table-Survives ks vs s t)
read_plain-encode (hda p ks n is) s h = absurd h
read_plain-encode (inf n v) s h = (
  encode_string (some n) ++ encode_string (some v),
  refl,
  rw (append_assoc, read_text-encode_string n _ h.0, read_text-encode_string v s h.1),
)
