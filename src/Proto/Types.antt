-- ===== src/Proto/Types.antt =====
-- pkg/weechatproto/types.go: the objects of the WeeChat relay protocol.
use erssi_lith_bridge.Base.{List, Option, none, some, Bytes}
use erssi_lith_bridge.Base.Int.{ℤ}
use erssi_lith_bridge.Base.Text.{codes}
use Prim.Native.Nat.{ℕ}

-- The Go struct types that implement `Object`, one constructor each. A map from field names to
-- objects is a list of entries; `get_field` reads it.
mutual
  pub data Object : Type 0 where
    chr : ℕ → Object  -- Char{Value byte}
    int : ℤ → Object  -- Integer{Value int32}
    lon : ℤ → Object  -- Long{Value int64}
    str : Option Bytes → Object  -- String{Value *string}
    buf : Bytes → Object  -- Buffer{Value []byte}
    ptr : Bytes → Object  -- Pointer{Value string}
    tim : ℤ → Object  -- Time{Value int64}
    -- HashTable{KeyType, ValueType, Count, Keys, Values}
    htb : Bytes → Bytes → ℤ → List Bytes → List Bytes → Object
    -- HData{Path, Keys, Count, Items}
    hda : Bytes → Bytes → ℤ → Items → Object
    inf : Bytes → Bytes → Object  -- Info{Name, Value}

  -- []HDataItem, each with its Pointers and its Objects
  pub data Items : Type 0 where
    nil : Items
    item : List Bytes → Fields → Items → Items

  -- map[string]Object
  pub data Fields : Type 0 where
    end : Fields
    field : Bytes → Object → Fields → Fields

-- Message{ID, Compression, Data}
pub record Message : Type 0 where
  pub id : Bytes
  pub compression : ℕ
  pub objects : List Object

-- The `Type` methods.
unfoldable pub type_of : Object → Bytes
type_of (chr b) = codes "chr"
type_of (int v) = codes "int"
type_of (lon v) = codes "lon"
type_of (str s) = codes "str"
type_of (buf s) = codes "buf"
type_of (ptr s) = codes "ptr"
type_of (tim v) = codes "tim"
type_of (htb k v n ks vs) = codes "htb"
type_of (hda p k n is) = codes "hda"
type_of (inf n v) = codes "inf"

-- NewString and NullString.
abbrev pub new_string : Bytes → Object
new_string s = str (some s)

abbrev pub null_string : Object
null_string = str none
