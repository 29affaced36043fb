-- ===== src/Proto/Wire.antt =====
-- The WeeChat relay format as a client reads it: an independent description of the frames, against
-- which the encoder is proved. A reader returns what it read and the bytes that are left.
use erssi_lith_bridge.Base.{
  ℕ, zero, suc, ◌+◌, ◌*◌, ◌-◌, ◌^◌, ◌&&◌, List, [], ◌∷◌, Option, none, some, Bytes, length, take,
  drop, leb, ◌==◌, if◌then◌else◌, and_then,
}
use erssi_lith_bridge.Base.Int.{ℤ, pos, negsuc, int32, integer, map_option}
use erssi_lith_bridge.Base.Text.{codes, str_eq}
use erssi_lith_bridge.Proto.Types.{Object, chr, int, lon, str, buf, ptr, tim, htb, inf}

abbrev pub Reader : Type 0 → Type 0
Reader A = Bytes → Option (A × Bytes)

infixl 5 ◌>>=◌
abbrev pub ◌>>=◌ : {A B : Type 0} → Reader A → (A → Reader B) → Reader B
◌>>=◌ r f s = and_then (r s) (λ p. f p.0 p.1)

abbrev pub pure : {A : Type 0} → A → Reader A
pure a s = some (a, s)

abbrev pub lift : {A : Type 0} → Option A → Reader A
lift o s = map_option (λ a. (a, s)) o

unfoldable pub read_byte : Reader ℕ
read_byte [] = none
read_byte (c ∷ s) = some (c, s)

unfoldable pub read_be32 : Reader ℕ
read_be32 (a ∷ b ∷ c ∷ d ∷ s) = some (a * 2 ^ 24 + b * 2 ^ 16 + c * 2 ^ 8 + d, s)
read_be32 _ = none

unfoldable pub read_exact : ℕ → Reader Bytes
read_exact n s = if leb n (length s) then some (take n s, drop n s) else none

-- A length of four bytes, -1 for NULL, and the text.
unfoldable pub read_string : Reader (Option Bytes)
read_string = do
  n ← read_be32
  if n == 2 ^ 32 - 1 then pure none else do s ← read_exact n; pure (some s)

unfoldable pub read_text : Reader Bytes
read_text = do o ← read_string; lift o

-- A length of one byte, and the text.
unfoldable pub read_short : Reader Bytes
read_short = do n ← read_byte; read_exact n

unfoldable pub read_integer : Reader ℤ
read_integer = do s ← read_short; lift (integer s)

pub data Tag : Type 0 where
  chr_tag int_tag lon_tag str_tag buf_tag ptr_tag tim_tag htb_tag hda_tag inf_tag : Tag

unfoldable pub tag_of : Bytes → Option Tag
tag_of s =
    if str_eq s (codes "chr")
    then some chr_tag
    else if str_eq s (codes "int")
    then some int_tag
    else if str_eq s (codes "lon")
    then some lon_tag
    else if str_eq s (codes "str")
    then some str_tag
    else if str_eq s (codes "buf")
    then some buf_tag
    else if str_eq s (codes "ptr")
    then some ptr_tag
    else if str_eq s (codes "tim")
    then some tim_tag
    else if str_eq s (codes "htb")
    then some htb_tag
    else if str_eq s (codes "hda")
    then some hda_tag
    else if str_eq s (codes "inf")
    then some inf_tag
    else none

-- The pairs of a hash table from strings to strings.
unfoldable pub read_pairs : ℕ → Reader (List Bytes × List Bytes)
read_pairs zero = pure ([], [])
read_pairs (suc n) = do
  k ← read_text
  v ← read_text
  rest ← read_pairs n
  pure (k ∷ rest.0, v ∷ rest.1)

-- The length of a hash table must not be negative.
unfoldable pub read_count : Reader ℕ
read_count = do n ← read_be32; lift (elim (int32 n) [ pos k ↦ some k | negsuc k ↦ none ])

unfoldable pub read_table : Reader Object
read_table = do
  kt ← read_exact 3
  vt ← read_exact 3
  n ← read_count
  rest ← read_pairs n
  if str_eq kt (codes "str") && str_eq vt (codes "str")
      then pure (htb kt vt (pos n) rest.0 rest.1)
      else lift none

-- An object of a type that holds no other object.
unfoldable pub read_plain : Tag → Reader Object
read_plain chr_tag = do b ← read_byte; pure (chr b)
read_plain int_tag = do n ← read_be32; pure (int (int32 n))
read_plain lon_tag = do v ← read_integer; pure (lon v)
read_plain str_tag = do s ← read_string; pure (str s)
read_plain buf_tag = do s ← read_text; pure (buf s)
read_plain ptr_tag = do s ← read_short; pure (ptr s)
read_plain tim_tag = do v ← read_integer; pure (tim v)
read_plain htb_tag = read_table
read_plain inf_tag = do n ← read_text; v ← read_text; pure (inf n v)
read_plain hda_tag = lift none
