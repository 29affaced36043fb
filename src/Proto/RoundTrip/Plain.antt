-- ===== src/Proto/RoundTrip/Plain.antt =====
-- The reader undoes the encoder on the parts of an object.
use erssi_lith_bridge.Base.{
  ℕ, ◌%◌, ◌-◌, ◌^◌, ◌<◌, ◌≡◌, refl, ap, true, false, List, [], ◌∷◌, ◌++◌, append_assoc, Option,
  none, some, Bytes, ok, length, length-append, take-append, drop-append, leb, ◌==◌, arith, All,
}
use erssi_lith_bridge.Base.Int.{
  ℤ, pos, IsInt64, uint32, decimal, int32-uint32, uint32-lt, integer-decimal, length-decimal,
}
use erssi_lith_bridge.Proto.Encode.{be32, encode_bytes, encode_string, encode_short, encode_pairs}
use erssi_lith_bridge.Proto.Wire.{
  read_byte, read_be32, read_exact, read_string, read_text, read_short, read_integer, read_pairs,
  read_count,
}

pub read_be32-be32 : (n : ℕ) (s : Bytes) → n < 2 ^ 32 → read_be32 (be32 n ++ s) ≡ some (n, s)
unfolding read_be32 be32
read_be32-be32 n s h = ap (λ k. some (k, s)) (omega arith)

pub read_exact-append : (n : ℕ) (b s : Bytes) → n ≡ length b → read_exact n (b ++ s) ≡ some (b, s)
unfolding read_exact
read_exact-append n b s e = rw e (
    let fits : leb (length b) (length (b ++ s)) ≡ true = ground (arith, length-append b s) in
    rw (fits, take-append, drop-append))

-- A text that an int32 length can count.
abbrev pub IsText : Bytes → Type 0
IsText s = length s < 2 ^ 31

len32 : (b : Bytes) → IsText b → length b % 2 ^ 32 ≡ length b
len32 b h = omega arith

not_null : (b : Bytes) → IsText b → (length b == 2 ^ 32 - 1) ≡ false
not_null b h = ground arith

pub read_string-encode_bytes :
    (b s : Bytes) → IsText b → read_string (encode_bytes b ++ s) ≡ some (some b, s)
unfolding read_string encode_bytes
read_string-encode_bytes b s h = rw (
  append_assoc,
  len32 b h,
  read_be32-be32 (length b) (b ++ s) (omega arith),
  not_null b h,
  read_exact-append (length b) b s refl,
)

-- A text, or NULL.
abbrev pub IsOptionText : Option Bytes → Type 0
IsOptionText none = Unit
IsOptionText (some s) = IsText s

pub read_string-encode_string :
    (o : Option Bytes) (s : Bytes)
    → IsOptionText o
    → read_string (encode_string o ++ s) ≡ some (o, s)
unfolding encode_string
read_string-encode_string none s h =
    unfold read_string uint32 in rw (read_be32-be32 (2 ^ 32 - 1) s (omega arith))
read_string-encode_string (some b) s h = read_string-encode_bytes b s h

pub read_text-encode_bytes :
    (b s : Bytes) → IsText b → read_text (encode_bytes b ++ s) ≡ some (b, s)
unfolding read_text
read_text-encode_bytes b s h = rw (read_string-encode_bytes b s h)

pub read_text-encode_string :
    (b s : Bytes) → IsText b → read_text (encode_string (some b) ++ s) ≡ some (b, s)
unfolding encode_string
read_text-encode_string b s h = read_text-encode_bytes b s h

-- A text that a length byte can count.
abbrev pub IsShort : Bytes → Type 0
IsShort s = length s < 256

pub read_short-encode_short :
    (b s : Bytes) → IsShort b → read_short (encode_short b ++ s) ≡ some (b, s)
unfolding read_short encode_short read_byte
read_short-encode_short b s h = read_exact-append (length b % 256) b s (omega arith)

pub read_integer-encode_short :
    (v : ℤ) (s : Bytes) → IsInt64 v → read_integer (encode_short (decimal v) ++ s) ≡ some (v, s)
unfolding read_integer
read_integer-encode_short v s h =
    rw
      (read_short-encode_short (decimal v) s (omega (arith, length-decimal v h)), integer-decimal v)

pub read_count-be32 :
    (n : ℕ) (s : Bytes) → n < 2 ^ 31 → read_count (be32 (uint32 (pos n)) ++ s) ≡ some (n, s)
unfolding read_count
read_count-be32 n s h =
    rw (read_be32-be32 (uint32 (pos n)) s (uint32-lt (pos n)), int32-uint32 (pos n) h)

abbrev pub AreTexts : List Bytes → Type 0
AreTexts = All IsText

-- The pairs of a table with as many values as keys are written, and read back.
pub read_pairs-encode_pairs :
    (ks vs : List Bytes) (s : Bytes)
    → length vs ≡ length ks
    → AreTexts ks
    → AreTexts vs
    → (bs : Bytes) × (encode_pairs (length ks) ks vs ≡ ok bs)
      × (read_pairs (length ks) (bs ++ s) ≡ some ((ks, vs), s))
unfolding encode_pairs read_pairs
read_pairs-encode_pairs [] [] s e hk hv = ([], refl, refl)
read_pairs-encode_pairs [] (v ∷ vs) s e hk hv = absurd (omega arith)
read_pairs-encode_pairs (k ∷ ks) [] s e hk hv = absurd (omega arith)
read_pairs-encode_pairs (k ∷ ks) (v ∷ vs) s e hk hv =
    let (bs, written, back) = read_pairs-encode_pairs ks vs s (omega arith) hk.1 hv.1 in
    (
      encode_string (some k) ++ (encode_string (some v) ++ bs),
      rw written,
      rw (
        append_assoc,
        append_assoc,
        read_text-encode_string k _ hk.0,
        read_text-encode_string v _ hv.0,
        back,
      ),
    )
