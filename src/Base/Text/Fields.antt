-- ===== src/Base/Text/Fields.antt =====
-- strings.Fields and strings.TrimSpace. White space is that of unicode.IsSpace, found in the bytes of
-- UTF-8: none of its encodings begins with a continuation byte, so a scan by bytes finds the same
-- places as Go's scan by runes, on texts that are not valid UTF-8 too.
use Prim.Native.Nat.{ℕ, zero, suc}
use mathlib.Core.Path.{◌≡◌}
use mathlib.Core.Logic.{◌≢◌}
use mathlib.Core.Bool.{Bool, true, false, ◌&&◌, ◌||◌}
use mathlib.Core.List.{List, [], ◌∷◌}
use erssi_lith_bridge.Base.Results.{Bytes}
use erssi_lith_bridge.Base.Lists.{drop}
use erssi_lith_bridge.Base.Tests.{leb, ◌==◌, if◌then◌else◌}

-- the first byte; 0 stands for none, and is part of no white space
abbrev pub front : Bytes → ℕ
front [] = 0
front (c ∷ s) = c

unfoldable pub ascii_space : ℕ → Bool
ascii_space c = c == b' ' || leb 9 c && leb c 13

-- U+0085 and U+00A0
unfoldable pub two_byte_space : ℕ → ℕ → Bool
two_byte_space c d = c == 0xc2 && (d == 0x85 || d == 0xa0)

-- U+1680, U+2000 to U+200A, U+2028, U+2029, U+202F, U+205F and U+3000
unfoldable pub three_byte_space : ℕ → ℕ → ℕ → Bool
three_byte_space c d e =
    (c == 0xe1 && (d == 0x9a && e == 0x80))
    || (c == 0xe2
        && (d == 0x80 && (leb 0x80 e && leb e 0x8a || (e == 0xa8 || (e == 0xa9 || e == 0xaf)))
            || d == 0x81 && e == 0x9f))
    || (c == 0xe3 && (d == 0x80 && e == 0x80))

-- How many bytes the white space at the front takes, 0 where there is none.
unfoldable pub space_width : Bytes → ℕ
unfolding ascii_space two_byte_space three_byte_space
space_width [] = 0
space_width (c ∷ s) =
    if ascii_space c
    then 1
    else if two_byte_space c (front s)
    then 2
    else if three_byte_space c (front s) (front (drop 1 s))
    then 3
    else 0

-- a word that is complete, unless it is empty, and the words behind it
abbrev pub close : Bytes × List Bytes → List Bytes
close ([], ws) = ws
close (c ∷ w, ws) = (c ∷ w) ∷ ws

-- The word at the front and those behind it; the number counts the bytes of white space that are
-- still to be skipped.
unfoldable pub words : ℕ → Bytes → Bytes × List Bytes
unfolding space_width
words k [] = ([], [])
words (suc k) (c ∷ s) = ([], close (words k s))
words zero (c ∷ s) = elim (space_width (c ∷ s)) [
  | zero ↦ let r = words zero s in (c ∷ r.0, r.1)
  | suc k ↦ ([], close (words k s))
]

unfoldable pub fields : Bytes → List Bytes
unfolding words
fields s = close (words 0 s)

unfoldable pub trim_left : ℕ → Bytes → Bytes
unfolding space_width
trim_left k [] = []
trim_left (suc k) (c ∷ s) = trim_left k s
trim_left zero (c ∷ s) = elim (space_width (c ∷ s)) [ zero ↦ c ∷ s | suc k ↦ trim_left k s ]

abbrev pub no_words : List Bytes → Bool
no_words [] = true
no_words (w ∷ ws) = false

-- the end of the text is dropped from where only white space follows
unfoldable pub trim_right : Bytes → Bytes
unfolding fields
trim_right [] = []
trim_right (c ∷ s) = let rest = trim_right s in if no_words (fields (c ∷ s)) then [] else c ∷ rest

unfoldable pub trim_space : Bytes → Bytes
unfolding trim_left trim_right
trim_space s = trim_right (trim_left 0 s)

-- No white space begins at any byte.
abbrev pub IsPlainText : Bytes → Type 0
IsPlainText [] = Unit
IsPlainText (c ∷ s) = (space_width (c ∷ s) ≡ 0) × IsPlainText s

abbrev pub IsWord : Bytes → Type 0
IsWord w = (w ≢ []) × IsPlainText w
