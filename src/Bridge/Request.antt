-- ===== src/Bridge/Request.antt =====
-- internal/bridge/bridge.go: the two regular expressions of `handleLineRequest`, and strconv.Atoi.
use erssi_lith_bridge.Base.{
  ℕ, suc, ◌-◌, ◌^◌, Bool, ◌&&◌, ◌||◌, not, [], ◌∷◌, ◌++◌, Option, none, some, Bytes, ltb, leb, ◌==◌,
  drop, if◌then◌else◌,
}
use erssi_lith_bridge.Base.Int.{ℤ, pos, negsuc, integer}
use erssi_lith_bridge.Base.Text.{codes, has_prefix}
use erssi_lith_bridge.Erssi.Types.{is_empty}

unfoldable pub is_hex : ℕ → Bool
is_hex c = leb b'0' c && leb c b'9' || leb b'a' c && leb c b'f'

unfoldable pub is_digit : ℕ → Bool
is_digit c = leb b'0' c && leb c b'9'

-- the longest prefix of bytes that pass the test, and what follows it
unfoldable pub run_of : (ℕ → Bool) → Bytes → Bytes × Bytes
run_of p [] = ([], [])
run_of p (c ∷ s) = let rest = run_of p s in if p c then (c ∷ rest.0, rest.1) else ([], c ∷ s)

-- The leftmost match of `buffer:(0x[0-9a-f]+)`, its group.
unfoldable pub find_buffer_pointer : Bytes → Option Bytes
find_buffer_pointer [] = none
find_buffer_pointer (c ∷ s) =
    let rest = find_buffer_pointer s in
    let digits = (run_of is_hex (drop 9 (c ∷ s))).0 in
    if has_prefix (c ∷ s) (codes "buffer:0x") && not (is_empty digits)
    then some (codes "0x" ++ digits)
    else rest

-- `-?\d+` at the front, and what follows it
unfoldable pub signed_run : Bytes → Bytes × Bytes
signed_run [] = ([], [])
signed_run (c ∷ s) =
    if c == b'-'
    then (let r = run_of is_digit s in if is_empty r.0 then ([], c ∷ s) else (c ∷ r.0, r.1))
    else run_of is_digit (c ∷ s)

-- `\((-?\d+)\)` at the front, its group.
unfoldable pub count_here : Bytes → Option Bytes
count_here [] = none
count_here (c ∷ s) =
    let r = signed_run s in
    if c == b'(' && not (is_empty r.0) && has_prefix r.1 (codes ")") then some r.0 else none

-- The leftmost match.
unfoldable pub find_count : Bytes → Option Bytes
find_count [] = none
find_count (c ∷ s) =
    let rest = find_count s in elim (count_here (c ∷ s)) [ some t ↦ some t | none ↦ rest ]

-- An int64, or the error of a text that is none.
unfoldable pub in_int64 : ℤ → Option ℤ
in_int64 (pos n) = if ltb n (2 ^ 63) then some (pos n) else none
in_int64 (negsuc n) = if ltb n (2 ^ 63) then some (negsuc n) else none

unfoldable pub atoi : Bytes → Option ℤ
atoi s = elim (integer s) [ none ↦ none | some v ↦ in_int64 v ]

-- `if n < 0 { count = -n } else { count = n }`; the negation of -2^63 is itself.
unfoldable pub magnitude : ℤ → ℤ
magnitude (pos n) = pos n
magnitude (negsuc n) = if n == 2 ^ 63 - 1 then negsuc n else pos (suc n)

unfoldable pub line_count : Bytes → ℤ
line_count params = elim (find_count params) [
  | none ↦ pos 50
  | some t ↦ elim (atoi t) [ none ↦ pos 50 | some n ↦ magnitude n ]
]
