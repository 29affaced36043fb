-- ===== src/Base/Text/Case.antt =====
-- strings.ToLower: Go maps the letters of an ASCII text byte by byte, and any other text rune by
-- rune by the Unicode tables, which are the parameter `unicode_lower` here.
use Prim.Native.Nat.{ℕ, ◌+◌}
use mathlib.Core.Path.{◌≡◌, refl}
use mathlib.Core.Bool.{Bool, true, ◌&&◌}
use mathlib.Core.List.{[], ◌∷◌, map}
use native.Mathlib.Omega.{arith}
use erssi_lith_bridge.Base.Results.{Bytes}
use erssi_lith_bridge.Base.Tests.{ltb, leb, if◌then◌else◌}

unfoldable pub lower_byte : ℕ → ℕ
lower_byte c = if leb b'A' c && leb c b'Z' then c + 32 else c

unfoldable pub is_ascii : Bytes → Bool
is_ascii [] = true
is_ascii (c ∷ s) = ltb c 128 && is_ascii s

unfoldable pub to_lower : (Bytes → Bytes) → Bytes → Bytes
unfolding lower_byte is_ascii
to_lower unicode_lower s = if is_ascii s then map lower_byte s else unicode_lower s

map-lower_byte-is_ascii : (s : Bytes) → is_ascii (map lower_byte s) ≡ is_ascii s
unfolding is_ascii lower_byte
map-lower_byte-is_ascii [] = refl
map-lower_byte-is_ascii (c ∷ s) = ground (arith, map-lower_byte-is_ascii s)

map-lower_byte_idem : (s : Bytes) → map lower_byte (map lower_byte s) ≡ map lower_byte s
unfolding lower_byte
map-lower_byte_idem [] = refl
map-lower_byte_idem (c ∷ s) = ground (arith, map-lower_byte_idem s)

-- Lowering an ASCII text once more changes nothing.
pub to_lower_idem :
    (u : Bytes → Bytes) (s : Bytes) → is_ascii s ≡ true → to_lower u (to_lower u s) ≡ to_lower u s
unfolding to_lower
to_lower_idem u s h = ground (arith, map-lower_byte-is_ascii s, map-lower_byte_idem s)
