-- ===== src/Base/Int.antt =====
-- Signed integers, the ranges of Go's int32 and int64, and `%d` and strconv.Atoi of them.
use erssi_lith_bridge.Base.Tests.{ltb, leb, ◌==◌, if◌then◌else◌}
use erssi_lith_bridge.Base.Results.{Bytes}
use erssi_lith_bridge.Base.Lists.{length, All}
use erssi_lith_bridge.Base.Text.{
  unsigned, value, IsDigit, value-unsigned, unsigned-ne-nil, unsigned-All, length-unsigned,
}
use Prim.Native.Nat.{ℕ, zero, suc, ◌+◌, ◌-◌, ◌%◌, ◌^◌, ◌≤◌, ◌<◌}
use mathlib.Core.Path.{◌≡◌, refl, ◌∙◌, ap}
use mathlib.Core.Logic.{◌≢◌}
use mathlib.Core.Bool.{Bool, true, ◌&&◌}
use mathlib.Core.List.{[], ◌∷◌}
use mathlib.Core.Option.{Option, none, some}
use native.Mathlib.Omega.{arith}

-- `negsuc n` is -(n + 1).
pub data ℤ : Type 0 where
  pos : ℕ → ℤ
  negsuc : ℕ → ℤ

abbrev pub IsInt32 : ℤ → Type 0
IsInt32 (pos n) = n < 2 ^ 31
IsInt32 (negsuc n) = n < 2 ^ 31

abbrev pub IsInt64 : ℤ → Type 0
IsInt64 (pos n) = n < 2 ^ 63
IsInt64 (negsuc n) = n < 2 ^ 63

-- The bit pattern of an int32.
unfoldable pub uint32 : ℤ → ℕ
uint32 (pos n) = n % 2 ^ 32
uint32 (negsuc n) = 2 ^ 32 - 1 - n % 2 ^ 32

-- The int32 of a bit pattern.
unfoldable pub int32 : ℕ → ℤ
int32 w = if ltb w (2 ^ 31) then pos w else negsuc (2 ^ 32 - 1 - w)

pub int32-uint32 : (v : ℤ) → IsInt32 v → int32 (uint32 v) ≡ v
unfolding int32 uint32
int32-uint32 (pos n) h = ground arith
int32-uint32 (negsuc n) h = ground arith

pub uint32-lt : (v : ℤ) → uint32 v < 2 ^ 32
unfolding uint32
uint32-lt (pos n) = omega arith
uint32-lt (negsuc n) = omega arith

-- `i++` on an int32.
unfoldable pub incr_int32 : ℤ → ℤ
incr_int32 (pos n) = if n == 2 ^ 31 - 1 then negsuc (2 ^ 31 - 1) else pos (n + 1)
incr_int32 (negsuc zero) = pos 0
incr_int32 (negsuc (suc n)) = negsuc n

-- `fmt.Sprintf("%d", v)`.
unfoldable pub decimal : ℤ → Bytes
decimal (pos n) = unsigned n
decimal (negsuc n) = b'-' ∷ unsigned (suc n)

unfoldable pub all_digits : Bytes → Bool
all_digits [] = true
all_digits (c ∷ s) = leb b'0' c && leb c b'9' && all_digits s

-- The number that a text of decimal digits spells.
unfoldable pub natural : Bytes → Option ℕ
unfolding all_digits
natural [] = none
natural (c ∷ s) = if all_digits (c ∷ s) then some (value 10 0 (c ∷ s)) else none

abbrev negate : ℕ → ℤ
negate zero = pos 0
negate (suc n) = negsuc n

abbrev pub map_option {ℓ κ} : {A : Type ℓ} {B : Type κ} → (A → B) → Option A → Option B
map_option f none = none
map_option f (some a) = some (f a)

-- The integer that a text spells, with no bound.
unfoldable pub integer : Bytes → Option ℤ
unfolding natural
integer [] = none
integer (c ∷ s) =
    if c == b'-' then map_option negate (natural s) else map_option pos (natural (c ∷ s))

digit_range : (c : ℕ) → IsDigit 10 c → (leb b'0' c && leb c b'9') ≡ true
digit_range c h = ground arith

all_digits_of_All : (s : Bytes) → All (IsDigit 10) s → all_digits s ≡ true
unfolding all_digits
all_digits_of_All [] h = refl
all_digits_of_All (c ∷ s) h = ground (arith, digit_range c h.0, all_digits_of_All s h.1)

natural_of_All : (s : Bytes) → s ≢ [] → All (IsDigit 10) s → natural s ≡ some (value 10 0 s)
unfolding natural
natural_of_All [] h _ = absurd (h refl)
natural_of_All (c ∷ s) h a = rw (all_digits_of_All (c ∷ s) a)

pub natural-unsigned : (n : ℕ) → natural (unsigned n) ≡ some n
natural-unsigned n =
    natural_of_All (unsigned n) (unsigned-ne-nil n) (unsigned-All n) ∙ ap some (value-unsigned n)

integer_of_digits :
    (s : Bytes) → s ≢ [] → All (IsDigit 10) s → integer s ≡ map_option pos (natural s)
unfolding integer
integer_of_digits [] h a = absurd (h refl)
integer_of_digits (c ∷ s) h a = ground (arith, digit_range c a.0)

-- Every integer is read back from its decimal print.
pub integer-decimal : (v : ℤ) → integer (decimal v) ≡ some v
unfolding decimal
integer-decimal (pos n) =
    integer_of_digits (unsigned n) (unsigned-ne-nil n) (unsigned-All n)
    ∙ ap (map_option pos) (natural-unsigned n)
integer-decimal (negsuc n) = unfold integer in ap (map_option negate) (natural-unsigned (suc n))

pub length-decimal : (v : ℤ) → IsInt64 v → length (decimal v) ≤ 21
unfolding decimal
length-decimal (pos n) h = omega (arith, length-unsigned n (omega arith))
length-decimal (negsuc n) h = omega (arith, length-unsigned (suc n) (omega arith))
