-- ===== src/Bridge/Counts.antt =====
-- internal/bridge/bridge.go, `handleLineRequest`: the count that a client's arguments ask for.
use erssi_lith_bridge.Base.{
  ℕ, suc, ◌-◌, ◌^◌, ◌≡◌, ◌≢◌, refl, true, false, [], ◌∷◌, ◌++◌, some, Bytes, All, ltb, ◌==◌,
  if◌then◌else◌, arith,
}
use erssi_lith_bridge.Base.Int.{ℤ, pos, negsuc, decimal, integer-decimal}
use erssi_lith_bridge.Base.Text.{
  codes, has_prefix, IsDigit, unsigned, unsigned-ne-nil, unsigned-All,
}
use erssi_lith_bridge.Bridge.LineRequests.{nonempty}
use erssi_lith_bridge.Bridge.Request.{
  is_digit, run_of, signed_run, count_here, find_count, in_int64, atoi, magnitude, line_count,
}

IsDigit-is_digit : (c : ℕ) → IsDigit 10 c → is_digit c ≡ true
unfolding is_digit
IsDigit-is_digit c h = ground arith

run_of-decimal :
    (s rest : Bytes) → All (IsDigit 10) s → run_of is_digit (s ++ (b')' ∷ rest)) ≡ (s, b')' ∷ rest)
unfolding run_of is_digit
run_of-decimal [] rest h = refl
run_of-decimal (c ∷ s) rest h =
    let one = IsDigit-is_digit c h.0 in
    let more = run_of-decimal s rest h.1 in rw (run_of, one) (λ i. (c ∷ (more i).0, (more i).1))

signed_run-digits :
    (s rest : Bytes)
    → s ≢ []
    → All (IsDigit 10) s
    → signed_run (s ++ (b')' ∷ rest)) ≡ (s, b')' ∷ rest)
unfolding signed_run
signed_run-digits [] rest h a = absurd (h refl)
signed_run-digits (c ∷ s) rest h a =
    let no_sign : (c == b'-') ≡ false = (let (small, e) = a.0 in ground arith) in
    let all = run_of-decimal (c ∷ s) rest a in rw (signed_run, no_sign) all

signed_run-decimal :
    (v : ℤ) (rest : Bytes) → signed_run (decimal v ++ (b')' ∷ rest)) ≡ (decimal v, b')' ∷ rest)
unfolding decimal signed_run
signed_run-decimal (pos n) rest =
    signed_run-digits (unsigned n) rest (unsigned-ne-nil n) (unsigned-All n)
signed_run-decimal (negsuc n) rest =
    let digits = run_of-decimal (unsigned (suc n)) rest (unsigned-All (suc n)) in
    let some_digit = nonempty (unsigned (suc n)) (unsigned-ne-nil (suc n)) in
    rw (signed_run, digits, some_digit) refl

decimal-ne-nil : (v : ℤ) → decimal v ≢ []
unfolding decimal
decimal-ne-nil (pos n) = unsigned-ne-nil n
decimal-ne-nil (negsuc n) = cc

find_count-decimal :
    (v : ℤ) (rest : Bytes) → find_count (b'(' ∷ (decimal v ++ (b')' ∷ rest))) ≡ some (decimal v)
unfolding find_count count_here has_prefix
find_count-decimal v rest =
    let run = signed_run-decimal v rest in
    let full = nonempty (decimal v) (decimal-ne-nil v) in
    rw (find_count, count_here, run, full) refl

-- The size of an int64, but for -2^63, which has none; 50 for any other number.
abbrev pub asked_count : ℤ → ℤ
asked_count (pos n) = if ltb n (2 ^ 63) then pos n else pos 50
asked_count (negsuc n) =
    if ltb (suc n) (2 ^ 63) then pos (suc n) else if n == 2 ^ 63 - 1 then negsuc n else pos 50

bounded : (v : ℤ) → atoi (decimal v) ≡ in_int64 v
unfolding atoi
bounded v = rw (atoi, integer-decimal v) refl

-- Where the arguments of a request for lines begin with a decimal number in parentheses, as clients
-- write it, the count is the size of that number, whatever its sign; but for -2^63 it stays negative,
-- and for a number that is no int64 it is 50.
pub line_count-decimal :
    (v : ℤ) (rest : Bytes)
    → line_count (codes "(" ++ (decimal v ++ (codes ")" ++ rest))) ≡ asked_count v
unfolding line_count in_int64 magnitude
line_count-decimal (pos n) rest =
    rw (line_count, find_count-decimal (pos n) rest, bounded (pos n)) (ground arith)
line_count-decimal (negsuc n) rest =
    rw (line_count, find_count-decimal (negsuc n) rest, bounded (negsuc n)) (ground arith)
