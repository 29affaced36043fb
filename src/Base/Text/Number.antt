-- ===== src/Base/Text/Number.antt =====
-- `%d` and `%x` of an unsigned number: a loop that divides by the base.
use Prim.Native.Nat.{ℕ, zero, suc, ◌+◌, ◌-◌, ◌*◌, ◌/◌, ◌%◌, ◌^◌, ◌≤◌, ◌<◌}
use mathlib.Core.Path.{◌≡◌, refl, ◌∙◌, sym, ap, subst}
use mathlib.Core.Logic.{◌≢◌, ite, dite, if_pos, if_neg}
use mathlib.Core.List.{[], ◌∷◌, foldl}
use mathlib.Core.WellFounded as Wf
use mathlib.Core.WellFounded.{Acc, WellFounded, Acc-prop}
use native.Mathlib.Decide.{dec_lt}
use native.Mathlib.Nat.{div-lt_self, div-add-mod', div-lt_iff_lt-mul, pow-suc, pow-zero, mod-lt}
use native.Mathlib.Omega.{arith}
use erssi_lith_bridge.Base.Results.{Bytes}
use erssi_lith_bridge.Base.Lists.{length, All}
use erssi_lith_bridge.Base.Tests.{ltb, if◌then◌else◌}

acc_below : (k n : ℕ) → n < k → Acc ◌<◌ n
acc_below zero n h = elim h [ ]
acc_below (suc k) n h = Acc.intro n (λ m lt. acc_below k m (omega arith))

lt_wf : WellFounded ◌<◌
unfolding acc_below
lt_wf = record { apply = λ n. acc_below (suc n) n (omega arith) }

abbrev pub digit : ℕ → ℕ
digit d = if ltb d 10 then b'0' + d else b'a' + d - 10

abbrev pub digit_value : ℕ → ℕ
digit_value c = if ltb c b'a' then c - b'0' else c + 10 - b'a'

module _ (base : ℕ) (two : 1 < base) where
  emit : (n : ℕ) → Acc ◌<◌ n → Bytes → Bytes
  emit n (Acc.intro _ smaller) out =
      dite (dec_lt 0 n)
        (λ h. emit (n / base) (smaller (n / base) (div-lt_self h two)) (digit (n % base) ∷ out))
        (λ _. out)

  unfoldable pub digits : ℕ → Bytes → Bytes
  unfolding emit lt_wf dec_lt
  digits n = emit n (lt_wf.apply n)

-- the number that digits spell behind `n`
abbrev pub value : ℕ → ℕ → Bytes → ℕ
value base = foldl (λ n c. n * base + digit_value c)

abbrev pub IsDigit : ℕ → ℕ → Type 0
IsDigit base c = (digit_value c < base) × (c ≡ digit (digit_value c))

digit_value-digit : (d : ℕ) → digit_value (digit d) ≡ d
digit_value-digit d = ground arith

module _ (base : ℕ) (two : 1 < base) where
  emit_step :
      (n : ℕ) (w : Acc ◌<◌ n) (w' : Acc ◌<◌ (n / base)) (out : Bytes)
      → emit base two n w out
        ≡ ite (dec_lt 0 n) (emit base two (n / base) w' (digit (n % base) ∷ out)) out
  unfolding emit
  emit_step n (Acc.intro _ smaller) w' out = λ i.
      dite (dec_lt 0 n)
        (λ h.
          emit base two (n / base) (Acc-prop (smaller (n / base) (div-lt_self h two)) w' i)
            (digit (n % base) ∷ out))
        (λ _. out)

  digits_step :
      (n : ℕ) (out : Bytes)
      → digits base two n out
        ≡ ite (dec_lt 0 n) (digits base two (n / base) (digit (n % base) ∷ out)) out
  unfolding digits
  digits_step n out = emit_step n (lt_wf.apply n) (lt_wf.apply (n / base)) out

  digits_zero : (out : Bytes) → digits base two 0 out ≡ out
  digits_zero out = digits_step 0 out ∙ if_neg (dec_lt 0 0) (omega arith) _ _

  digits_pos :
      (n : ℕ) (out : Bytes)
      → 0 < n
      → digits base two n out ≡ digits base two (n / base) (digit (n % base) ∷ out)
  digits_pos n out h = digits_step n out ∙ if_pos (dec_lt 0 n) h _ _

  -- Induction on the rounds of the loop.
  digits_induction {κ} :
      (P : ℕ → Type κ) → P 0 → ((n : ℕ) → 0 < n → P (n / base) → P n) → (n : ℕ) → P n
  digits_induction P z s n = Wf.induction lt_wf {C = P} n λ k ih. elim (dec_lt 0 k) [
    | yes h ↦ s k h (ih (k / base) (div-lt_self h two))
    | no h ↦ subst P (omega arith) z
  ]

  value-digits : (n : ℕ) (out : Bytes) → value base 0 (digits base two n out) ≡ value base n out
  value-digits =
      digits_induction
        (λ n. (out : Bytes) → value base 0 (digits base two n out) ≡ value base n out)
        (λ out. rw digits_zero refl)
        λ n h ih out.
          rw (digits_pos n out h)
            (ih (digit (n % base) ∷ out) ∙ ap (λ m. value base m out) (last_digit n))
    where
      last_digit : (n : ℕ) → n / base * base + digit_value (digit (n % base)) ≡ n
      last_digit n = rw digit_value-digit (div-add-mod' n base)

  length-digits :
      (k n : ℕ) (out : Bytes) → n < base ^ k → length (digits base two n out) ≤ k + length out
  length-digits zero n out h =
      let e : n ≡ 0 = omega (arith, pow-zero base) in rw (e, digits_zero) (omega arith)
  length-digits (suc k) n out h = elim (dec_lt 0 n) [
    | yes pos ↦ rw (digits_pos n out pos) (
        let small : n / base < base ^ k = (div-lt_iff_lt-mul (omega arith)).1 (rw pow-suc at h) in
        omega (arith, length-digits k (n / base) (digit (n % base) ∷ out) small))
    | no z ↦ let e : n ≡ 0 = omega arith in rw (e, digits_zero) (omega arith)
  ]

  digits-All :
      (n : ℕ) (out : Bytes) → All (IsDigit base) out → All (IsDigit base) (digits base two n out)
  digits-All =
      digits_induction
        (λ n. (out : Bytes) → All (IsDigit base) out → All (IsDigit base) (digits base two n out))
        (λ out h. rw digits_zero h)
        λ n h ih out a. rw (digits_pos n out h) (
          ih (digit (n % base) ∷ out)
            ((rw digit_value-digit (mod-lt n (omega arith)), rw digit_value-digit refl), a))

  digits-ne-nil : (n : ℕ) (out : Bytes) → out ≢ [] → digits base two n out ≢ []
  digits-ne-nil =
      digits_induction (λ n. (out : Bytes) → out ≢ [] → digits base two n out ≢ [])
        (λ out h. rw digits_zero h)
        λ n h ih out a. rw (digits_pos n out h) (ih (digit (n % base) ∷ out) cc)

pub ten : 1 < 10
ten = omega arith

pub sixteen : 1 < 16
sixteen = omega arith

-- `%d` of a number that is not negative, and `%x`.
unfoldable pub unsigned : ℕ → Bytes
unsigned zero = b'0' ∷ []
unsigned (suc n) = digits 10 ten (suc n) []

unfoldable pub hex : ℕ → Bytes
hex zero = b'0' ∷ []
hex (suc n) = digits 16 sixteen (suc n) []

pub value-unsigned : (n : ℕ) → value 10 0 (unsigned n) ≡ n
unfolding unsigned
value-unsigned zero = refl
value-unsigned (suc n) = value-digits 10 ten (suc n) []

pub unsigned-ne-nil : (n : ℕ) → unsigned n ≢ []
unfolding unsigned
unsigned-ne-nil zero = cc
unsigned-ne-nil (suc n) =
    rw (digits_pos 10 ten (suc n) [] (omega arith)) (digits-ne-nil 10 ten (suc n / 10) _ cc)

pub unsigned-All : (n : ℕ) → All (IsDigit 10) (unsigned n)
unfolding unsigned
unsigned-All zero = ((omega arith, refl), tt)
unsigned-All (suc n) = digits-All 10 ten (suc n) [] tt

pub length-unsigned : (n : ℕ) → n < 10 ^ 20 → length (unsigned n) ≤ 20
unfolding unsigned
length-unsigned zero h = omega arith
length-unsigned (suc n) h = length-digits 10 ten 20 (suc n) [] h

pub hex-injective : (m n : ℕ) → hex m ≡ hex n → m ≡ n
unfolding hex
hex-injective m n e = sym (value-hex m) ∙ ap (value 16 0) e ∙ value-hex n
  where
    value-hex : (k : ℕ) → value 16 0 (hex k) ≡ k
    value-hex zero = refl
    value-hex (suc k) = value-digits 16 sixteen (suc k) []

pub hex-All : (n : ℕ) → All (IsDigit 16) (hex n)
unfolding hex
hex-All zero = ((omega arith, refl), tt)
hex-All (suc n) = digits-All 16 sixteen (suc n) [] tt

pub hex-ne-nil : (n : ℕ) → hex n ≢ []
unfolding hex
hex-ne-nil zero = cc
hex-ne-nil (suc n) =
    rw (digits_pos 16 sixteen (suc n) [] (omega arith)) (digits-ne-nil 16 sixteen (suc n / 16) _ cc)

pub length-hex : (n : ℕ) → n < 2 ^ 64 → length (hex n) ≤ 16
unfolding hex
length-hex zero h = omega arith
length-hex (suc n) h = length-digits 16 sixteen 16 (suc n) [] h

hex_runs : hex 0x1f3a ≡ b'1' ∷ b'f' ∷ b'3' ∷ b'a' ∷ []
unfolding hex digits
hex_runs = refl

unsigned_runs :
    unsigned 1700000000 ≡ b'1' ∷ b'7' ∷ b'0' ∷ b'0' ∷ b'0' ∷ b'0' ∷ b'0' ∷ b'0' ∷ b'0' ∷ b'0' ∷ []
unfolding unsigned digits
unsigned_runs = refl
