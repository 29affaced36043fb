-- ===== src/Translator/Identity.antt =====
-- The identities that the translator gives to buffers: pointers and numbers.
use mathlib.Core.Path.{subst}
use erssi_lith_bridge.Base.{
  ℕ, suc, ◌+◌, ◌-◌, ◌^◌, ◌<◌, ◌≤◌, ◌≡◌, refl, sym, ap, ◌∙◌, [], ◌∷◌, ◌++◌, some, Bytes, length,
  arith,
}
use erssi_lith_bridge.Base.Int.{pos, incr_int32}
use erssi_lith_bridge.Base.Text.{codes, hex, hex-injective}
use erssi_lith_bridge.Base.Assoc.{lookup, insert}
use erssi_lith_bridge.Base.Assoc.Distinct.{
  Distinct, Distinct-insert_new, Distinct-insert_same, Every-insert, length-insert_new,
  length-insert_old,
}
use erssi_lith_bridge.Translator.State.{BufferState, Translator, Host, pointer_text, new_translator}
use erssi_lith_bridge.Translator.Changes.{Change, tick, add, edit, Changes, here, next}

-- No two readings of the clock are equal.
abbrev pub IsTicking : Host → Type 0
IsTicking h = (i j : ℕ) → h.clock i ≡ h.clock j → i ≡ j

pub pointer_text-injective : (m n : ℕ) → pointer_text m ≡ pointer_text n → m ≡ n
unfolding pointer_text
pointer_text-injective m n e = hex-injective m n (tails e)
  where
    after_two : Bytes → Bytes
    after_two (a ∷ b ∷ s) = s
    after_two _ = []

    tails : codes "0x" ++ hex m ≡ codes "0x" ++ hex n → hex m ≡ hex n
    tails p = ap after_two p

-- A pointer that the clock gave at an earlier reading.
abbrev pub IsIssued : Host → ℕ → BufferState → Type 0
IsIssued h reads b = (i : ℕ) × (i < reads) × (b.pointer ≡ pointer_text (h.clock i))

pub record HasPointers (h : Host) (t : Translator) : Type 0 where
  pub issued :
      (key : Bytes) (b : BufferState) → lookup key t.buffers ≡ some b → IsIssued h t.reads b
  pub distinct : Distinct (λ (b : BufferState). b.pointer) t.buffers

pub later-IsIssued : (h : Host) (n : ℕ) (b : BufferState) → IsIssued h n b → IsIssued h (n + 1) b
later-IsIssued h n b (i, old, e) = (i, omega arith, e)

module _ (h : Host) (ticking : IsTicking h) where
  Change-HasPointers : (t u : Translator) → Change h t u → HasPointers h t → HasPointers h u
  Change-HasPointers t u (tick e) s = subst (HasPointers h) (sym e) (record {
    issued = λ key b f. later-IsIssued h t.reads b (s.issued key b f);
    distinct = s.distinct;
  })
  Change-HasPointers t u (add key b free ep en e) s = subst (HasPointers h) (sym e) (record {
    issued =
        Every-insert (IsIssued h (t.reads + 1)) key b t.buffers (t.reads, omega arith, ep)
          (λ j w f. later-IsIssued h t.reads w (s.issued j w f));
    distinct =
        Distinct-insert_new (λ (c : BufferState). c.pointer) key b t.buffers s.distinct
          (λ j w f same.
            let (i, old, ew) = s.issued j w f in
            let e' : i ≡ t.reads =
              ticking i t.reads
                (pointer_text-injective (h.clock i) (h.clock t.reads) (sym ew ∙ same ∙ ep)) in
            absurd (omega arith));
  })
  Change-HasPointers t u (edit key b c found same e) s = subst (HasPointers h) (sym e) (record {
    issued =
        Every-insert (IsIssued h t.reads) key c t.buffers
          (let (i, old, eb) = s.issued key b found in (i, old, sym same.pointer ∙ eb)) s.issued;
    distinct =
        Distinct-insert_same (λ (c : BufferState). c.pointer) key b c t.buffers s.distinct found
          same.pointer;
  })

  pub Changes-HasPointers : {t u : Translator} → Changes h t u → HasPointers h t → HasPointers h u
  Changes-HasPointers here s = s
  Changes-HasPointers (next c d) s = Change-HasPointers _ _ d (Changes-HasPointers c s)

abbrev pub NumberBelow : ℕ → BufferState → Type 0
NumberBelow n b = (k : ℕ) × (1 ≤ k) × (k < n) × (b.number ≡ pos k)

-- With n buffers, each has a number from 1 to n, no two keys have buffers of one number, and the next
-- number is n + 1.
pub record HasNumbers (t : Translator) : Type 0 where
  pub following : t.next_buffer_num ≡ pos (1 + length t.buffers)
  pub below :
      (key : Bytes) (b : BufferState)
      → lookup key t.buffers ≡ some b
      → (k : ℕ) × (1 ≤ k) × (k < 1 + length t.buffers) × (b.number ≡ pos k)
  pub distinct : Distinct (λ (b : BufferState). b.number) t.buffers

pos-injective : {m n : ℕ} → pos m ≡ pos n → m ≡ n
pos-injective e = cc

incr_small : (n : ℕ) → n < 2 ^ 31 - 1 → incr_int32 (pos n) ≡ pos (n + 1)
unfolding incr_int32
incr_small n h = ground arith

Change-HasNumbers :
    {h : Host} (t u : Translator)
    → Change h t u
    → length u.buffers < 2 ^ 31 - 1
    → HasNumbers t
    → HasNumbers u
Change-HasNumbers t u (tick e) room s =
    subst HasNumbers (sym e)
      (record { following = s.following; below = s.below; distinct = s.distinct })
Change-HasNumbers t u (add key b free ep en e) room s =
    let longer : length (insert key b t.buffers) ≡ suc (length t.buffers) =
      length-insert_new key b t.buffers free in
    let grown : length u.buffers ≡ suc (length t.buffers) =
      ap (λ (v : Translator). length v.buffers) e ∙ longer in
    subst HasNumbers (sym e) (record {
      following =
          ap incr_int32 s.following
          ∙ incr_small (1 + length t.buffers) (omega arith)
          ∙ ap pos (omega arith);
      below =
          Every-insert (NumberBelow (1 + length (insert key b t.buffers))) key b t.buffers
            (1 + length t.buffers, omega arith, omega arith, en ∙ s.following)
            (λ j w f. let (k, one, lt, ew) = s.below j w f in (k, one, omega arith, ew));
      distinct =
          Distinct-insert_new (λ (c : BufferState). c.number) key b t.buffers s.distinct
            (λ j w f same.
              let (k, one, lt, ew) = s.below j w f in
              let e' : k ≡ 1 + length t.buffers =
                pos-injective (sym ew ∙ same ∙ en ∙ s.following) in
              absurd (omega arith));
    })
Change-HasNumbers t u (edit key b c found same e) room s =
    let as_long : length (insert key c t.buffers) ≡ length t.buffers =
      length-insert_old key b c t.buffers found in
    subst HasNumbers (sym e) (record {
      following = s.following ∙ ap pos (omega arith);
      below =
          Every-insert (NumberBelow (1 + length (insert key c t.buffers))) key c t.buffers
            (let (k, one, lt, eb) = s.below key b found in
              (k, one, omega arith, sym same.number ∙ eb))
            (λ j w f. let (k, one, lt, ew) = s.below j w f in (k, one, omega arith, ew));
      distinct =
          Distinct-insert_same (λ (c : BufferState). c.number) key b c t.buffers s.distinct found
            same.number;
    })

length-Change : {h : Host} (t u : Translator) → Change h t u → length t.buffers ≤ length u.buffers
length-Change t u (tick e) = omega (arith, ap (λ (v : Translator). length v.buffers) e)
length-Change t u (add key b free ep en e) =
    omega
      (arith, ap (λ (v : Translator). length v.buffers) e, length-insert_new key b t.buffers free)
length-Change t u (edit key b c found same e) =
    omega (
      arith,
      ap (λ (v : Translator). length v.buffers) e,
      length-insert_old key b c t.buffers found,
    )

pub Changes-HasNumbers :
    {h : Host} {t u : Translator}
    → Changes h t u
    → length u.buffers < 2 ^ 31 - 1
    → HasNumbers t
    → HasNumbers u
Changes-HasNumbers here room s = s
Changes-HasNumbers (next c d) room s =
    Change-HasNumbers _ _ d room (Changes-HasNumbers c (omega (arith, length-Change _ _ d)) s)

pub HasPointers-new : (h : Host) → HasPointers h new_translator
unfolding lookup
HasPointers-new h = record { issued = λ k b f. cc; distinct = λ j k v w f g e. cc }

pub HasNumbers-new : HasNumbers new_translator
unfolding lookup
HasNumbers-new = record { following = refl; below = λ k b f. cc; distinct = λ j k v w f g e. cc }
