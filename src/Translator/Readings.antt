-- ===== src/Translator/Readings.antt =====
-- internal/translator/translator.go, `generatePointer`: which readings of the clock the pointers are.
use mathlib.Core.Path.{subst}
use erssi_lith_bridge.Base.{ℕ, ◌+◌, ◌<◌, ◌≡◌, ◌⊎◌, inl, inr, sym, ap, ◌∙◌, some, Bytes, arith}
use erssi_lith_bridge.Base.Assoc.{lookup}
use erssi_lith_bridge.Base.Assoc.Distinct.{Written, written, kept, lookup-Written, Every-insert}
use erssi_lith_bridge.Translator.State.{BufferState, Translator, Host, pointer_text, new_translator}
use erssi_lith_bridge.Translator.Changes.{Change, tick, add, edit, Changes, here, next}
use erssi_lith_bridge.Translator.Identity.{IsIssued, later-IsIssued, pointer_text-injective}

-- The clock gave the same at two of the readings so far, and the pointer is this reading.
abbrev pub IsRepeated : Host → ℕ → Bytes → Type 0
IsRepeated h reads p =
    (i : ℕ) × (j : ℕ) × (i < j)
    × (j < reads)
    × (h.clock i ≡ h.clock j)
    × (p ≡ pointer_text (h.clock i))

-- Every pointer is a reading of the clock so far, and buffers of two keys have one pointer only where
-- two readings of the clock are equal.
pub record HasReadings (h : Host) (t : Translator) : Type 0 where
  pub issued :
      (key : Bytes) (b : BufferState) → lookup key t.buffers ≡ some b → IsIssued h t.reads b
  pub shared :
      (j k : Bytes) (v w : BufferState)
      → lookup j t.buffers ≡ some v
      → lookup k t.buffers ≡ some w
      → v.pointer ≡ w.pointer
      → (j ≡ k) ⊎ IsRepeated h t.reads v.pointer

abbrev OneOrRepeated : Host → ℕ → Bytes → Bytes → BufferState → Type 0
OneOrRepeated h reads j k v = (j ≡ k) ⊎ IsRepeated h reads v.pointer

later :
    (h : Host) (n : ℕ) (j k : Bytes) (v : BufferState)
    → OneOrRepeated h n j k v
    → OneOrRepeated h (n + 1) j k v
later h n j k v (inl e) = inl e
later h n j k v (inr (a, b, lt, old, e, p)) = inr (a, b, lt, omega arith, e, p)

module _ (h : Host) where
  -- A buffer with an old pointer, and the one that is made at reading n.
  again :
      (n : ℕ) (w : BufferState) (p : Bytes)
      → IsIssued h n w
      → p ≡ pointer_text (h.clock n)
      → w.pointer ≡ p
      → IsRepeated h (n + 1) w.pointer
  again n w p (i, old, e) ep same = (
    i,
    n,
    omega arith,
    omega arith,
    pointer_text-injective (h.clock i) (h.clock n) (sym e ∙ same ∙ ep),
    e,
  )

  Change-HasReadings : (t u : Translator) → Change h t u → HasReadings h t → HasReadings h u
  Change-HasReadings t u (tick e) s = subst (HasReadings h) (sym e) (record {
    issued = λ key b f. later-IsIssued h t.reads b (s.issued key b f);
    shared = λ j k v w f g p. later h t.reads j k v (s.shared j k v w f g p);
  })
  Change-HasReadings t u (add key b free ep en e) s = subst (HasReadings h) (sym e) (record {
    issued =
        Every-insert (IsIssued h (t.reads + 1)) key b t.buffers (t.reads, omega arith, ep)
          (λ j w f. later-IsIssued h t.reads w (s.issued j w f));
    shared = λ j k v w f g p.
        go j k v w p (lookup-Written key j b v t.buffers f) (lookup-Written key k b w t.buffers g);
  })
    where
      go :
          (j k : Bytes) (v w : BufferState)
          → v.pointer ≡ w.pointer
          → Written key b t.buffers j v
          → Written key b t.buffers k w
          → OneOrRepeated h (t.reads + 1) j k v
      go j k v w p (written q r) (written q' r') = inl (q ∙ sym q')
      go j k v w p (written q r) (kept ne g) = inr (
          subst (IsRepeated h (t.reads + 1)) (sym p) (
            again t.reads w b.pointer (s.issued k w g) ep
              (sym p ∙ ap (λ (c : BufferState). c.pointer) r)))
      go j k v w p (kept ne f) (written q r) = inr (
          again t.reads v b.pointer (s.issued j v f) ep (p ∙ ap (λ (c : BufferState). c.pointer) r))
      go j k v w p (kept ne f) (kept ne' g) = later h t.reads j k v (s.shared j k v w f g p)
  Change-HasReadings t u (edit key b c found same e) s = subst (HasReadings h) (sym e) (record {
    issued =
        Every-insert (IsIssued h t.reads) key c t.buffers
          (let (i, old, eb) = s.issued key b found in (i, old, sym same.pointer ∙ eb)) s.issued;
    shared = λ j k v w f g p.
        go j k v w p (lookup-Written key j c v t.buffers f) (lookup-Written key k c w t.buffers g);
  })
    where
      ptr : {v w : BufferState} → v ≡ w → v.pointer ≡ w.pointer
      ptr e = ap (λ (c : BufferState). c.pointer) e

      go :
          (j k : Bytes) (v w : BufferState)
          → v.pointer ≡ w.pointer
          → Written key c t.buffers j v
          → Written key c t.buffers k w
          → OneOrRepeated h t.reads j k v
      go j k v w p (written q r) (written q' r') = inl (q ∙ sym q')
      go j k v w p (written q r) (kept ne g) =
          let old : b.pointer ≡ v.pointer = same.pointer ∙ sym (ptr r) in
          elim (s.shared key k b w found g (old ∙ p)) [
            | inl one ↦ inl (q ∙ one)
            | inr twice ↦ inr (subst (IsRepeated h t.reads) old twice)
          ]
      go j k v w p (kept ne f) (written q r) =
          elim (s.shared j key v b f found (p ∙ ptr r ∙ sym same.pointer)) [
            | inl one ↦ inl (one ∙ sym q)
            | inr twice ↦ inr twice
          ]
      go j k v w p (kept ne f) (kept ne' g) = s.shared j k v w f g p

  pub Changes-HasReadings : {t u : Translator} → Changes h t u → HasReadings h t → HasReadings h u
  Changes-HasReadings here s = s
  Changes-HasReadings (next c d) s = Change-HasReadings _ _ d (Changes-HasReadings c s)

pub HasReadings-new : (h : Host) → HasReadings h new_translator
unfolding lookup
HasReadings-new h = record { issued = λ k b f. cc; shared = λ j k v w f g e. cc }
