-- ===== src/Base/Assoc/Distinct.antt =====
-- Maps whose values carry a stamp, such as a number or a pointer, that no two keys share.
use mathlib.Core.Path.{◌≡◌, refl, sym, ap, ◌∙◌, subst}
use Prim.Native.Nat.{suc}
use erssi_lith_bridge.Base.Lists.{length}
use mathlib.Core.Logic.{◌≢◌, inl, inr}
use mathlib.Core.List.{List, [], ◌∷◌}
use mathlib.Core.Option.{none, some}
use erssi_lith_bridge.Base.Results.{Bytes}
use erssi_lith_bridge.Base.Tests.{Bool-cases}
use erssi_lith_bridge.Base.Text.{str_eq, str_eq_iff, str_eq_refl}
use erssi_lith_bridge.Base.Assoc.{lookup, insert, lookup-insert}

-- What a lookup finds after a write: the value written, at the key, or an old value elsewhere.
pub data Written {ℓ} {V : Type ℓ} (k : Bytes) (v : V) (m : List (Bytes × V)) (j : Bytes) (w : V)
    : Type ℓ where
  written : j ≡ k → w ≡ v → Written k v m j w
  kept : k ≢ j → lookup j m ≡ some w → Written k v m j w

module _ {ℓ} {V : Type ℓ} where
  pub lookup-Written :
      (k j : Bytes) (v w : V) (m : List (Bytes × V))
      → lookup j (insert k v m) ≡ some w
      → Written k v m j w
  lookup-Written k j v w m e = elim (Bool-cases (str_eq k j)) [
    | inl same ↦
        let e' : some v ≡ some w = sym (lookup-insert k j v m ∙ rw same refl) ∙ e in
        written (sym ((str_eq_iff k j).0 same)) cc
    | inr other ↦
        kept (λ p. cc (other, (str_eq_iff k j).1 p))
          (sym (lookup-insert k j v m ∙ rw other refl) ∙ e)
  ]

  pub lookup-insert_self :
      (k : Bytes) (v : V) (m : List (Bytes × V)) → lookup k (insert k v m) ≡ some v
  lookup-insert_self k v m = lookup-insert k k v m ∙ rw (str_eq_refl k) refl

module _ {ℓ κ} {V : Type ℓ} {S : Type κ} (stamp : V → S) where
  abbrev pub Distinct : List (Bytes × V) → Type (ℓ ⊔ κ)
  Distinct m =
      (j k : Bytes) (v w : V)
      → lookup j m ≡ some v
      → lookup k m ≡ some w
      → stamp v ≡ stamp w
      → j ≡ k

  -- The stamp of a new value that no old value has.
  pub Distinct-insert_new :
      (k : Bytes) (v : V) (m : List (Bytes × V))
      → Distinct m
      → ((j : Bytes) (w : V) → lookup j m ≡ some w → stamp w ≢ stamp v)
      → Distinct (insert k v m)
  Distinct-insert_new k v m d fresh i j a b ea eb e =
      go (lookup-Written k i v a m ea) (lookup-Written k j v b m eb)
    where
      go : Written k v m i a → Written k v m j b → i ≡ j
      go (written p q) (written p' q') = p ∙ sym p'
      go (written p q) (kept ne f) = absurd (fresh j b f (sym e ∙ λ x. stamp (q x)))
      go (kept ne f) (written p q) = absurd (fresh i a f (e ∙ λ x. stamp (q x)))
      go (kept ne f) (kept ne' f') = d i j a b f f' e

  -- A value is replaced by one with its stamp.
  pub Distinct-insert_same :
      (k : Bytes) (u v : V) (m : List (Bytes × V))
      → Distinct m
      → lookup k m ≡ some u
      → stamp u ≡ stamp v
      → Distinct (insert k v m)
  Distinct-insert_same k u v m d eu s i j a b ea eb e =
      go (lookup-Written k i v a m ea) (lookup-Written k j v b m eb)
    where
      go : Written k v m i a → Written k v m j b → i ≡ j
      go (written p q) (written p' q') = p ∙ sym p'
      go (written p q) (kept ne f) = p ∙ d k j u b eu f (s ∙ (λ x. stamp (sym q x)) ∙ e)
      go (kept ne f) (written p q) = d i k a u f eu (e ∙ (λ x. stamp (q x)) ∙ sym s) ∙ sym p
      go (kept ne f) (kept ne' f') = d i j a b f f' e

module _ {ℓ μ} {V : Type ℓ} (P : V → Type μ) where
  -- What holds of every value holds after a value that has it is written.
  pub Every-insert :
      (k : Bytes) (v : V) (m : List (Bytes × V))
      → P v
      → ((j : Bytes) (w : V) → lookup j m ≡ some w → P w)
      → (j : Bytes) (w : V) → lookup j (insert k v m) ≡ some w
      → P w
  Every-insert k v m p all j w e = elim (lookup-Written k j v w m e) [
    | written _ q ↦ subst P (sym q) p
    | kept _ f ↦ all j w f
  ]

module _ {ℓ} {V : Type ℓ} where
  -- A write at a new key adds one entry, and any other write adds none.
  pub length-insert_new :
      (k : Bytes) (v : V) (m : List (Bytes × V))
      → lookup k m ≡ none
      → length (insert k v m) ≡ suc (length m)
  unfolding insert lookup
  length-insert_new k v [] e = refl
  length-insert_new k v ((j, w) ∷ m) e = elim (Bool-cases (str_eq j k)) [
    | inl same ↦ let e' : some w ≡ none = rw same at e in cc
    | inr other ↦
        let e' : lookup k m ≡ none = rw other at e in rw other (ap suc (length-insert_new k v m e'))
  ]

  pub length-insert_old :
      (k : Bytes) (u v : V) (m : List (Bytes × V))
      → lookup k m ≡ some u
      → length (insert k v m) ≡ length m
  unfolding insert lookup
  length-insert_old k u v [] e = cc
  length-insert_old k u v ((j, w) ∷ m) e = elim (Bool-cases (str_eq j k)) [
    | inl same ↦ rw same
    | inr other ↦
        let e' : lookup k m ≡ some u = rw other at e in
        rw other (ap suc (length-insert_old k u v m e'))
  ]
