-- ===== src/Base/Assoc.antt =====
-- Go maps keyed by strings: an entry keeps its place when it is written again. Go leaves the order
-- of a map open, so a caller that ranges over a map is given the entries in any order.
pub mod Distinct
use mathlib.Core.Path.{◌≡◌, refl, subst}
use mathlib.Core.Logic.{inl, inr}
use mathlib.Core.List.{List, [], ◌∷◌}
use mathlib.Core.Option.{Option, none, some}
use native.Mathlib.Omega.{arith}
use erssi_lith_bridge.Base.Results.{Bytes}
use erssi_lith_bridge.Base.Lists.{All}
use erssi_lith_bridge.Base.Tests.{if◌then◌else◌, Bool-cases}
use erssi_lith_bridge.Base.Text.{str_eq, str_eq_iff}

module _ {ℓ} {V : Type ℓ} where
  unfoldable pub lookup : Bytes → List (Bytes × V) → Option V
  lookup k [] = none
  lookup k ((j, v) ∷ m) = if str_eq j k then some v else lookup k m

  unfoldable pub insert : Bytes → V → List (Bytes × V) → List (Bytes × V)
  insert k v [] = (k, v) ∷ []
  insert k v ((j, w) ∷ m) = if str_eq j k then (j, v) ∷ m else (j, w) ∷ insert k v m

  pub lookup-insert :
      (k j : Bytes) (v : V) (m : List (Bytes × V))
      → lookup j (insert k v m) ≡ (if str_eq k j then some v else lookup j m)
  unfolding lookup insert
  lookup-insert k j v [] = refl
  lookup-insert k j v ((i, w) ∷ m) =
      ground (arith, str_eq_iff k j, str_eq_iff i k, str_eq_iff i j, lookup-insert k j v m)

  -- A property of every entry survives a write of an entry that has it.
  pub All-insert {κ} :
      (P : Bytes × V → Type κ) (k : Bytes) (v : V) (m : List (Bytes × V))
      → P (k, v)
      → All P m
      → All P (insert k v m)
  unfolding insert
  All-insert P k v [] p a = (p, tt)
  All-insert P k v ((j, w) ∷ m) p a = elim (Bool-cases (str_eq j k)) [
    | inl same ↦ rw same (rw ((str_eq_iff j k).0 same) p, a.1)
    | inr other ↦ rw other (a.0, All-insert P k v m p a.1)
  ]

  pub All-lookup {κ} :
      (P : Bytes × V → Type κ) (k : Bytes) (v : V) (m : List (Bytes × V))
      → All P m
      → lookup k m ≡ some v
      → P (k, v)
  unfolding lookup
  All-lookup P k v [] a e = cc
  All-lookup P k v ((j, w) ∷ m) a e = elim (Bool-cases (str_eq j k)) [
    | inl same ↦
        let ek : j ≡ k = (str_eq_iff j k).0 same in
        let e' : some w ≡ some v = rw same at e in
        let ev : w ≡ v = cc in subst P (λ i. (ek i, ev i)) a.0
    | inr other ↦ All-lookup P k v m a.1 (rw other at e)
  ]
