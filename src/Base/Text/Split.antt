-- ===== src/Base/Text/Split.antt =====
-- strings.Split and strings.SplitN(_, _, 2) at a one-byte separator, strings.Join, HasPrefix,
-- Contains and Index.
use Prim.Native.Nat.{ℕ}
use mathlib.Core.Path.{◌≡◌, refl}
use mathlib.Core.Logic.{◌≢◌}
use mathlib.Core.Bool.{Bool, true, false, ◌&&◌, ◌||◌}
use mathlib.Core.List.{List, [], ◌∷◌, ◌++◌}
use mathlib.Core.Option.{Option, none, some}
use native.Mathlib.Omega.{arith}
use erssi_lith_bridge.Base.Results.{Bytes}
use erssi_lith_bridge.Base.Lists.{All}
use erssi_lith_bridge.Base.Tests.{◌==◌, if◌then◌else◌}

-- The byte does not occur in the text.
abbrev pub Lacks : ℕ → Bytes → Type 0
Lacks b = All (λ c. c ≢ b)

module _ (sep : ℕ) where
  -- one more byte in front of the first part
  abbrev pub extend : ℕ → List Bytes → List Bytes
  extend c [] = (c ∷ []) ∷ []
  extend c (p ∷ ps) = (c ∷ p) ∷ ps

  unfoldable pub split : Bytes → List Bytes
  split [] = [] ∷ []
  split (c ∷ s) = let rest = split s in if c == sep then [] ∷ rest else extend c rest

  abbrev pub extend_first : ℕ → Option (Bytes × Bytes) → Option (Bytes × Bytes)
  extend_first c none = none
  extend_first c (some (p, q)) = some (c ∷ p, q)

  -- The parts before and after the first separator.
  unfoldable pub cut : Bytes → Option (Bytes × Bytes)
  cut [] = none
  cut (c ∷ s) = let rest = cut s in if c == sep then some ([], s) else extend_first c rest

  pub split-Lacks : (s : Bytes) → Lacks sep s → split s ≡ s ∷ []
  unfolding split
  split-Lacks [] h = refl
  split-Lacks (c ∷ s) h = ground (arith, split-Lacks s h.1)

  pub split-append : (s t : Bytes) → Lacks sep s → split (s ++ (sep ∷ t)) ≡ s ∷ split t
  unfolding split
  split-append [] t h = ground arith
  split-append (c ∷ s) t h = ground (arith, split-append s t h.1)

  pub cut-Lacks : (s : Bytes) → Lacks sep s → cut s ≡ none
  unfolding cut
  cut-Lacks [] h = refl
  cut-Lacks (c ∷ s) h = ground (arith, cut-Lacks s h.1)

  pub cut-append : (s t : Bytes) → Lacks sep s → cut (s ++ (sep ∷ t)) ≡ some (s, t)
  unfolding cut
  cut-append [] t h = ground arith
  cut-append (c ∷ s) t h = ground (arith, cut-append s t h.1)

-- strings.Join.
unfoldable pub join : List Bytes → Bytes → Bytes
join [] sep = []
join (p ∷ []) sep = p
join (p ∷ q ∷ ps) sep = p ++ (sep ++ join (q ∷ ps) sep)

unfoldable pub has_prefix : Bytes → Bytes → Bool
has_prefix s [] = true
has_prefix [] (d ∷ p) = false
has_prefix (c ∷ s) (d ∷ p) = c == d && has_prefix s p

unfoldable pub contains : Bytes → Bytes → Bool
unfolding has_prefix
contains [] p = has_prefix [] p
contains (c ∷ s) p = has_prefix (c ∷ s) p || contains s p
