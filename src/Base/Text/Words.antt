-- ===== src/Base/Text/Words.antt =====
-- strings.Fields undoes strings.Join with single blanks, on words that hold no white space.
use mathlib.Core.Path.{◌≡◌, refl, sym, ◌∙◌, ap}
use mathlib.Core.Logic.{◌≢◌, ◌⊎◌, inl, inr}
use mathlib.Core.Bool.{false}
use mathlib.Core.List.{List, [], ◌∷◌, ◌++◌, append-nil}
use Prim.Native.Nat.{ℕ}
use native.Mathlib.Omega.{arith}
use erssi_lith_bridge.Base.Results.{Bytes}
use erssi_lith_bridge.Base.Lists.{All}
use erssi_lith_bridge.Base.Text.Split.{join}
use erssi_lith_bridge.Base.Text.Compare.{codes}
use erssi_lith_bridge.Base.Text.Fields.{
  front, space_width, close, words, fields, trim_left, no_words, trim_right, trim_space,
  IsPlainText, IsWord,
}

-- What can follow a word.
abbrev Delimited : Bytes → Type 0
Delimited t = (front t ≡ 0) ⊎ (front t ≡ b' ')

space_width-append :
    (c : ℕ) (s t : Bytes) → Delimited t → space_width (c ∷ s) ≡ 0 → space_width (c ∷ (s ++ t)) ≡ 0
unfolding space_width
space_width-append c [] t d h = ground arith
space_width-append c (x ∷ []) t d h = ground arith
space_width-append c (x ∷ y ∷ s) t d h = h

words_step :
    (c : ℕ) (s : Bytes)
    → space_width (c ∷ s) ≡ 0
    → words 0 (c ∷ s) ≡ (c ∷ (words 0 s).0, (words 0 s).1)
unfolding words
words_step c s h = rw (words, h)

words-append :
    (w t : Bytes)
    → Delimited t
    → IsPlainText w
    → words 0 (w ++ t) ≡ (w ++ (words 0 t).0, (words 0 t).1)
words-append [] t d h = refl
words-append (c ∷ w) t d h =
    words_step c (w ++ t) (space_width-append c w t d h.0) ∙ rw (words-append w t d h.1) refl

words_blank : (t : Bytes) → words 0 (b' ' ∷ t) ≡ ([], fields t)
unfolding words fields
words_blank t = refl

fields_words : (s : Bytes) → fields s ≡ close (words 0 s)
unfolding fields
fields_words s = refl

close_word : (w : Bytes) (ws : List Bytes) → w ≢ [] → close (w, ws) ≡ w ∷ ws
close_word [] ws h = absurd (h refl)
close_word (c ∷ w) ws h = refl

fields_last : (w : Bytes) → IsWord w → fields w ≡ w ∷ []
fields_last w h =
    fields_words w
    ∙ ap (λ v. close (words 0 v)) (sym (append-nil w))
    ∙ ap close (words-append w [] (inl refl) h.1)
    ∙ unfold words in rw append-nil (close_word w [] h.0)

pub fields-append : (w t : Bytes) → IsWord w → fields (w ++ (b' ' ∷ t)) ≡ w ∷ fields t
fields-append w t h =
    fields_words (w ++ (b' ' ∷ t))
    ∙ ap close (words-append w (b' ' ∷ t) (inr refl) h.1)
    ∙ rw (words_blank t, append-nil) (close_word w (fields t) h.0)

pub fields-join :
    (w : Bytes) (ws : List Bytes)
    → All IsWord (w ∷ ws)
    → fields (join (w ∷ ws) (codes " ")) ≡ w ∷ ws
unfolding join
fields-join w [] h = fields_last w h.0
fields-join w (v ∷ ws) h =
    fields-append w (join (v ∷ ws) (codes " ")) h.0 ∙ ap (λ r. w ∷ r) (fields-join v ws h.1)

fields_blank : (t : Bytes) → fields (b' ' ∷ t) ≡ fields t
unfolding fields
fields_blank t = refl

-- A text that is not blank at any place is not trimmed.
abbrev IsFilled : Bytes → Type 0
IsFilled [] = Unit
IsFilled (c ∷ s) = (no_words (fields (c ∷ s)) ≡ false) × IsFilled s

trim_right-IsFilled : (s : Bytes) → IsFilled s → trim_right s ≡ s
unfolding trim_right
trim_right-IsFilled [] h = refl
trim_right-IsFilled (c ∷ s) h = let rest = trim_right-IsFilled s h.1 in rw (h.0, rest)

starts_filled :
    (c : ℕ) (s t : Bytes)
    → Delimited t
    → IsPlainText (c ∷ s)
    → no_words (fields ((c ∷ s) ++ t)) ≡ false
starts_filled c s t d h =
    ap no_words (fields_words ((c ∷ s) ++ t) ∙ ap close (words-append (c ∷ s) t d h))

append-IsFilled : (w t : Bytes) → Delimited t → IsPlainText w → IsFilled t → IsFilled (w ++ t)
append-IsFilled [] t d h f = f
append-IsFilled (c ∷ w) t d h f = (starts_filled c w t d h, append-IsFilled w t d h.1 f)

join-IsFilled :
    (w : Bytes) (ws : List Bytes) → All IsWord (w ∷ ws) → IsFilled (join (w ∷ ws) (codes " "))
unfolding join
join-IsFilled w [] h = rw append-nil at (append-IsFilled w [] (inl refl) h.0.1 tt)
join-IsFilled w (v ∷ ws) h =
    append-IsFilled w (b' ' ∷ join (v ∷ ws) (codes " ")) (inr refl) h.0.1
      (ap no_words (fields_blank _ ∙ fields-join v ws h.1), join-IsFilled v ws h.1)

trim_left_stays :
    (c : ℕ) (s t : Bytes)
    → Delimited t
    → space_width (c ∷ s) ≡ 0
    → trim_left 0 (b' ' ∷ c ∷ (s ++ t)) ≡ c ∷ (s ++ t)
unfolding trim_left
trim_left_stays c s t d h = let width = space_width-append c s t d h in rw (trim_left, width)

trim_left-append : (w t : Bytes) → Delimited t → IsWord w → trim_left 0 (b' ' ∷ (w ++ t)) ≡ w ++ t
trim_left-append [] t d h = absurd (h.0 refl)
trim_left-append (c ∷ w) t d h = trim_left_stays c w t d h.1.0

trim_left-join :
    (w : Bytes) (ws : List Bytes)
    → All IsWord (w ∷ ws)
    → trim_left 0 (b' ' ∷ join (w ∷ ws) (codes " ")) ≡ join (w ∷ ws) (codes " ")
unfolding join
trim_left-join w [] h = rw append-nil at (trim_left-append w [] (inl refl) h.0)
trim_left-join w (v ∷ ws) h = trim_left-append w (b' ' ∷ join (v ∷ ws) (codes " ")) (inr refl) h.0

pub trim_space-join :
    (w : Bytes) (ws : List Bytes)
    → All IsWord (w ∷ ws)
    → trim_space (b' ' ∷ join (w ∷ ws) (codes " ")) ≡ join (w ∷ ws) (codes " ")
unfolding trim_space
trim_space-join w ws h =
    ap trim_right (trim_left-join w ws h)
    ∙ trim_right-IsFilled (join (w ∷ ws) (codes " ")) (join-IsFilled w ws h)
