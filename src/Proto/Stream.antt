-- ===== src/Proto/Stream.antt =====
-- The WeeChat relay format, as a client reads it: the messages of a connection, one behind the other.
-- This follows the format, not code of the repository.
use erssi_lith_bridge.Base.{
  ℕ, zero, suc, ◌+◌, ◌*◌, ◌^◌, ◌≡◌, sym, ap, ◌∙◌, true, List, [], ◌∷◌, ◌++◌, Option, none, some,
  Bytes, length, take, drop, ◌==◌, and_then, and_then-some, take-append-drop, append_assoc,
  append-nil, take-append, drop-append, Bool-cases, inl, inr, arith,
}
use erssi_lith_bridge.Proto.Types.{Message}
use erssi_lith_bridge.Proto.Wire.{read_be32}
use erssi_lith_bridge.Proto.WireMessage.{read_message}

-- The first frame, by its length, and what follows it.
unfoldable pub cut_frame : Bytes → Option (Bytes × Bytes)
cut_frame s = and_then (read_be32 s) λ n. some (take n.0 s, drop n.0 s)

-- All messages; each takes a unit of fuel.
unfoldable pub read_stream : ℕ → Bytes → Option (List Message)
unfolding cut_frame
read_stream fuel [] = some []
read_stream zero (c ∷ s) = none
read_stream (suc fuel) (c ∷ s) =
    and_then (cut_frame (c ∷ s))
      λ f. and_then (read_message f.0) λ m. and_then (read_stream fuel f.1) λ ms. some (m ∷ ms)

take_whole :
    (n : ℕ) (bs rest : Bytes)
    → n ≡ length bs
    → ◌≡◌ {A = Option (Bytes × Bytes)}
        (some (take n (bs ++ rest), drop n (bs ++ rest)))
        (some (bs, rest))
take_whole n bs rest e =
    rw e (ap (λ (p : Bytes × Bytes). some p) (λ i. (take-append bs rest i, drop-append bs rest i)))

-- A frame that is a message says its own length.
cut_frame-append :
    (bs rest : Bytes) (m : Message)
    → read_message bs ≡ some m
    → cut_frame (bs ++ rest) ≡ some (bs, rest)
unfolding cut_frame read_message read_be32
cut_frame-append [] rest m e = cc
cut_frame-append (a ∷ []) rest m e = cc
cut_frame-append (a ∷ b ∷ []) rest m e = cc
cut_frame-append (a ∷ b ∷ c ∷ []) rest m e = cc
cut_frame-append (a ∷ b ∷ c ∷ d ∷ s) rest m e =
    let size = a * 2 ^ 24 + b * 2 ^ 16 + c * 2 ^ 8 + d in
    elim (Bool-cases (size == length (a ∷ b ∷ c ∷ d ∷ s))) [
      | inl whole ↦ take_whole size (a ∷ b ∷ c ∷ d ∷ s) rest (eq_of size _ whole)
      | inr torn ↦ let bad : none ≡ some m = rw torn at e in cc
    ]
  where
    eq_of : (m n : ℕ) → (m == n) ≡ true → m ≡ n
    eq_of m n h = ground arith

read_stream_first :
    (bs rest : Bytes) (m : Message) (n : ℕ)
    → read_message bs ≡ some m
    → read_stream (suc n) (bs ++ rest) ≡ and_then (read_stream n rest) (λ ms. some (m ∷ ms))
unfolding read_stream
read_stream_first [] rest m n e = unfold read_message read_be32 in cc
read_stream_first (c ∷ s) rest m n e = rw (cut_frame-append (c ∷ s) rest m e, e)

cut_frame-parts : (s : Bytes) (f : Bytes × Bytes) → cut_frame s ≡ some f → f.0 ++ f.1 ≡ s
unfolding cut_frame
cut_frame-parts s f e =
    let (n, size, r) = and_then-some (read_be32 s) _ e in
    let same : (take n.0 s, drop n.0 s) ≡ f = cc in
    ap (λ (p : Bytes × Bytes). p.0 ++ p.1) (sym same) ∙ take-append-drop n.0 s

-- The messages that were read first, and the one behind them.
pub read_stream-append :
    (n : ℕ) (s bs : Bytes) (m : Message) (ms : List Message)
    → read_stream n s ≡ some ms
    → read_message bs ≡ some m
    → read_stream (suc n) (s ++ bs) ≡ some (ms ++ (m ∷ []))
unfolding read_stream
read_stream-append n [] bs m ms old e =
    let none_yet : [] ≡ ms = cc in
    let whole : bs ++ [] ≡ bs = append-nil bs in
    let first = read_stream_first bs [] m n e in
    ap (read_stream (suc n)) (sym whole) ∙ first ∙ ap (λ l. some (l ++ (m ∷ []))) none_yet
read_stream-append zero (c ∷ s) bs m ms old e = cc
read_stream-append (suc n) (c ∷ s) bs m ms old e =
    let (f, cut, r) = and_then-some (cut_frame (c ∷ s)) _ old in
    let (m0, read, r') = and_then-some (read_message f.0) _ r in
    let (ms0, others, r'') = and_then-some (read_stream n f.1) _ r' in
    let same : m0 ∷ ms0 ≡ ms = cc in
    let later = read_stream-append n f.1 bs m ms0 others e in
    ap (λ t. read_stream (suc (suc n)) (t ++ bs)) (sym (cut_frame-parts (c ∷ s) f cut))
    ∙ ap (read_stream (suc (suc n))) (append_assoc f.0 f.1 bs)
    ∙ read_stream_first f.0 (f.1 ++ bs) m0 (suc n) read
    ∙ ap (λ o. and_then o (λ l. some (m0 ∷ l))) later
    ∙ ap (λ l. some (l ++ (m ∷ []))) same
