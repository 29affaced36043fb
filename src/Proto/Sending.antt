-- ===== src/Proto/Sending.antt =====
-- pkg/weechatproto/encoder.go: what `EncodeMessage` leaves on a connection whose writes may fail.
use erssi_lith_bridge.Base.{
  ◌≡◌, ◌≢◌, refl, sym, ap, ◌∙◌, ◌⊎◌, inl, inr, [], ◌∷◌, ◌++◌, append_assoc, append-nil, Option,
  none, some, Bytes, Result, ok, err, panic, Option-cases, ◌>>=◌,
}
use erssi_lith_bridge.Proto.Types.{Message}
use erssi_lith_bridge.Proto.Encode.{EncodeError, be32}
use erssi_lith_bridge.Proto.Encoder.{
  encode_body, total_length, frame, SendError, length_error, compression_error, write_error,
  Outcome, after_write, then_write, send_body, encode_message,
}

-- `sent` is all that was written to a connection. A write that gives no error has written all its
-- bytes, as io.Writer says; one that gives an error has written a part of them.
pub record IsWriter {E W : Type 0} (write : Bytes → W → Option E × W) (sent : W → Bytes)
    : Type 0 where
  pub whole : (bs : Bytes) (w : W) → (write bs w).0 ≡ none → sent (write bs w).1 ≡ sent w ++ bs
  pub part :
      (bs : Bytes) (w : W) (e : E)
      → (write bs w).0 ≡ some e
      → (p : Bytes) × (q : Bytes) × (bs ≡ p ++ q) × (sent (write bs w).1 ≡ sent w ++ p)

-- All the bytes were sent and there is no error, or a part of them was and there is one.
abbrev pub Sends : {E W : Type 0} → (W → Bytes) → W → Bytes → Outcome E W → Type 0
Sends {E} sent w bs (r, w') =
    (r ≡ ok tt) × (sent w' ≡ sent w ++ bs)
    ⊎ ((e : SendError E) × (p : Bytes) × (q : Bytes) × (r ≡ err e)
        × (bs ≡ p ++ q)
        × (sent w' ≡ sent w ++ p))

-- What was sent before is sent as well.
Sends-behind :
    {E W : Type 0} (sent : W → Bytes) (w w' : W) (bs cs : Bytes) (r : Outcome E W)
    → sent w' ≡ sent w ++ bs
    → Sends sent w' cs r
    → Sends sent w (bs ++ cs) r
Sends-behind sent w w' bs cs r e (inl (good, all)) =
    inl (good, all ∙ ap (λ t. t ++ cs) e ∙ append_assoc (sent w) bs cs)
Sends-behind sent w w' bs cs r e (inr (x, p, q, bad, split, some_of)) = inr (
  x,
  bs ++ p,
  q,
  bad,
  ap (λ t. bs ++ t) split ∙ sym (append_assoc bs p q),
  some_of ∙ ap (λ t. t ++ p) e ∙ append_assoc (sent w) bs p,
)

module _ {E W : Type 0} (write : Bytes → W → Option E × W) (sent : W → Bytes)
    (writer : IsWriter write sent) where
  then_write-Sends :
      (fail : E → SendError E) (bs cs : Bytes) (rest : W → Outcome E W) (w : W)
      → ((w' : W) → Sends sent w' cs (rest w'))
      → Sends sent w (bs ++ cs) (then_write write fail bs rest w)
  unfolding then_write after_write
  then_write-Sends fail bs cs rest w later = elim (Option-cases (write bs w).0) [
    | inl good ↦
        rw (then_write, after_write, good)
          (Sends-behind sent w (write bs w).1 bs cs (rest (write bs w).1) (writer.whole bs w good)
            (later (write bs w).1))
    | inr (e, bad) ↦
        let (p, q, split, part) = writer.part bs w e bad in
        rw (then_write, after_write, bad)
          (inr (fail e, p, q ++ cs, refl, ap (λ t. t ++ cs) split ∙ append_assoc p q cs, part))
  ]

  sent_nothing : (w : W) → Sends {E = E} sent w [] (ok tt, w)
  sent_nothing w = inl (refl, sym (append-nil (sent w)))

  body-Sends :
      (msg : Message) (body : Bytes) (w : W)
      → Sends sent w
          (be32 (total_length body) ++ (msg.compression ∷ body))
          (send_body write msg (ok body) w)
  unfolding send_body
  body-Sends msg body w =
      then_write-Sends length_error (be32 (total_length body)) (msg.compression ∷ body) _ w λ w1.
        then_write-Sends compression_error (msg.compression ∷ []) body _ w1 λ w2.
          rw append-nil at
            (then_write-Sends write_error body [] (λ w3. (ok tt, w3)) w2 sent_nothing)

  -- A message with a frame is sent whole, and then there is no error; or a write fails, and then the
  -- error is given and the bytes sent are the front of the frame.
  pub encode_message-frame :
      (msg : Message) (bs : Bytes) (w : W)
      → frame msg ≡ ok bs
      → Sends sent w bs (encode_message write msg w)
  unfolding encode_message frame
  encode_message-frame msg bs w e = by_body (encode_body msg) e
    where
      by_body :
          (r : Result EncodeError Bytes)
          → (r >>= λ body. ok (be32 (total_length body) ++ (msg.compression ∷ body))) ≡ ok bs
          → Sends sent w bs (send_body write msg r w)
      by_body (ok body) e =
          let same : be32 (total_length body) ++ (msg.compression ∷ body) ≡ bs = cc in
          rw same at (body-Sends msg body w)
      by_body (err x) e = cc
      by_body panic e = cc

module _ {E W : Type 0} (write : Bytes → W → Option E × W) where
  then_write-ne-panic :
      (fail : E → SendError E) (bs : Bytes) (rest : W → Outcome E W) (w : W)
      → ((w' : W) → (rest w').0 ≢ panic)
      → (then_write write fail bs rest w).0 ≢ panic
  unfolding then_write after_write
  then_write-ne-panic fail bs rest w later = elim (Option-cases (write bs w).0) [
    | inl good ↦ rw (then_write, after_write, good) (later (write bs w).1)
    | inr (e, bad) ↦ rw (then_write, after_write, bad) (λ p. cc)
  ]

  -- A message with a frame is sent without a panic, whatever its writes do.
  pub encode_message-ne-panic :
      (msg : Message) (bs : Bytes) (w : W)
      → frame msg ≡ ok bs
      → (encode_message write msg w).0 ≢ panic
  unfolding encode_message frame
  encode_message-ne-panic msg bs w e = by_body (encode_body msg) e
    where
      by_body :
          (r : Result EncodeError Bytes)
          → (r >>= λ body. ok (be32 (total_length body) ++ (msg.compression ∷ body))) ≡ ok bs
          → (send_body write msg r w).0 ≢ panic
      by_body (ok body) e =
          unfold send_body in
          then_write-ne-panic length_error (be32 (total_length body)) _ w λ w1.
            then_write-ne-panic compression_error (msg.compression ∷ []) _ w1
              λ w2. then_write-ne-panic write_error body (λ w3. (ok tt, w3)) w2 (λ w3 p. cc)
      by_body (err x) e = cc
      by_body panic e = cc
