-- ===== src/Proto/Reliable.antt =====
-- pkg/weechatproto/encoder.go: what a client has read after an `EncodeMessage` that gives no error, and on
-- a connection on which no write has failed.
use erssi_lith_bridge.Base.{
  ℕ, suc, Bool, true, Option-cases, ◌≡◌, refl, [], ◌∷◌, ◌++◌, List, Option, none, some, Bytes, ok,
  inl, inr,
}
use erssi_lith_bridge.Proto.Types.{Message}
use erssi_lith_bridge.Proto.Encode.{be32}
use erssi_lith_bridge.Proto.Encoder.{
  encode_body, total_length, frame, SendError, length_error, compression_error, write_error,
  Outcome, after_write, then_write, send_body, encode_message,
}
use erssi_lith_bridge.Proto.Sending.{IsWriter, Sends, encode_message-frame}
use erssi_lith_bridge.Proto.WireMessage.{read_message}
use erssi_lith_bridge.Proto.Stream.{read_stream, read_stream-append}

module _ {E W : Type 0} (write : Bytes → W → Option E × W) (sent : W → Bytes)
    (writer : IsWriter write sent) where
  pub sent-encode_message :
      (msg : Message) (bs : Bytes) (w : W)
      → frame msg ≡ ok bs
      → (encode_message write msg w).0 ≡ ok tt
      → sent (encode_message write msg w).1 ≡ sent w ++ bs
  sent-encode_message msg bs w e =
      whole (encode_message write msg w) (encode_message-frame write sent writer msg bs w e)
    where
      whole : (o : Outcome E W) → Sends sent w bs o → o.0 ≡ ok tt → sent o.1 ≡ sent w ++ bs
      whole o (inl (good, all)) fine = all
      whole o (inr (x, p, q, bad, split, part)) fine = cc

  -- The client reads one message more.
  pub read_stream-encode_message :
      (n : ℕ) (msg got : Message) (bs : Bytes) (ms : List Message) (w : W)
      → frame msg ≡ ok bs
      → (encode_message write msg w).0 ≡ ok tt
      → read_message bs ≡ some got
      → read_stream n (sent w) ≡ some ms
      → read_stream (suc n) (sent (encode_message write msg w).1) ≡ some (ms ++ (got ∷ []))
  read_stream-encode_message n msg got bs ms w e fine back old =
      rw (sent-encode_message msg bs w e fine) (read_stream-append n (sent w) bs got ms old back)

-- `intact` is whether no write on a connection has failed so far. It is no part of the program.
pub record IsFaultLog {E W : Type 0} (write : Bytes → W → Option E × W) (close : W → W)
    (intact : W → Bool) : Type 0 where
  pub written :
      (bs : Bytes) (w : W)
      → intact (write bs w).1 ≡ true
      → (intact w ≡ true) × ((write bs w).0 ≡ none)
  pub closed : (w : W) → intact (close w) ≡ true → intact w ≡ true

module _ {E W : Type 0} (write : Bytes → W → Option E × W) (close : W → W) (intact : W → Bool)
    (faults : IsFaultLog write close intact) where
  -- Where no write has failed, there is no error, and none had failed before.
  abbrev Succeeds : W → Outcome E W → Type 0
  Succeeds w (r, w') = intact w' ≡ true → (intact w ≡ true) × (r ≡ ok tt)

  then_write-Succeeds :
      (fail : E → SendError E) (bs : Bytes) (rest : W → Outcome E W) (w : W)
      → ((w' : W) → Succeeds w' (rest w'))
      → Succeeds w (then_write write fail bs rest w)
  unfolding then_write after_write
  then_write-Succeeds fail bs rest w later = elim (Option-cases (write bs w).0) [
    | inl good ↦
        rw (then_write, after_write, good)
          λ whole.
            let (first, fine) = later (write bs w).1 whole in ((faults.written bs w first).0, fine)
    | inr (e, bad) ↦
        rw (then_write, after_write, bad) λ whole. let good = (faults.written bs w whole).1 in cc
  ]

  send_body-Succeeds :
      (msg : Message) (body : Bytes) (w : W) → Succeeds w (send_body write msg (ok body) w)
  unfolding send_body
  send_body-Succeeds msg body w =
      then_write-Succeeds length_error (be32 (total_length body)) _ w λ w1.
        then_write-Succeeds compression_error (msg.compression ∷ []) _ w1 λ w2.
          then_write-Succeeds write_error body (λ w3. (ok tt, w3)) w2 λ w3 whole. (whole, refl)

  -- A message whose body can be encoded.
  pub encode_message-Succeeds :
      (msg : Message) (body : Bytes) (w : W)
      → encode_body msg ≡ ok body
      → Succeeds w (encode_message write msg w)
  unfolding encode_message
  encode_message-Succeeds msg body w e = rw (encode_message, e) (send_body-Succeeds msg body w)
