-- ===== src/Proto/Encoder.antt =====
-- pkg/weechatproto/encoder.go: `EncodeMessage`. The body is built first; then the length, the
-- compression byte and the body are three writes to the connection, each of which may fail.
use erssi_lith_bridge.Base.{
  ℕ, ◌+◌, ◌%◌, ◌^◌, List, [], ◌∷◌, ◌++◌, Option, none, some, Bytes, Result, ok, err, panic, ◌>>=◌,
  length, ◌==◌, if◌then◌else◌,
}
use erssi_lith_bridge.Proto.Types.{Object, Message, type_of}
use erssi_lith_bridge.Proto.Encode.{
  EncodeError, invalid_type, object_failed, be32, encode_string, encode,
}

-- `fmt.Errorf("failed to encode object type %s: %w", …)`.
unfoldable pub wrap_object : Bytes → Result EncodeError Bytes → Result EncodeError Bytes
wrap_object ty (ok bs) = ok bs
wrap_object ty (err e) = err (object_failed ty e)
wrap_object ty panic = panic

-- One object of the body: its type, which must have three letters, and its data.
unfoldable pub encode_typed : Object → Result EncodeError Bytes
encode_typed o =
    if length (type_of o) == 3
    then (do bs ← wrap_object (type_of o) (encode o); ok (type_of o ++ bs))
    else err (invalid_type (type_of o))

unfoldable pub encode_objects : List Object → Result EncodeError Bytes
encode_objects [] = ok []
encode_objects (o ∷ os) = do bs ← encode_typed o; rest ← encode_objects os; ok (bs ++ rest)

unfoldable pub encode_body : Message → Result EncodeError Bytes
encode_body msg = do rest ← encode_objects msg.objects; ok (encode_string (some msg.id) ++ rest)

-- `uint32(4 + 1 + len(body))`.
unfoldable pub total_length : Bytes → ℕ
total_length body = (4 + 1 + length body) % 2 ^ 32

-- The frame that reaches the client when every write succeeds.
unfoldable pub frame : Message → Result EncodeError Bytes
frame msg = do body ← encode_body msg; ok (be32 (total_length body) ++ (msg.compression ∷ body))

pub data SendError (E : Type 0) : Type 0 where
  body_error : EncodeError → SendError E
  length_error : E → SendError E
  compression_error : E → SendError E
  write_error : E → SendError E

-- The outcome of a method that writes: the value or error, and the connection after it.
abbrev pub Outcome : Type 0 → Type 0 → Type 0
Outcome E W = Result (SendError E) (Unit {0}) × W

-- `write` is the connection's Write: an error or none, and the connection after it.
module _ {E W : Type 0} (write : Bytes → W → Option E × W) where
  unfoldable pub after_write : (E → SendError E) → (W → Outcome E W) → Option E × W → Outcome E W
  after_write fail rest (none, w) = rest w
  after_write fail rest (some e, w) = (err (fail e), w)

  unfoldable pub then_write : (E → SendError E) → Bytes → (W → Outcome E W) → W → Outcome E W
  unfolding after_write
  then_write fail bs rest w = after_write fail rest (write bs w)

  unfoldable pub send_body : Message → Result EncodeError Bytes → W → Outcome E W
  unfolding then_write
  send_body msg (err e) w = (err (body_error e), w)
  send_body msg panic w = (panic, w)
  send_body msg (ok body) w =
      then_write length_error (be32 (total_length body))
        (then_write compression_error (msg.compression ∷ [])
          (then_write write_error body (λ w'. (ok tt, w'))))
        w

  unfoldable pub encode_message : Message → W → Outcome E W
  unfolding send_body
  encode_message msg w = send_body msg (encode_body msg) w
