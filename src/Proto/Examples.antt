-- ===== src/Proto/Examples.antt =====
-- pkg/weechatproto: the theorems on the relay protocol at concrete messages.
use erssi_lith_bridge.Base.{
  ◌≡◌, refl, sym, Bool, true, false, [], ◌∷◌, ◌++◌, append-nil, Bytes, Option, none, some, ok,
  arith,
}
use erssi_lith_bridge.Base.Int.{pos, uint32}
use erssi_lith_bridge.Base.Text.{codes}
use erssi_lith_bridge.Proto.Types.{Message, int, type_of}
use erssi_lith_bridge.Proto.Encode.{encode, encode_string, encode_bytes, be32}
use erssi_lith_bridge.Proto.Encoder.{
  frame, encode_message, encode_body, total_length, encode_objects, encode_typed, wrap_object,
}
use erssi_lith_bridge.Proto.WireMessage.{read_message}
use erssi_lith_bridge.Proto.Sending.{IsWriter, Sends, encode_message-frame}
use erssi_lith_bridge.Proto.RoundTrip.Messages.{read_message-frame}

abbrev small_message : Message
small_message = record { id = codes "x"; compression = 0; objects = int (pos 258) ∷ [] }

-- its body: the identifier, the type of the object and the object
abbrev small_body : Bytes
small_body = 0 ∷ 0 ∷ 0 ∷ 1 ∷ b'x' ∷ b'i' ∷ b'n' ∷ b't' ∷ 0 ∷ 0 ∷ 1 ∷ 2 ∷ []

small_body_lem : encode_body small_message ≡ ok small_body
unfolding encode_body encode_objects encode_typed wrap_object type_of encode encode_string
    encode_bytes be32 uint32
small_body_lem = refl

read_message-frame_example :
    (bs : Bytes) × (frame small_message ≡ ok bs) × (read_message bs ≡ some small_message)
read_message-frame_example =
    read_message-frame small_message (int (pos 258) ∷ []) small_body (omega arith)
      ((refl, omega arith), tt) small_body_lem (omega arith)

small_frame_lem : frame small_message ≡ ok (be32 17 ++ (0 ∷ small_body))
unfolding frame encode_body encode_objects encode_typed wrap_object type_of encode encode_string
    encode_bytes be32 uint32 total_length
small_frame_lem = refl

-- a connection that breaks after its first write
abbrev write_once : Bytes → Bool × Bytes → Option (Unit {0}) × (Bool × Bytes)
write_once bs (true, w) = (none, (false, w ++ bs))
write_once bs (false, w) = (some tt, (false, w))

abbrev sent_once : Bool × Bytes → Bytes
sent_once (up, w) = w

write_once-IsWriter : IsWriter write_once sent_once
write_once-IsWriter = record { whole = whole; part = part }
  where
    whole :
        (bs : Bytes) (w : Bool × Bytes)
        → (write_once bs w).0 ≡ none
        → sent_once (write_once bs w).1 ≡ sent_once w ++ bs
    whole bs (true, w) e = refl
    whole bs (false, w) e = cc

    part :
        (bs : Bytes) (w : Bool × Bytes) (e : Unit {0})
        → (write_once bs w).0 ≡ some e
        → (p : Bytes) × (q : Bytes) × (bs ≡ p ++ q)
          × (sent_once (write_once bs w).1 ≡ sent_once w ++ p)
    part bs (true, w) e bad = cc
    part bs (false, w) e bad = ([], bs, refl, sym (append-nil w))

encode_message-frame_example :
    Sends sent_once
      (true, [])
      (be32 17 ++ (0 ∷ small_body))
      (encode_message write_once small_message (true, []))
encode_message-frame_example =
    encode_message-frame write_once sent_once write_once-IsWriter small_message
      (be32 17 ++ (0 ∷ small_body)) (true, []) small_frame_lem
