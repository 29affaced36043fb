-- ===== src/Proto/RoundTrip/Messages.antt =====
-- Whole messages: the body can be encoded, and a client reads the frame back.
use erssi_lith_bridge.Base.{
  ℕ, zero, suc, ◌+◌, ◌%◌, ◌^◌, ◌≤◌, ◌<◌, ◌≡◌, refl, sym, true, List, [], ◌∷◌, ◌++◌, append_assoc,
  length-append, some, Bytes, ok, length, arith, and_then, ◌==◌,
}
use erssi_lith_bridge.Proto.Types.{Object, chr, hda, Items, Message, type_of}
use erssi_lith_bridge.Proto.Encode.{be32, encode, encode_string}
use erssi_lith_bridge.Proto.Encoder.{
  encode_typed, encode_objects, encode_body, wrap_object, total_length, frame,
}
use erssi_lith_bridge.Proto.Wire.{read_exact, read_byte}
use erssi_lith_bridge.Proto.WireMessage.{
  read_object, read_typed, read_objects, read_body, read_message,
}
use erssi_lith_bridge.Proto.RoundTrip.Plain.{
  IsText, read_be32-be32, read_exact-append, read_text-encode_string,
}
use erssi_lith_bridge.Proto.RoundTrip.Objects.{tag, IsPlain, tag_of-type_of, read_plain-encode}
use erssi_lith_bridge.Proto.RoundTrip.Hdata.{IsHdata, read_hdata-encode}

-- A client that is sent the first object reads the second: the same, but for the order in which
-- the fields of hdata are found.
abbrev pub ReadsAs : Object → Object → Type 0
ReadsAs (hda path keys n is) o =
    (out : Items) × (o ≡ hda path keys n out) × IsHdata path keys n is out
ReadsAs p o = (o ≡ p) × IsPlain p

read_plain_object :
    (p o : Object) (s : Bytes)
    → o ≡ p
    → IsPlain p
    → (bs : Bytes) × (encode p ≡ ok bs) × (read_object (tag p) (bs ++ s) ≡ some (o, s))
unfolding read_object
read_plain_object (hda path keys n is) o s e h = absurd h
read_plain_object p o s e h = let (bs, w, back) = read_plain-encode p s h in (bs, w, rw e back)

read_object-encode :
    (p o : Object) (s : Bytes)
    → ReadsAs p o
    → (bs : Bytes) × (encode p ≡ ok bs) × (read_object (tag p) (bs ++ s) ≡ some (o, s))
read_object-encode (hda path keys n is) o s (out, e, h) =
    let (bs, w, back) = read_hdata-encode path keys is out s n h in
    (bs, w, unfold read_object in rw e back)
read_object-encode p o s h = read_plain_object p o s h.0 h.1

pub length-type_of : (o : Object) → length (type_of o) ≡ 3
unfolding type_of
length-type_of (chr b) = refl
length-type_of _ = refl

typed_letters : (o : Object) → (length (type_of o) == 3) ≡ true
typed_letters o = rw length-type_of

read_typed-encode_typed :
    (p o : Object) (s : Bytes)
    → ReadsAs p o
    → (bs : Bytes) × (encode_typed p ≡ ok bs)
      × (1 ≤ length bs)
      × (read_typed (bs ++ s) ≡ some (o, s))
unfolding encode_typed read_typed
read_typed-encode_typed p o s h =
    let (bs, w, back) = read_object-encode p o s h in
    (
      type_of p ++ bs,
      rw (typed_letters p, w) (unfold wrap_object in refl),
      omega (arith, length-append (type_of p) bs, length-type_of p),
      rw (
        append_assoc,
        read_exact-append 3 (type_of p) (bs ++ s) (sym (length-type_of p)),
        tag_of-type_of p,
        back,
      ),
    )

abbrev pub AllReadAs : List Object → List Object → Type 0
AllReadAs [] [] = Unit
AllReadAs [] (o ∷ os) = ⊥
AllReadAs (p ∷ ps) [] = ⊥
AllReadAs (p ∷ ps) (o ∷ os) = ReadsAs p o × AllReadAs ps os

objects_step :
    (fuel : ℕ) (s r : Bytes) (o : Object)
    → read_typed s ≡ some (o, r)
    → read_objects (suc fuel) s ≡ and_then (read_objects fuel r) (λ os. some (o ∷ os))
unfolding read_objects
objects_step fuel [] r o h = unfold read_typed read_exact in cc h
objects_step fuel (c ∷ s) r o h = rw h

one_more :
    (fuel k : ℕ) (s r : Bytes) (o : Object) (os : List Object)
    → read_typed s ≡ some (o, r)
    → suc k ≤ fuel
    → ((f : ℕ) → k ≤ f → read_objects f r ≡ some os)
    → read_objects fuel s ≡ some (o ∷ os)
one_more zero k s r o os h e enough = absurd (omega arith)
one_more (suc fuel) k s r o os h e enough =
    rw (objects_step fuel s r o h, enough fuel (omega arith))

-- Any fuel that the objects do not exceed is enough to read them.
pub read_objects-encode_objects :
    (ps os : List Object)
    → AllReadAs ps os
    → (bs : Bytes) × (encode_objects ps ≡ ok bs)
      × (length ps ≤ length bs)
      × ((fuel : ℕ) → length ps ≤ fuel → read_objects fuel bs ≡ some os)
unfolding encode_objects
read_objects-encode_objects [] [] h = ([], refl, omega arith, λ fuel e. unfold read_objects in refl)
read_objects-encode_objects [] (o ∷ os) h = absurd h
read_objects-encode_objects (p ∷ ps) [] h = absurd h
read_objects-encode_objects (p ∷ ps) (o ∷ os) (h, hs) =
    let (rest, ws, long, backs) = read_objects-encode_objects ps os hs in
    let (bs, w, some_bytes, back) = read_typed-encode_typed p o rest h in
    (
      bs ++ rest,
      rw (w, ws),
      omega (arith, length-append bs rest),
      λ fuel e. one_more fuel (length ps) (bs ++ rest) rest o os back e backs,
    )

-- What the client reads where the message is sent.
abbrev pub received : Message → List Object → Message
received msg os = record msg { objects = os }

-- The body of a message of readable objects can be encoded: the encoder returns no error and does
-- not panic. After the compression byte the client reads the objects back.
pub read_body-encode_body :
    (msg : Message) (os : List Object)
    → IsText msg.id
    → AllReadAs msg.objects os
    → (body : Bytes) × (encode_body msg ≡ ok body)
      × (read_body (5 + length body) (msg.compression ∷ body) ≡ some (received msg os))
unfolding encode_body read_body
read_body-encode_body msg os id h =
    let (bs, w, long, back) = read_objects-encode_objects msg.objects os h in
    let body = encode_string (some msg.id) ++ bs in
    let enough : length msg.objects ≤ 5 + length body =
      omega (arith, length-append (encode_string (some msg.id)) bs) in
    (
      body,
      rw w,
      unfold read_byte in rw (read_text-encode_string msg.id bs id, back (5 + length body) enough),
    )

eq_self : (n : ℕ) → (n == n) ≡ true
eq_self n = ground arith

pub length-be32 : (n : ℕ) (s : Bytes) → length (be32 n ++ s) ≡ 4 + length s
unfolding be32
length-be32 n s = omega arith

-- What a client reads of a body, it reads of the body's frame.
pub read_message-body :
    (msg got : Message) (body : Bytes)
    → encode_body msg ≡ ok body
    → read_body (5 + length body) (msg.compression ∷ body) ≡ some got
    → 5 + length body < 2 ^ 32
    → (bs : Bytes) × (frame msg ≡ ok bs) × (read_message bs ≡ some got)
unfolding frame total_length read_message
read_message-body msg got body w back small =
    let total : (4 + 1 + length body) % 2 ^ 32 ≡ 5 + length body = omega arith in
    let sent = be32 (5 + length body) ++ (msg.compression ∷ body) in
    let whole : length sent ≡ 5 + length body =
      omega (arith, length-be32 (5 + length body) (msg.compression ∷ body)) in
    (
      sent,
      rw (w, total),
      rw (
        read_be32-be32 (5 + length body) (msg.compression ∷ body) small,
        whole,
        eq_self (5 + length body),
        back,
      ),
    )

-- A frame that an encoded body is put into, of less than 2 ^ 32 bytes, is read back as the message.
pub read_message-frame :
    (msg : Message) (os : List Object) (body : Bytes)
    → IsText msg.id
    → AllReadAs msg.objects os
    → encode_body msg ≡ ok body
    → 5 + length body < 2 ^ 32
    → (bs : Bytes) × (frame msg ≡ ok bs) × (read_message bs ≡ some (received msg os))
read_message-frame msg os body id h w small =
    let (body', w', back) = read_body-encode_body msg os id h in
    let same : body ≡ body' = cc in
    read_message-body msg (received msg os) body w (rw same back) small
