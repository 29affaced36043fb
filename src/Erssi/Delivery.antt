-- ===== src/Erssi/Delivery.antt =====
-- internal/erssi/client.go: what erssi sends under the shared password arrives.
use erssi_lith_bridge.Base.{
  arith, ◌≡◌, refl, ◌≤◌, true, false, List, [], ◌∷◌, ◌++◌, map, none, some, Bytes, length, Option,
  inl, inr, Option-cases, All, err, ok, ◌⊎◌,
}
use erssi_lith_bridge.Erssi.Types.{
  WebMessage, Decoded, decoded, unmarshal_json, take_channel, take_server,
}
use erssi_lith_bridge.Erssi.Crypto.{iv_size, tag_size, Cipher}
use erssi_lith_bridge.Erssi.Decryption.{decrypt_message-seal}
use erssi_lith_bridge.Erssi.Client.{
  Client, Frame, payload_of, read_frame, read_loop, close, send_message, not_connected,
  marshal_failed, write_failed, ClientError, authenticate,
}

-- erssi's side: how it seals a text behind a nonce. The laws say that the key is one of AES, and that
-- the library's Open undoes the sealing under it.
pub record Sender (cipher : Cipher) (key : Bytes) : Type 0 where
  pub seal : Bytes → Bytes → Bytes
  pub key_taken : cipher.new_cipher key ≡ true
  pub gcm_made : cipher.new_gcm key ≡ true
  pub tagged : (iv p : Bytes) → tag_size ≤ length (seal iv p)
  pub opened : (iv p : Bytes) → length iv ≡ iv_size → cipher.gcm_open key iv (seal iv p) ≡ some p

-- A nonce of twelve bytes.
abbrev pub Nonce : Type 0
Nonce = (iv : Bytes) × (length iv ≡ iv_size)

module _ (cipher : Cipher) (decode : Bytes → Decoded) (key : Bytes) (sender : Sender cipher key)
    (encode : Bytes → WebMessage → Bytes) where
  -- A message, with what erssi writes for `channel`.
  abbrev pub sealed_frame : Nonce × Bytes × WebMessage → Frame
  sealed_frame (iv, channel, m) = record {
    binary = true;
    payload = iv.0 ++ sender.seal iv.0 (encode channel m);
  }

  -- The decoder reads all fields of what erssi writes for a message.
  abbrev pub IsDecoded : Nonce × Bytes × WebMessage → Type 0
  IsDecoded (iv, channel, m) = decode (encode channel m) ≡ decoded channel m

  -- The message as its handler gets it.
  abbrev pub received : Nonce × Bytes × WebMessage → WebMessage
  received (iv, channel, m) = take_server (take_channel channel m)

  read_frame-sealed_frame :
      (iv : Nonce) (channel : Bytes) (m : WebMessage)
      → IsDecoded (iv, channel, m)
      → read_frame cipher decode (some key) (sealed_frame (iv, channel, m))
        ≡ ok (received (iv, channel, m))
  unfolding read_frame payload_of unmarshal_json
  read_frame-sealed_frame iv channel m d =
      let plain =
        decrypt_message-seal cipher (λ k. sender.seal) key iv.0 (encode channel m) iv.1
          (sender.tagged iv.0 (encode channel m)) sender.key_taken sender.gcm_made
          (sender.opened iv.0 (encode channel m) iv.1) in
      rw (read_frame, payload_of, plain, unmarshal_json, d)

  -- Where the decoder reads what erssi writes for each of some messages, and erssi encrypts them, each
  -- behind a nonce of its own, the read loop starts a goroutine for each of them, in this order, and
  -- does not panic. A message without a target gets the one of the field `channel`, and one without a
  -- server tag that of the field `server`.
  pub read_loop-sealed_frame :
      (ms : List (Nonce × Bytes × WebMessage))
      → All IsDecoded ms
      → read_loop cipher decode (some key) (map sealed_frame ms) ≡ (map received ms, false)
  unfolding read_loop
  read_loop-sealed_frame [] d = refl
  read_loop-sealed_frame ((iv, channel, m) ∷ ms) d =
      let first = read_frame-sealed_frame iv channel m d.0 in
      let rest = read_loop-sealed_frame ms d.1 in rw (read_loop, first, rest)

module _ {E W : Type 0} (write_close : W → Option E × W) (close_conn : W → Option E) where
  conn-close : (c : Client W) → (close write_close close_conn c).1.conn ≡ none
  unfolding close
  conn-close c = elim (Option-cases c.conn) [
    | inl gone ↦ rw (close, gone) gone
    | inr (w, there) ↦ rw (close, there)
  ]

unsent :
    {E W : Type 0} (marshal : WebMessage → Option Bytes) (write : Bytes → W → Option E × W)
    (c : Client W) (m : WebMessage)
    → c.conn ≡ none
    → send_message marshal write m c ≡ (err not_connected, c)
unfolding send_message
unsent marshal write c m gone = ground arith

-- After `Close` a message is refused and the client stays as it is, whatever the errors of closing
-- were.
pub send_message-close :
    {E W : Type 0} (marshal : WebMessage → Option Bytes) (write : Bytes → W → Option E × W)
    (write_close : W → Option E × W) (close_conn : W → Option E) (c : Client W) (m : WebMessage)
    → send_message marshal write m (close write_close close_conn c).1
      ≡ (err not_connected, (close write_close close_conn c).1)
send_message-close marshal write write_close close_conn c m =
    unsent marshal write (close write_close close_conn c).1 m (conn-close write_close close_conn c)

module _ {E W : Type 0} (marshal_auth : Bytes → Option Bytes)
    (write : Bytes → W → Option E × W) where
  -- `authenticate` gives no error exactly where the client counts as authenticated because of it: the
  -- message was written whole to a connection that is there. Where it fails, nothing is granted.
  pub authenticate-sends :
      (c : Client W)
      → ((authenticate marshal_auth write c).0 ≡ ok tt)
          × ((authenticate marshal_auth write c).1.authenticated ≡ true)
          × ((bytes : Bytes) × (w : W) × (marshal_auth c.password ≡ some bytes)
              × (c.conn ≡ some w)
              × ((write bytes w).0 ≡ none))
        ⊎ ((e : ClientError E) × ((authenticate marshal_auth write c).0 ≡ err e)
            × ((authenticate marshal_auth write c).1.authenticated ≡ c.authenticated))
  unfolding authenticate
  authenticate-sends c = elim (Option-cases (marshal_auth c.password)) [
    | inl bad ↦ rw (authenticate, bad) (inr (marshal_failed, refl, refl))
    | inr (bytes, text) ↦ elim (Option-cases c.conn) [
      | inl gone ↦ rw (authenticate, text, gone) (inr (not_connected, refl, refl))
      | inr (w, there) ↦ elim (Option-cases (write bytes w).0) [
        | inl sent ↦
            rw (authenticate, text, there, sent) (inl (refl, refl, (bytes, w, refl, refl, sent)))
        | inr (e, failed) ↦
            rw (authenticate, text, there, failed) (inr (write_failed e, refl, refl))
      ]
    ]
  ]
