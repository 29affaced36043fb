-- ===== src/Erssi/Decryption.antt =====
-- internal/erssi/crypto.go: which frames are decrypted, and to what.
use erssi_lith_bridge.Base.{
  ◌+◌, ◌-◌, ◌≤◌, ◌≡◌, ◌↔◌, sym, ap, ◌∙◌, inl, inr, true, false, ◌++◌, Option, none, some, Bytes,
  Result, ok, err, length, take, drop, ltb, if◌then◌else◌, Bool-cases, arith, take-append-drop,
  length-append, take-append, drop-append, drop-append_le, length-take,
}
use erssi_lith_bridge.Erssi.Crypto.{
  iv_size, tag_size, Cipher, CryptoError, too_short, no_cipher, no_gcm, decryption_failed,
  decrypt_message,
}

-- The ciphertext and the tag together are all that follows the nonce.
sealed_part :
    (e : Bytes)
    → iv_size + tag_size ≤ length e
    → drop iv_size (take (length e - tag_size) e) ++ drop (length e - tag_size) e ≡ drop iv_size e
sealed_part e h =
    let m = length e - tag_size in
    sym (drop-append_le iv_size (take m e) (drop m e) (omega (arith, length-take m e)))
    ∙ ap (drop iv_size) (take-append-drop m e)

abbrev opened : Option Bytes → Result CryptoError Bytes
opened none = err decryption_failed
opened (some plaintext) = ok plaintext

module _ (cipher : Cipher) where
  decrypt_message-long :
      (e key : Bytes)
      → iv_size + tag_size ≤ length e
      → decrypt_message cipher e key ≡ (
          if cipher.new_cipher key
          then if cipher.new_gcm key
            then opened (cipher.gcm_open key (take iv_size e) (drop iv_size e))
            else err no_gcm
          else err no_cipher)
  unfolding decrypt_message
  decrypt_message-long e key h =
      let long : ltb (length e) (iv_size + tag_size) ≡ false = ground arith in
      rw (long, sealed_part e h) (ground arith)

  -- What it takes for a frame to be decrypted.
  pub record Opens (e key plaintext : Bytes) : Type 0 where
    pub long : iv_size + tag_size ≤ length e
    pub key_taken : cipher.new_cipher key ≡ true
    pub gcm_made : cipher.new_gcm key ≡ true
    pub authentic : cipher.gcm_open key (take iv_size e) (drop iv_size e) ≡ some plaintext

  short_fails :
      (e key p : Bytes) → decrypt_message cipher e key ≡ ok p → iv_size + tag_size ≤ length e
  unfolding decrypt_message
  short_fails e key p h = elim (Bool-cases (ltb (length e) (iv_size + tag_size))) [
    | inl short ↦ let r : err too_short ≡ ok p = rw short at h in cc
    | inr long ↦ ground arith
  ]

  -- A frame is decrypted to a text exactly when it has twelve bytes of nonce and sixteen of tag at
  -- least, the key is taken, and the cipher opens all behind the nonce to this text.
  pub decrypt_message_iff :
      (e key p : Bytes) → (decrypt_message cipher e key ≡ ok p) ↔ Opens e key p
  decrypt_message_iff e key p = (
    λ h. let long = short_fails e key p h in opens long (sym (decrypt_message-long e key long) ∙ h),
    λ o. decrypt_message-long e key o.long ∙ rw (o.key_taken, o.gcm_made, o.authentic),
  )
    where
      opens :
          iv_size + tag_size ≤ length e
          → (if cipher.new_cipher key
              then if cipher.new_gcm key
                then opened (cipher.gcm_open key (take iv_size e) (drop iv_size e))
                else err no_gcm
              else err no_cipher)
            ≡ ok p
          → Opens e key p
      opens long h = record {
        long = long;
        key_taken = ground arith;
        gcm_made = ground arith;
        authentic = ground arith;
      }

  -- What is sealed under a key behind a nonce of twelve bytes is decrypted by the same key.
  pub decrypt_message-seal :
      (seal : Bytes → Bytes → Bytes → Bytes) (key iv p : Bytes)
      → length iv ≡ iv_size
      → tag_size ≤ length (seal key iv p)
      → cipher.new_cipher key ≡ true
      → cipher.new_gcm key ≡ true
      → cipher.gcm_open key iv (seal key iv p) ≡ some p
      → decrypt_message cipher (iv ++ seal key iv p) key ≡ ok p
  decrypt_message-seal seal key iv p twelve tagged taken made opens =
      (decrypt_message_iff (iv ++ seal key iv p) key p).1 (record {
        long = omega (arith, length-append iv (seal key iv p));
        key_taken = taken;
        gcm_made = made;
        authentic =
            rw (sym twelve, take-append iv (seal key iv p), drop-append iv (seal key iv p)) opens;
      })
