-- ===== src/Erssi/Crypto.antt =====
-- internal/erssi/crypto.go: the frame of an encrypted message, twelve bytes of nonce, the ciphertext and
-- sixteen bytes of tag. `append(ciphertext, tag...)` writes the tag over itself, so the frame keeps
-- its bytes.
use erssi_lith_bridge.Base.{
  ℕ, ◌+◌, ◌-◌, Bool, ◌++◌, Option, none, some, Bytes, Result, ok, err, length, take, drop, ltb,
  if◌then◌else◌,
}
use erssi_lith_bridge.Base.Text.{codes}

abbrev pub iv_size : ℕ
iv_size = 12

abbrev pub tag_size : ℕ
tag_size = 16

-- PBKDF2, AES and GCM, which are library code.
pub record Cipher : Type 0 where
  pub pbkdf2_key : Bytes → Bytes → ℕ → ℕ → Bytes  -- password, salt, iterations, size of the key
  pub new_cipher : Bytes → Bool  -- whether aes.NewCipher takes the key
  pub new_gcm : Bytes → Bool  -- whether cipher.NewGCM takes the block cipher of the key
  pub gcm_open : Bytes → Bytes → Bytes → Option Bytes  -- key, nonce, ciphertext with its tag

pub data CryptoError : Type 0 where
  too_short no_cipher no_gcm decryption_failed : CryptoError

module _ (cipher : Cipher) where
  unfoldable pub derive_key : Bytes → Bytes
  derive_key password = cipher.pbkdf2_key password (codes "irssi-fe-web-v1") 10000 32

  unfoldable pub decrypt_message : Bytes → Bytes → Result CryptoError Bytes
  decrypt_message encrypted key =
      if ltb (length encrypted) (iv_size + tag_size)
      then err too_short
      else let iv = take iv_size encrypted in
        let ciphertext = drop iv_size (take (length encrypted - tag_size) encrypted) in
        let tag = drop (length encrypted - tag_size) encrypted in
        if cipher.new_cipher key
        then if cipher.new_gcm key
          then elim (cipher.gcm_open key iv (ciphertext ++ tag)) [
            | none ↦ err decryption_failed
            | some plaintext ↦ ok plaintext
          ]
          else err no_gcm
        else err no_cipher
