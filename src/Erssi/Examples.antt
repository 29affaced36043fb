-- ===== src/Erssi/Examples.antt =====
-- internal/erssi: the theorems on its client at a concrete cipher, which adds sixteen bytes and keeps
-- the text.
use erssi_lith_bridge.Base.{
  ◌+◌, ◌-◌, ◌≡◌, ◌↔◌, refl, ap, ◌∙◌, true, false, [], ◌∷◌, ◌++◌, map, Option, none, some, Bytes, ok,
  length, take, take-append, length-append, arith,
}
use erssi_lith_bridge.Base.Text.{codes}
use erssi_lith_bridge.Erssi.Types.{
  decoded, take_channel, WebMessage, message, zero_message, take_server,
}
use erssi_lith_bridge.Erssi.Crypto.{Cipher, decrypt_message}
use erssi_lith_bridge.Erssi.Decryption.{Opens, decrypt_message_iff}
use erssi_lith_bridge.Erssi.Client.{Client, read_loop}
use erssi_lith_bridge.Erssi.Delivery.{Sender, Nonce, sealed_frame, read_loop-sealed_frame}

abbrev tag : Bytes
tag = codes "0123456789abcdef"

abbrev pub a_cipher : Cipher
a_cipher = record {
  pbkdf2_key = λ password salt rounds size. password;
  new_cipher = λ key. true;
  new_gcm = λ key. true;
  gcm_open = λ key iv sealed. some (take (length sealed - 16) sealed);
}

seal : Bytes → Bytes → Bytes
seal iv p = p ++ tag

length-seal : (iv p : Bytes) → length (seal iv p) ≡ length p + 16
unfolding seal
length-seal iv p = length-append p tag

opened : (iv p : Bytes) → take (length (seal iv p) - 16) (seal iv p) ≡ p
unfolding seal
opened iv p =
    let longer : length (p ++ tag) - 16 ≡ length p = omega (arith, length-append p tag) in
    ap (λ n. take n (p ++ tag)) longer ∙ take-append p tag

a_sender : Sender a_cipher (codes "secret")
a_sender = record {
  seal = seal;
  key_taken = refl;
  gcm_made = refl;
  tagged = λ iv p. omega (arith, length-seal iv p);
  opened = λ iv p twelve. ap some (opened iv p);
}

abbrev a_message : WebMessage
a_message = record (zero_message message) { server = codes "net"; text = codes "hi" }

abbrev a_nonce : Nonce
a_nonce = (codes "abcdefghijkl", refl)

read_loop-sealed_frame_example :
    read_loop a_cipher
      (λ s. decoded (codes "#go") a_message)
      (some (codes "secret"))
      (map
        (sealed_frame a_cipher
          (λ s. decoded (codes "#go") a_message)
          (codes "secret")
          a_sender
          (λ channel m. codes "{}"))
        ((a_nonce, codes "#go", a_message) ∷ []))
    ≡ (take_server (take_channel (codes "#go") a_message) ∷ [], false)
read_loop-sealed_frame_example =
    read_loop-sealed_frame a_cipher (λ s. decoded (codes "#go") a_message) (codes "secret") a_sender
      (λ channel m. codes "{}") ((a_nonce, codes "#go", a_message) ∷ []) (refl, tt)

decrypt_message_iff_example :
    (decrypt_message a_cipher (codes "abcdefghijkl{}0123456789abcdef") (codes "secret")
      ≡ ok (codes "{}"))
    ↔ Opens a_cipher (codes "abcdefghijkl{}0123456789abcdef") (codes "secret") (codes "{}")
decrypt_message_iff_example =
    decrypt_message_iff a_cipher (codes "abcdefghijkl{}0123456789abcdef") (codes "secret")
      (codes "{}")

abbrev a_client : Client Bytes
a_client = record {
  url = codes "ws://localhost:9001";
  password = codes "secret";
  conn = some [];
  authenticated = true;
  encryption_key = some (codes "secret");
  done = false;
}

abbrev log : Bytes → Bytes → Option (Unit {0}) × Bytes
log bs w = (none, w ++ bs)
