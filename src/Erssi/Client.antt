-- ===== src/Erssi/Client.antt =====
-- internal/erssi/client.go: the connection to erssi, and the loop that reads it. The handlers only log
-- that a connection was made or lost, and the goroutines that call them are left out.
use erssi_lith_bridge.Base.{
  Bool, true, false, List, [], ◌∷◌, ◌++◌, Option, none, some, Bytes, Result, ok, err, panic,
  if◌then◌else◌,
}
use erssi_lith_bridge.Base.Text.{codes, contains}
use erssi_lith_bridge.Erssi.Types.{
  WebMessage, message, zero_message, is_empty, Decoded, unmarshal_json,
}
use erssi_lith_bridge.Erssi.Crypto.{Cipher, CryptoError, derive_key, decrypt_message}

-- `done` is whether the channel of that name is closed. `W` is the WebSocket connection.
pub record Client (W : Type 0) : Type 0 where
  pub url : Bytes
  pub password : Bytes
  pub conn : Option W
  pub authenticated : Bool
  pub encryption_key : Option Bytes
  pub done : Bool

-- NewClient: there is a key only if there is a password.
unfoldable pub new_client : {W : Type 0} → Cipher → Bytes → Bytes → Client W
new_client cipher url password = record {
  url = url;
  password = password;
  conn = none;
  authenticated = false;
  encryption_key = if is_empty password then none else some (derive_key cipher password);
  done = false;
}

-- The address that `Connect` dials.
unfoldable pub url_with_password : {W : Type 0} → Client W → Bytes
url_with_password c =
    if is_empty c.password
    then c.url
    else let separator = if contains c.url (codes "?") then codes "&" else codes "?" in
      c.url ++ (separator ++ (codes "password=" ++ c.password))

pub data ClientError (E : Type 0) : Type 0 where
  failed_to_connect not_connected failed_to_marshal : ClientError E
  failed_to_send : E → ClientError E
  marshal_failed : ClientError E
  write_failed : E → ClientError E

-- `dial` is the dialer: a connection, or none where it fails.
unfoldable pub connect :
    {E W : Type 0} → (Bytes → Option W) → Client W → Result (ClientError E) (Unit {0}) × Client W
unfolding url_with_password
connect dial c = elim (dial (url_with_password c)) [
  | none ↦ (err failed_to_connect, c)
  | some w ↦ (ok tt, record c { conn = some w; authenticated = true })
]

-- `marshal` is json.Marshal of the message, `write` the connection's WriteMessage of a text frame.
module _ {E W : Type 0} (marshal : WebMessage → Option Bytes)
    (write : Bytes → W → Option E × W) where
  written : Client W → Option E × W → Result (ClientError E) (Unit {0}) × Client W
  written c (none, w) = (ok tt, record c { conn = some w })
  written c (some e, w) = (err (failed_to_send e), record c { conn = some w })

  unfoldable pub send_message : WebMessage → Client W → Result (ClientError E) (Unit {0}) × Client W
  unfolding written
  send_message msg c = elim c.conn [
    | none ↦ (err not_connected, c)
    | some w ↦ elim (marshal msg) [
      | none ↦ (err failed_to_marshal, c)
      | some bytes ↦ written c (write bytes w)
    ]
  ]

  unfoldable pub send_command :
      Bytes → Bytes → Bytes → Client W → Result (ClientError E) (Unit {0}) × Client W
  unfolding send_message
  send_command server_tag target text =
      send_message
        (record (zero_message message) { server_tag = server_tag; target = target; text = text })

-- `marshal_auth` is json.Marshal of the map of the type `auth` and the password. Nothing calls
-- `authenticate`.
module _ {E W : Type 0} (marshal_auth : Bytes → Option Bytes)
    (write : Bytes → W → Option E × W) where
  authenticated_by : Client W → Option E × W → Result (ClientError E) (Unit {0}) × Client W
  authenticated_by c (none, w) = (ok tt, record c { conn = some w; authenticated = true })
  authenticated_by c (some e, w) = (err (write_failed e), record c { conn = some w })

  unfoldable pub authenticate : Client W → Result (ClientError E) (Unit {0}) × Client W
  unfolding authenticated_by
  authenticate c = elim (marshal_auth c.password) [
    | none ↦ (err marshal_failed, c)
    | some bytes ↦ elim c.conn [
      | none ↦ (err not_connected, c)
      | some w ↦ authenticated_by c (write bytes w)
    ]
  ]

-- The first of two errors.
abbrev first_error : {E : Type 0} → Option E → Option E → Option E
first_error none closed = closed
first_error (some e) closed = some e

-- `write_close` writes the close message, and `close_conn` is the connection's Close. The result is
-- the error, if there is one.
unfoldable pub close :
    {E W : Type 0} → (W → Option E × W) → (W → Option E) → Client W → Option E × Client W
close write_close close_conn c = elim c.conn [
  | none ↦ (none, c)
  | some w ↦
      let (e, w') = write_close w in (first_error e (close_conn w'), record c { conn = none })
]

-- What ReadMessage gives: a binary message or a text.
pub record Frame : Type 0 where
  pub binary : Bool
  pub payload : Bytes

abbrev decrypted : Result CryptoError Bytes → Option Bytes
decrypted (ok bytes) = some bytes
decrypted (err e) = none
decrypted panic = none

-- A binary message is decrypted if there is a key. `decode` is json.Unmarshal into the fields of a
-- message.
module _ (cipher : Cipher) (decode : Bytes → Decoded) where
  unfoldable pub payload_of : Option Bytes → Frame → Option Bytes
  payload_of none f = some f.payload
  payload_of (some key) f =
      if f.binary then decrypted (decrypt_message cipher f.payload key) else some f.payload

  -- A round of `readLoop`: the message that is handed to a handler, an error that is logged, or a panic.
  unfoldable pub read_frame : Option Bytes → Frame → Result (Unit {0}) WebMessage
  unfolding payload_of
  read_frame key f = elim (payload_of key f) [
    | none ↦ err tt
    | some bytes ↦ unmarshal_json decode bytes
  ]

  -- All rounds up to the error of ReadMessage: the messages in the order of their goroutines' start, and
  -- whether a round panicked.
  unfoldable pub read_loop : Option Bytes → List Frame → List WebMessage × Bool
  unfolding read_frame
  read_loop key [] = ([], false)
  read_loop key (f ∷ fs) =
      let rest = read_loop key fs in
      elim (read_frame key f) [ err e ↦ rest | ok m ↦ (m ∷ rest.0, rest.1) | panic ↦ ([], true) ]

-- The end of `readLoop`: closing the channel a second time panics.
unfoldable pub read_loop_ends : {E W : Type 0} → Client W → Result E (Unit {0}) × Client W
read_loop_ends c = if c.done then (panic, c) else (ok tt, record c { done = true })
