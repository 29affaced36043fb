-- ===== src/System/Privacy.antt =====
-- Clients that did not send `init` get nothing but the answers to their own handshakes.
use erssi_lith_bridge.Base.{
  ◌≡◌, inl, inr, true, false, List, Option, none, some, Bytes, Result, ok, err, panic, All,
  All-append, Bool-cases, arith,
}
use erssi_lith_bridge.Base.Text.{codes, str_eq}
use erssi_lith_bridge.Proto.Create.{create_handshake_response}
use erssi_lith_bridge.Proto.Encoder.{encode_message}
use erssi_lith_bridge.Weechat.Command.{Command, Line, malformed, blank, command}
use erssi_lith_bridge.Weechat.Session.{
  Client, CommandError, hex_encode, send_message, handle_handshake, handle_init, forward,
  dispatch_command, handle_line,
}
use erssi_lith_bridge.Weechat.Gate.{line-stays}
use erssi_lith_bridge.Weechat.Server.{Peer, accept, disconnect, after_line}

module _ {E W : Type 0} (write : Bytes → W → Option E × W) (close : W → W) (fresh : W) where
  -- The connections on which nothing was sent but handshake responses.
  pub data OnlyHandshakes : W → Type 0 where
    untouched : OnlyHandshakes fresh
    greeted :
        {w : W} (id nonce : Bytes)
        → OnlyHandshakes w
        → OnlyHandshakes
            (encode_message write (create_handshake_response id (codes "plain") nonce) w).1
    closed : {w : W} → OnlyHandshakes w → OnlyHandshakes (close w)

  -- A client that is not authenticated got nothing else.
  abbrev pub IsPrivate : Peer W → Type 0
  IsPrivate p = p.client.authenticated ≡ false → OnlyHandshakes p.client.conn

  pub quiet_command :
      (random : Option Bytes) (cmd : Command) (c : Client W)
      → str_eq cmd.name (codes "handshake") ≡ false
      → (dispatch_command write random cmd c).1.conn ≡ c.conn
  unfolding dispatch_command handle_init forward
  quiet_command random cmd c other = ground arith

  handshake_sends :
      (random : Option Bytes) (id : Bytes) (c : Client W)
      → OnlyHandshakes c.conn
      → OnlyHandshakes (handle_handshake write random id c).1.conn
  unfolding handle_handshake send_message
  handshake_sends none id c h = h
  handshake_sends (some bytes) id c h = greeted id (hex_encode bytes) h

  pub is_handshake :
      (random : Option Bytes) (cmd : Command) (c : Client W)
      → str_eq cmd.name (codes "handshake") ≡ true
      → dispatch_command write random cmd c ≡ handle_handshake write random cmd.id c
  unfolding dispatch_command
  is_handshake random cmd c same = rw same

  -- A line of a client writes nothing to it, or a handshake response.
  line_sends :
      (random : Option Bytes) (l : Line) (c : Client W)
      → OnlyHandshakes c.conn
      → OnlyHandshakes (handle_line write random l c).1.conn
  unfolding handle_line
  line_sends random malformed c h = h
  line_sends random blank c h = h
  line_sends random (command cmd) c h = elim (Bool-cases (str_eq cmd.name (codes "handshake"))) [
    | inl same ↦ rw (is_handshake random cmd c same) (handshake_sends random cmd.id c h)
    | inr other ↦ rw (quiet_command random cmd c other) h
  ]

  pub accepted-IsPrivate : (ps : List (Peer W)) → All IsPrivate ps → All IsPrivate (accept fresh ps)
  unfolding accept
  accepted-IsPrivate ps h = All-append IsPrivate ps _ h ((λ off. untouched), tt)

  pub disconnect-IsPrivate : (p : Peer W) → IsPrivate p → IsPrivate (disconnect close p)
  unfolding disconnect
  disconnect-IsPrivate p h off = closed (h off)

  pub after_line-IsPrivate :
      (r : Result (CommandError E) (Unit {0})) (c : Client W) (out : List Command) (p : Peer W)
      → (c.authenticated ≡ false → OnlyHandshakes c.conn)
      → IsPrivate (after_line close (r, c, out) p)
  unfolding after_line
  after_line-IsPrivate (ok _) c out p h = h
  after_line-IsPrivate (err _) c out p h = λ off. closed (h off)
  after_line-IsPrivate panic c out p h = λ off. closed (h off)

  -- A client that is not authenticated after a line was not before.
  pub line-IsPrivate :
      (random : Option Bytes) (l : Line) (c : Client W)
      → (c.authenticated ≡ false → OnlyHandshakes c.conn)
      → (handle_line write random l c).1.authenticated ≡ false
      → OnlyHandshakes (handle_line write random l c).1.conn
  line-IsPrivate random l c h off = elim (Bool-cases c.authenticated) [
    | inl on ↦ let on' = line-stays write random l c on in cc
    | inr off' ↦ line_sends random l c (h off')
  ]
