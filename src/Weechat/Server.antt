-- ===== src/Weechat/Server.antt =====
-- internal/weechat/server.go: the clients of the server, and the message that goes to all of them.
use erssi_lith_bridge.Base.{
  ℕ, zero, suc, ◌&&◌, Bool, true, false, List, [], ◌∷◌, ◌++◌, Option, Bytes, ok, err, panic,
  if◌then◌else◌, Result,
}
use erssi_lith_bridge.Proto.Types.{Message}
use erssi_lith_bridge.Proto.Encoder.{SendError}
use erssi_lith_bridge.Weechat.Session.{Client, new_client, Handled, send_message}

-- A `*Client`, and whether the map `clients` has it. A handler may still hold a client that the map
-- has lost. The server's clients are kept in the order in which they were accepted, and a client is
-- named by its place.
pub record Peer (W : Type 0) : Type 0 where
  pub registered : Bool
  pub client : Client W

unfoldable pub modify {ℓ} : {A : Type ℓ} → (A → A) → ℕ → List A → List A
modify f k [] = []
modify f zero (x ∷ xs) = f x ∷ xs
modify f (suc k) (x ∷ xs) = x ∷ modify f k xs

-- The new client of `acceptLoop`.
unfoldable pub accept : {W : Type 0} → W → List (Peer W) → List (Peer W)
accept w ps = ps ++ (record { registered = true; client = new_client w } ∷ [])

-- The deferred part of `handleClient`.
unfoldable pub disconnect : {W : Type 0} → (W → W) → Peer W → Peer W
disconnect close p = record {
  registered = false;
  client = record p.client { conn = close p.client.conn };
}

-- A client after one of its lines: an error ends its loop.
unfoldable pub after_line : {E W : Type 0} → (W → W) → Handled E W → Peer W → Peer W
unfolding disconnect
after_line close (ok _, c, out) p = record p { client = c }
after_line close (err e, c, out) p = disconnect close (record p { client = c })
after_line close (panic, c, out) p = disconnect close (record p { client = c })

-- The rounds behind a send; a panic ends them.
unfoldable pub after_send :
    {E W : Type 0}
    → Result (SendError E) (Unit {0})
    → Peer W
    → List (Peer W) × Bool
    → List (Peer W)
    → List (Peer W) × Bool
after_send (ok _) p rest ps = (p ∷ rest.0, rest.1)
after_send (err _) p rest ps = (p ∷ rest.0, rest.1)
after_send panic p rest ps = (p ∷ ps, true)

module _ {E W : Type 0} (write : Bytes → W → Option E × W) where
  -- `client.SendMessage(msg)` in a handler; its error is logged.
  unfoldable pub reply_to : Message → Peer W → Peer W
  reply_to msg p = record p { client = (send_message write msg p.client).1 }

  -- The loop of `BroadcastMessage`, and whether it panicked.
  unfoldable pub broadcast_message : Message → List (Peer W) → List (Peer W) × Bool
  unfolding after_send reply_to
  broadcast_message msg [] = ([], false)
  broadcast_message msg (p ∷ ps) =
      let rest = broadcast_message msg ps in
      if p.registered && p.client.authenticated
      then after_send (send_message write msg p.client).0 (reply_to msg p) rest ps
      else (p ∷ rest.0, rest.1)
