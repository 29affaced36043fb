-- ===== src/Weechat/Clients.antt =====
-- internal/weechat/server.go: the map of clients as a collection without an order. `BroadcastMessage`
-- ranges over it, and Go leaves the order of the range open.
use mathlib.Core.List.{Perm}
use mathlib.Core.List.Perm
use mathlib.Core.Quot
use mathlib.Core.Quot.{Quot, Quot-set}
use erssi_lith_bridge.Base.{◌≡◌, ap, ◌∙◌, false, List, map, Option, Bytes, ok}
use erssi_lith_bridge.Proto.Types.{Message}
use erssi_lith_bridge.Proto.Encoder.{frame}
use erssi_lith_bridge.Weechat.Server.{Peer, broadcast_message}
use erssi_lith_bridge.Weechat.Broadcast.{deliver, broadcast_message-deliver}

abbrev SamePeers : {W : Type 0} → List (Peer W) → List (Peer W) → Type 0
SamePeers ps qs = Perm ps qs

abbrev pub Clients : Type 0 → Type 0
Clients W = Quot (SamePeers {W = W})

abbrev pub clients_of : {W : Type 0} → List (Peer W) → Clients W
clients_of = Quot.mk

module _ {E W : Type 0} (write : Bytes → W → Option E × W) where
  -- The message is sent to each client that may have it.
  unfoldable pub send_to_all : Message → Clients W → Clients W
  send_to_all msg =
      Quot.lift Quot-set (λ ps. clients_of (map (deliver write msg) ps))
        λ ps qs same. Quot.sound (Perm.map (deliver write msg) same)

  -- In whatever order it ranges over the clients, a broadcast of a message that has a frame leaves the
  -- collection of clients that the same send to each of them leaves, and does not panic.
  pub broadcast_message-send_to_all :
      (msg : Message) (bs : Bytes) (ps qs : List (Peer W))
      → frame msg ≡ ok bs
      → Perm ps qs
      → (clients_of (broadcast_message write msg ps).0 ≡ send_to_all msg (clients_of qs))
        × ((broadcast_message write msg ps).1 ≡ false)
  unfolding send_to_all
  broadcast_message-send_to_all msg bs ps qs e same =
      let each = broadcast_message-deliver write msg bs ps e in
      (ap (λ r. clients_of r.0) each ∙ ap (send_to_all msg) (Quot.sound same), ap (λ r. r.1) each)
