-- ===== src/Weechat/Broadcast.antt =====
-- internal/weechat/server.go: whom a message reaches that is sent to all clients.
use erssi_lith_bridge.Base.{
  ◌&&◌, ◌≡◌, ◌≢◌, refl, inl, inr, ℕ, zero, suc, ap, ◌∙◌, some, true, get_elem?, Bool, false, List,
  [], ◌∷◌, map, Option, Bytes, Result, ok, err, panic, Bool-cases, if◌then◌else◌,
}
use erssi_lith_bridge.Proto.Types.{Message}
use erssi_lith_bridge.Proto.Encoder.{SendError, frame}
use erssi_lith_bridge.Proto.Sending.{encode_message-ne-panic}
use erssi_lith_bridge.Weechat.Session.{Client, send_message}
use erssi_lith_bridge.Weechat.Server.{Peer, after_send, broadcast_message, reply_to}

module _ {E W : Type 0} (write : Bytes → W → Option E × W) where
  -- What one client gets of a broadcast: the message, if it is there and authenticated.
  abbrev pub deliver : Message → Peer W → Peer W
  deliver msg p = if p.registered && p.client.authenticated then reply_to write msg p else p

  not_panicked :
      (msg : Message) (c : Client W) (bs : Bytes)
      → frame msg ≡ ok bs
      → (send_message write msg c).0 ≢ panic
  unfolding send_message
  not_panicked msg c bs e = encode_message-ne-panic write msg bs c.conn e

after_send_quiet :
    {E W : Type 0} (r : Result (SendError E) (Unit {0})) (p : Peer W) (rest : List (Peer W) × Bool)
    (ps : List (Peer W))
    → r ≢ panic
    → after_send r p rest ps ≡ (p ∷ rest.0, rest.1)
unfolding after_send
after_send_quiet (ok _) p rest ps h = refl
after_send_quiet (err _) p rest ps h = refl
after_send_quiet panic p rest ps h = absurd (h refl)

get_elem?-map :
    {A : Type 0} (f : A → A) (xs : List A) (k : ℕ) (x : A)
    → get_elem? xs k ≡ some x
    → get_elem? (map f xs) k ≡ some (f x)
get_elem?-map f [] k x e = cc
get_elem?-map f (y ∷ xs) zero x e = let same : y ≡ x = cc in ap (λ z. some (f z)) same
get_elem?-map f (y ∷ xs) (suc k) x e = get_elem?-map f xs k x e

module _ {E W : Type 0} (write : Bytes → W → Option E × W) where
  -- A broadcast of a message that has a frame is the same send to each client that is there and
  -- authenticated, whatever happens to the sends to the others; no other client changes, and there is
  -- no panic.
  pub broadcast_message-deliver :
      (msg : Message) (bs : Bytes) (ps : List (Peer W))
      → frame msg ≡ ok bs
      → broadcast_message write msg ps ≡ (map (deliver write msg) ps, false)
  unfolding broadcast_message
  broadcast_message-deliver msg bs [] e = refl
  broadcast_message-deliver msg bs (p ∷ ps) e =
      let rest = broadcast_message-deliver msg bs ps e in
      let quiet =
        after_send_quiet _ (reply_to write msg p) (map (deliver write msg) ps, false) ps
          (not_panicked write msg p.client bs e) in
      elim (Bool-cases (p.registered && p.client.authenticated)) [
        | inl there ↦ rw (there, rest, quiet)
        | inr other ↦ rw (other, rest)
      ]

  -- A client that is there and authenticated gets the message.
  pub broadcast_message-reaches :
      (msg : Message) (bs : Bytes) (ps : List (Peer W)) (k : ℕ) (p : Peer W)
      → frame msg ≡ ok bs
      → get_elem? ps k ≡ some p
      → p.registered ≡ true
      → p.client.authenticated ≡ true
      → get_elem? (broadcast_message write msg ps).0 k ≡ some (reply_to write msg p)
  broadcast_message-reaches msg bs ps k p e found there on =
      let got : deliver write msg p ≡ reply_to write msg p = rw (there, on) refl in
      rw (broadcast_message-deliver msg bs ps e)
        (get_elem?-map (deliver write msg) ps k p found ∙ ap (λ q. some q) got)
