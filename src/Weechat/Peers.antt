-- ===== src/Weechat/Peers.antt =====
-- internal/weechat/server.go: what the operations on the clients keep. A client that is authenticated
-- stays so.
use erssi_lith_bridge.Base.{
  ℕ, zero, suc, ◌≡◌, refl, ◌&&◌, Bool, true, List, [], ◌∷◌, Option, some, Bytes, Result, ok, err,
  panic, get_elem?, All, Bool-cases, inl, inr, arith,
}
use erssi_lith_bridge.Proto.Types.{Message}
use erssi_lith_bridge.Proto.Encoder.{SendError}
use erssi_lith_bridge.Weechat.Session.{send_message}
use erssi_lith_bridge.Weechat.Server.{Peer, modify, accept, after_send, reply_to, broadcast_message}

-- Client k is there and authenticated.
abbrev pub IsAuthenticated : {W : Type 0} → ℕ → List (Peer W) → Type 0
IsAuthenticated {W} k ps =
    (p : Peer W) × (get_elem? ps k ≡ some p) × (p.client.authenticated ≡ true)

-- Whoever is authenticated stays so.
abbrev pub Grows : {W : Type 0} → List (Peer W) → List (Peer W) → Type 0
Grows ps qs = (k : ℕ) → IsAuthenticated k ps → IsAuthenticated k qs

module _ {ℓ} {A : Type ℓ} where
  pub get_elem?-modify_self :
      (f : A → A) (k : ℕ) (xs : List A) (x : A)
      → get_elem? xs k ≡ some x
      → get_elem? (modify f k xs) k ≡ some (f x)
  unfolding modify
  get_elem?-modify_self f k [] x e = cc
  get_elem?-modify_self f zero (y ∷ xs) x e = let same : y ≡ x = cc in rw same
  get_elem?-modify_self f (suc k) (y ∷ xs) x e = get_elem?-modify_self f k xs x e

module _ {ℓ κ} {A : Type ℓ} where
  -- A property of all elements survives a change of one that keeps it there.
  pub All-modify :
      (P : A → Type κ) (f : A → A) (k : ℕ) (xs : List A)
      → ((x : A) → get_elem? xs k ≡ some x → P (f x))
      → All P xs
      → All P (modify f k xs)
  unfolding modify
  All-modify P f k [] keep h = h
  All-modify P f zero (x ∷ xs) keep h = (keep x refl, h.1)
  All-modify P f (suc k) (x ∷ xs) keep h = (h.0, All-modify P f k xs keep h.1)

module _ {W : Type 0} where
  pub Grows-accept : (w : W) (ps : List (Peer W)) → Grows ps (accept w ps)
  unfolding accept
  Grows-accept w [] k (p, e, on) = cc
  Grows-accept w (q ∷ ps) zero (p, e, on) = (p, e, on)
  Grows-accept w (q ∷ ps) (suc k) (p, e, on) = Grows-accept w ps k (p, e, on)

  pub Grows-modify :
      (f : Peer W → Peer W) (j : ℕ) (ps : List (Peer W))
      → ((p : Peer W)
          → get_elem? ps j ≡ some p
          → p.client.authenticated ≡ true
          → (f p).client.authenticated ≡ true)
      → Grows ps (modify f j ps)
  unfolding modify
  Grows-modify f j [] keep k h = h
  Grows-modify f zero (q ∷ ps) keep zero (p, e, on) =
      (f q, refl, keep q refl (let same : q ≡ p = cc in rw same on))
  Grows-modify f zero (q ∷ ps) keep (suc k) h = h
  Grows-modify f (suc j) (q ∷ ps) keep zero h = h
  Grows-modify f (suc j) (q ∷ ps) keep (suc k) h = Grows-modify f j ps keep k h

  Grows-cons :
      (p q : Peer W) (ps qs : List (Peer W))
      → (p.client.authenticated ≡ true → q.client.authenticated ≡ true)
      → Grows ps qs
      → Grows (p ∷ ps) (q ∷ qs)
  Grows-cons p q ps qs keep grow zero (r, e, on) =
      (q, refl, keep (let same : p ≡ r = cc in rw same on))
  Grows-cons p q ps qs keep grow (suc k) h = grow k h

module _ {E W : Type 0} where
  after_send-Grows :
      (r : Result (SendError E) (Unit {0})) (p q : Peer W) (rest : List (Peer W) × Bool)
      (ps : List (Peer W))
      → (p.client.authenticated ≡ true → q.client.authenticated ≡ true)
      → Grows ps rest.0
      → Grows (p ∷ ps) (after_send r q rest ps).0
  unfolding after_send
  after_send-Grows (ok _) p q rest ps keep grow = Grows-cons p q ps rest.0 keep grow
  after_send-Grows (err _) p q rest ps keep grow = Grows-cons p q ps rest.0 keep grow
  after_send-Grows panic p q rest ps keep grow = Grows-cons p q ps ps keep (λ k h. h)

  after_send-All {κ} :
      (P : Peer W → Type κ) (r : Result (SendError E) (Unit {0})) (q : Peer W)
      (rest : List (Peer W) × Bool) (ps : List (Peer W))
      → P q
      → All P rest.0
      → All P ps
      → All P (after_send r q rest ps).0
  unfolding after_send
  after_send-All P (ok _) q rest ps h hr hp = (h, hr)
  after_send-All P (err _) q rest ps h hr hp = (h, hr)
  after_send-All P panic q rest ps h hr hp = (h, hp)

module _ {E W : Type 0} (write : Bytes → W → Option E × W) (msg : Message) where
  pub reply_to-authenticated :
      (p : Peer W) → (reply_to write msg p).client.authenticated ≡ p.client.authenticated
  unfolding reply_to send_message
  reply_to-authenticated p = refl

  pub Grows-broadcast_message : (ps : List (Peer W)) → Grows ps (broadcast_message write msg ps).0
  unfolding broadcast_message send_message
  Grows-broadcast_message [] = λ k h. h
  Grows-broadcast_message (p ∷ ps) =
      let rest = Grows-broadcast_message ps in
      elim (Bool-cases (p.registered && p.client.authenticated)) [
        | inl there ↦ rw there (
            after_send-Grows (send_message write msg p.client).0 p (reply_to write msg p)
              (broadcast_message write msg ps) ps (λ on. on) rest)
        | inr other ↦
            rw other (Grows-cons p p ps (broadcast_message write msg ps).0 (λ on. on) rest)
      ]

  -- A broadcast writes to authenticated clients only.
  pub All-broadcast_message {κ} :
      (P : Peer W → Type κ) (ps : List (Peer W))
      → ((p : Peer W) → p.client.authenticated ≡ true → P p → P (reply_to write msg p))
      → All P ps
      → All P (broadcast_message write msg ps).0
  unfolding broadcast_message
  All-broadcast_message P [] keep h = tt
  All-broadcast_message P (p ∷ ps) keep h =
      let rest = All-broadcast_message P ps keep h.1 in
      elim (Bool-cases (p.registered && p.client.authenticated)) [
        | inl there ↦ rw there (
            after_send-All P (send_message write msg p.client).0 (reply_to write msg p)
              (broadcast_message write msg ps) ps (keep p (ground arith) h.0) rest h.1)
        | inr other ↦ rw other (h.0, rest)
      ]
