-- ===== src/System/Isolation.antt =====
-- The invariant of the program that keeps clients apart which are not authenticated: handlers run, and
-- answer, only for clients that are.
use erssi_lith_bridge.Base.{
  ℕ, ◌≡◌, ◌≢◌, refl, ◌∙◌, inl, inr, Bool, true, List, [], ◌∷◌, map, Option, none, some, Bytes, ok,
  err, panic, get_elem?, All, All-append, All-mono, All-get, Bool-cases,
}
use erssi_lith_bridge.Bridge.State.{Effect, broadcast, reply, to_erssi, crash}
use erssi_lith_bridge.Bridge.Events.{Event}
use erssi_lith_bridge.Weechat.Command.{Command, Line}
use erssi_lith_bridge.Weechat.Session.{Client, Handled, handle_line}
use erssi_lith_bridge.Weechat.Gate.{line-IsGated, line-stays}
use erssi_lith_bridge.Weechat.Server.{
  Peer, modify, disconnect, after_line, reply_to, broadcast_message,
}
use erssi_lith_bridge.Weechat.Peers.{
  IsAuthenticated, Grows, get_elem?-modify_self, All-modify, Grows-modify, reply_to-authenticated,
  Grows-broadcast_message, All-broadcast_message,
}
use erssi_lith_bridge.System.State.{System, task_of, take_line, deliver}
use erssi_lith_bridge.System.Steps.{World}
use erssi_lith_bridge.System.Privacy.{IsPrivate, after_line-IsPrivate, line-IsPrivate}

-- What was started for a client was started for an authenticated one.
abbrev pub IsOwned : {W : Type 0} → List (Peer W) → Option ℕ → Type 0
IsOwned ps none = Unit
IsOwned ps (some k) = IsAuthenticated k ps

abbrev pub AllOwned {ℓ} : {A : Type ℓ} {W : Type 0} → List (Peer W) → List (Option ℕ × A) → Type 0
AllOwned {A} ps ts = All (λ (t : Option ℕ × A). IsOwned ps t.0) ts

IsOwned-Grows :
    {W : Type 0} (ps qs : List (Peer W)) (o : Option ℕ) → Grows ps qs → IsOwned ps o → IsOwned qs o
IsOwned-Grows ps qs none grow h = tt
IsOwned-Grows ps qs (some k) grow h = grow k h

pub AllOwned-Grows {ℓ} :
    {A : Type ℓ} {W : Type 0} (ps qs : List (Peer W)) (ts : List (Option ℕ × A))
    → Grows ps qs
    → AllOwned ps ts
    → AllOwned qs ts
AllOwned-Grows {A} ps qs ts grow h =
    All-mono (λ (t : Option ℕ × A). IsOwned ps t.0) (λ (t : Option ℕ × A). IsOwned qs t.0) ts
      (λ t o. IsOwned-Grows ps qs t.0 grow o) h

after_line-authenticated :
    {E W : Type 0} (close : W → W) (handled : Handled E W) (p : Peer W)
    → (after_line close handled p).client.authenticated ≡ handled.1.authenticated
unfolding after_line disconnect
after_line-authenticated close (ok _, c, out) p = refl
after_line-authenticated close (err _, c, out) p = refl
after_line-authenticated close (panic, c, out) p = refl

module _ {E W : Type 0} (write : Bytes → W → Option E × W) where
  -- A command is handed on only for a client that is authenticated then.
  handed_on :
      (random : Option Bytes) (l : Line) (c : Client W)
      → (handle_line write random l c).2 ≢ []
      → (handle_line write random l c).1.authenticated ≡ true
  handed_on random l c some_out = elim (Bool-cases c.authenticated) [
    | inl on ↦ line-stays write random l c on
    | inr off ↦ elim (line-IsGated write random l c off) [
      | inl (none_out, _) ↦ absurd (some_out none_out)
      | inr (_, on) ↦ on
    ]
  ]

tasks_owned :
    {W : Type 0} (k : ℕ) (ps : List (Peer W)) (out : List Command)
    → (out ≢ [] → IsAuthenticated k ps)
    → AllOwned ps (map (task_of k) out)
tasks_owned k ps [] h = tt
tasks_owned k ps (c ∷ cs) h = (h (λ e. cc), tasks_owned k ps cs (λ _. h (λ e. cc)))

pub record IsIsolated {E W : Type 0} (v : World E W) (s : System W) : Type 0 where
  pub peers : All (IsPrivate v.write v.close v.fresh) s.peers
  pub tasks : AllOwned s.peers s.tasks
  pub sends : AllOwned s.peers s.sends

same_peer : {W : Type 0} (o : Option (Peer W)) (p q : Peer W) → o ≡ some p → o ≡ some q → p ≡ q
same_peer o p q e f = cc

pub owned :
    {A W : Type 0} (ps : List (Peer W)) (o : Option ℕ) (xs : List A)
    → IsOwned ps o
    → AllOwned ps (map (λ (x : A). (o, x)) xs)
owned ps o [] h = tt
owned ps o (x ∷ xs) h = (h, owned ps o xs h)

module _ {E W : Type 0} (v : World E W) where
  -- New states of the clients that keep the invariant.
  pub regrown :
      (s : System W) (ps : List (Peer W)) (running : Bool)
      → IsIsolated v s
      → Grows s.peers ps
      → All (IsPrivate v.write v.close v.fresh) ps
      → IsIsolated v (record s { peers = ps; running = running })
  regrown s ps running h grow private = record {
    peers = private;
    tasks = AllOwned-Grows s.peers ps s.tasks grow h.tasks;
    sends = AllOwned-Grows s.peers ps s.sends grow h.sends;
  }

  pub deliver-IsIsolated :
      (o : Option ℕ) (f : Effect) (s : System W)
      → IsOwned s.peers o
      → IsIsolated v s
      → IsIsolated v (deliver v.write o f s)
  unfolding deliver
  deliver-IsIsolated o (broadcast msg) s owned h =
      regrown s (broadcast_message v.write msg s.peers).0 _ h
        (Grows-broadcast_message v.write msg s.peers)
        (All-broadcast_message v.write msg (IsPrivate v.write v.close v.fresh) s.peers
          (λ p on private off. let e = reply_to-authenticated v.write msg p in cc) h.peers)
  deliver-IsIsolated (some k) (reply msg) s (p, found, on) h =
      regrown s (modify (reply_to v.write msg) k s.peers) _ h
        (Grows-modify (reply_to v.write msg) k s.peers
          (λ q e on'. reply_to-authenticated v.write msg q ∙ on'))
        (All-modify (IsPrivate v.write v.close v.fresh) (reply_to v.write msg) k s.peers
          (λ q e off.
            let same = same_peer (get_elem? s.peers k) p q found e in
            let kept = reply_to-authenticated v.write msg q in cc)
          h.peers)
  deliver-IsIsolated none (reply msg) s owned h = h
  deliver-IsIsolated o (to_erssi msg) s owned h = record {
    peers = h.peers;
    tasks = h.tasks;
    sends = h.sends;
  }
  deliver-IsIsolated o crash s owned h = record {
    peers = h.peers;
    tasks = h.tasks;
    sends = h.sends;
  }

  pub take_line-IsIsolated :
      (k : ℕ) (p : Peer W) (random : Option Bytes) (l : Line) (s : System W)
      → get_elem? s.peers k ≡ some p
      → IsIsolated v s
      → IsIsolated v (take_line v.close k (handle_line v.write random l p.client) s)
  unfolding take_line
  take_line-IsIsolated k p random l s found h =
      let handled = handle_line v.write random l p.client in
      let f = after_line v.close handled in
      let private = All-get (IsPrivate v.write v.close v.fresh) s.peers k p h.peers found in
      let grow : Grows s.peers (modify f k s.peers) = Grows-modify f k s.peers λ q e on.
        let same = same_peer (get_elem? s.peers k) p q found e in
        after_line-authenticated v.close handled q
        ∙ line-stays v.write random l p.client (rw same on) in
      record {
        peers =
            All-modify (IsPrivate v.write v.close v.fresh) f k s.peers
              (λ q e.
                after_line-IsPrivate v.write v.close v.fresh handled.0 handled.1 handled.2 q
                  (line-IsPrivate v.write v.close v.fresh random l p.client private))
              h.peers;
        tasks =
            All-append (λ (t : Option ℕ × Event). IsOwned (modify f k s.peers) t.0) s.tasks
              (map (task_of k) handled.2)
              (AllOwned-Grows s.peers (modify f k s.peers) s.tasks grow h.tasks)
              (tasks_owned k (modify f k s.peers) handled.2 λ handed. (
                f p,
                get_elem?-modify_self f k s.peers p found,
                after_line-authenticated v.close handled p
                    ∙ handed_on v.write random l p.client handed,
              ));
        sends = AllOwned-Grows s.peers (modify f k s.peers) s.sends grow h.sends;
      }
