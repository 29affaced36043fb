-- ===== src/Bridge/Restarts.antt =====
-- internal/bridge/bridge.go: a bridge that is started again, and the end of `Wait`.
use erssi_lith_bridge.Base.{
  ◌≡◌, ◌≢◌, refl, ◌⊎◌, inl, inr, true, List, ◌∷◌, none, some, Bytes, arith, Bool-cases,
}
use erssi_lith_bridge.Erssi.Crypto.{Cipher}
use erssi_lith_bridge.Erssi.Client.{new_client}
use erssi_lith_bridge.Bridge.Lifecycle.{Life, Call, stops, Closing, step, live}
use erssi_lith_bridge.Bridge.Calls.{
  new_life, close-keeps, after_stop, stop-usable, stop-unusable, live_keeps,
}

-- There is a read loop, or `Wait` has nothing to wait for any more; if a connection was made.
abbrev IsWatched : {L W : Type 0} → Life L W → Type 0
IsWatched s = s.client.authenticated ≡ true → s.read_loops ≢ 0 ⊎ (s.client.done ≡ true)

module _ {E L W : Type 0} (closing : Closing E L W) where
  closed_stays :
      (cs : List (Call L W)) (s s' : Life L W)
      → live closing cs s ≡ some s'
      → s.server.done ≡ true
      → s'.server.done ≡ true
  closed_stays cs s s' e closed =
      live_keeps closing (λ t. t.server.done ≡ true) (λ t h. refl) (λ l w t h. h) (λ l t h. refl)
        (λ n t h. h) cs s s' e closed

  -- A bridge that was running when it was stopped, and runs again after any further calls, panics
  -- when it is stopped again.
  pub restarted_panics :
      (cs : List (Call L W)) (s s' : Life L W)
      → s.running ≡ true
      → live closing (stops ∷ cs) s ≡ some s'
      → s'.running ≡ true
      → step closing stops s' ≡ none
  unfolding live
  restarted_panics cs s s' on e again = elim (Bool-cases s.server.done) [
    | inl closed ↦
        let bad : none ≡ some s' = rw (live, stop-unusable closing s on closed) at e in cc
    | inr usable ↦
        let rest : live closing cs (after_stop closing s) ≡ some s' =
          rw (live, stop-usable closing s on usable) at e in
        stop-unusable closing s' again (closed_stays cs (after_stop closing s) s' rest refl)
  ]

  -- After any calls from the bridge's making, if a connection was ever made, which `authenticated`
  -- records, and no read loop is left, then the channel that `Wait` waits for is closed.
  pub wait_ends :
      (cipher : Cipher) (url password : Bytes) (cs : List (Call L W)) (s : Life L W)
      → live closing cs (new_life (new_client cipher url password)) ≡ some s
      → s.client.authenticated ≡ true
      → s.read_loops ≡ 0
      → s.client.done ≡ true
  unfolding new_client
  wait_ends cipher url password cs s e connected ended =
      elim (live_keeps closing IsWatched on_stop (λ l w t h on. inl (λ z. omega arith)) (λ l t h. h)
        (λ n t h on. inr refl) cs (new_life (new_client cipher url password)) s e (λ on. cc)
        connected) [ inl more ↦ absurd (more ended) | inr done ↦ done ]
    where
      on_stop : (t : Life L W) → IsWatched t → IsWatched (after_stop closing t)
      on_stop t h on =
          let keeps = close-keeps closing t.client in
          elim (h (let k = keeps.1 in cc)) [
            | inl more ↦ inl more
            | inr done ↦ inr (let k = keeps.0 in cc)
          ]
