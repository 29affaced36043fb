-- ===== src/Bridge/Sessions.antt =====
-- internal/bridge/bridge.go: what holds of a bridge that is started and stopped in any order.
use erssi_lith_bridge.Base.{
  ℕ, zero, suc, ◌+◌, ◌≤◌, ◌≡◌, ◌≢◌, refl, ◌∙◌, inl, inr, true, false, List, [], ◌∷◌, Option, none,
  some, Bytes, arith, Bool-cases,
}
use erssi_lith_bridge.Erssi.Crypto.{Cipher}
use erssi_lith_bridge.Erssi.Client.{new_client, read_loop_ends}
use erssi_lith_bridge.Bridge.Lifecycle.{
  Life, Call, starts, stops, loop_ends, Closing, end_loop, step, live,
}
use erssi_lith_bridge.Bridge.Calls.{
  new_life, close-keeps, after_stop, stop-usable, stop-off, refused, after_start, started_lem,
  after_refusal, unconnected,
}

-- How many starts of a run find the port free.
unfoldable pub listens : {L W : Type 0} → List (Call L W) → ℕ
listens [] = 0
listens (starts none w ∷ cs) = listens cs
listens (starts (some l) w ∷ cs) = listens cs + 1
listens (stops ∷ cs) = listens cs
listens (loop_ends ∷ cs) = listens cs

-- No channel is closed, and nothing runs.
record IsFresh {L W : Type 0} (s : Life L W) : Type 0 where
  stopped : s.running ≡ false
  usable : s.server.done ≡ false
  undone : s.client.done ≡ false
  loops : s.read_loops ≡ 0

-- Neither channel can be closed a second time, unless the server is started again.
record IsSafe {L W : Type 0} (s : Life L W) : Type 0 where
  usable : s.running ≡ true → s.server.done ≡ false
  undone : s.read_loops ≢ 0 → s.client.done ≡ false
  loops : s.read_loops ≤ 1

fresh-IsSafe : {L W : Type 0} (s : Life L W) → IsFresh s → IsSafe s
fresh-IsSafe s f = record {
  usable = λ on. f.usable;
  undone = λ some_loop. f.undone;
  loops = let z = f.loops in omega arith;
}

module _ {E L W : Type 0} (closing : Closing E L W) where
  -- The call does not panic, and leaves a state of which `P` holds.
  abbrev Goes : (Life L W → Type 0) → Call L W → Life L W → Type 0
  Goes P c s = (s' : Life L W) × (step closing c s ≡ some s') × P s'

  stop-IsSafe : (s : Life L W) → IsSafe s → Goes IsSafe stops s
  stop-IsSafe s h = elim (Bool-cases s.running) [
    | inl on ↦ (
      after_stop closing s,
      stop-usable closing s on (h.usable on),
      record {
        usable = λ e. cc;
        undone = λ n. (close-keeps closing s.client).0 ∙ h.undone n;
        loops = h.loops;
      },
    )
    | inr off ↦ (s, stop-off closing s off, h)
  ]

  end_loop-IsSafe :
      (n : ℕ) (s : Life L W)
      → s.read_loops ≡ n
      → IsSafe s
      → (s' : Life L W) × (end_loop n s ≡ some s') × IsSafe s'
  unfolding end_loop read_loop_ends
  end_loop-IsSafe zero s e h = (s, refl, h)
  end_loop-IsSafe (suc n) s e h =
      let loops = h.loops in
      let undone = h.undone (λ z. omega arith) in
      (
        record s { client = record s.client { done = true }; read_loops = n },
        rw undone refl,
        record {
          usable = h.usable;
          undone = λ more. absurd (more (omega arith));
          loops = omega arith;
        },
      )

  start-IsSafe :
      (l : L) (w : Option W) (s : Life L W) → IsFresh s → Goes IsSafe (starts (some l) w) s
  start-IsSafe l (some w) s h = (
    after_start l w s,
    started_lem closing l w s h.stopped,
    record {
      usable = λ on. h.usable;
      undone = λ n. h.undone;
      loops = let z = h.loops in omega arith;
    },
  )
  start-IsSafe l none s h = (
    after_refusal l s,
    unconnected closing l s h.stopped h.usable,
    record {
      usable = λ on. let off = h.stopped in cc;
      undone = λ n. h.undone;
      loops = let z = h.loops in omega arith;
    },
  )

  Goes-live :
      (P : Life L W → Type 0) (c : Call L W) (cs : List (Call L W)) (s : Life L W)
      → Goes P c s
      → ((s' : Life L W) → P s' → (t : Life L W) × (live closing cs s' ≡ some t))
      → (t : Life L W) × (live closing (c ∷ cs) s ≡ some t)
  unfolding live
  Goes-live P c cs s (s', e, p) rest = let (t, r) = rest s' p in (t, rw (live, e) r)

  safe_live :
      (cs : List (Call L W)) (s : Life L W)
      → IsSafe s
      → listens cs ≡ 0
      → (t : Life L W) × (live closing cs s ≡ some t)
  unfolding live listens
  safe_live [] s h none_open = (s, refl)
  safe_live (stops ∷ cs) s h none_open =
      Goes-live IsSafe stops cs s (stop-IsSafe s h) (λ s' h'. safe_live cs s' h' none_open)
  safe_live (loop_ends ∷ cs) s h none_open =
      Goes-live IsSafe loop_ends cs s (end_loop-IsSafe s.read_loops s refl h)
        (λ s' h'. safe_live cs s' h' none_open)
  safe_live (starts none w ∷ cs) s h none_open =
      Goes-live IsSafe (starts none w) cs s (s, refused closing w s, h)
        (λ s' h'. safe_live cs s' h' none_open)
  safe_live (starts (some l) w ∷ cs) s h none_open = absurd (omega arith)

  no_loop : (n : ℕ) (s : Life L W) → s.read_loops ≡ n → n ≡ 0 → step closing loop_ends s ≡ some s
  unfolding step end_loop
  no_loop zero s e z = rw (step, e) refl
  no_loop (suc n) s e z = absurd (omega arith)

  fresh_live :
      (cs : List (Call L W)) (s : Life L W)
      → IsFresh s
      → listens cs ≤ 1
      → (t : Life L W) × (live closing cs s ≡ some t)
  unfolding live listens
  fresh_live [] s h once = (s, refl)
  fresh_live (stops ∷ cs) s h once =
      Goes-live IsFresh stops cs s (s, stop-off closing s h.stopped, h)
        (λ s' h'. fresh_live cs s' h' once)
  fresh_live (loop_ends ∷ cs) s h once =
      Goes-live IsFresh loop_ends cs s (s, no_loop s.read_loops s refl h.loops, h)
        (λ s' h'. fresh_live cs s' h' once)
  fresh_live (starts none w ∷ cs) s h once =
      Goes-live IsFresh (starts none w) cs s (s, refused closing w s, h)
        (λ s' h'. fresh_live cs s' h' once)
  fresh_live (starts (some l) w ∷ cs) s h once =
      Goes-live IsSafe (starts (some l) w) cs s (start-IsSafe l w s h)
        (λ s' h'. safe_live cs s' h' (omega arith))

  -- A new bridge on which the port is found free at most once does not panic, in whatever order it is
  -- started and stopped and its read loop ends, and whatever fails.
  pub one_session_survives :
      (cipher : Cipher) (url password : Bytes) (cs : List (Call L W))
      → listens cs ≤ 1
      → (t : Life L W) × (live closing cs (new_life (new_client cipher url password)) ≡ some t)
  unfolding new_client
  one_session_survives cipher url password cs once =
      fresh_live cs (new_life (new_client cipher url password))
        (record { stopped = refl; usable = refl; undone = refl; loops = refl }) once
