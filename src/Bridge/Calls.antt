-- ===== src/Bridge/Calls.antt =====
-- internal/bridge/bridge.go: what a call of `Start` or `Stop` does, and the end of a read loop.
use mathlib.Core.Path.{subst}
use erssi_lith_bridge.Base.{
  ℕ, zero, suc, ◌+◌, ◌≡◌, refl, ◌⊎◌, inl, inr, true, false, List, [], ◌∷◌, Option, none, some, ok,
  err, Option-cases, Bool-cases,
}
use erssi_lith_bridge.Erssi.Client.{Client, connect, close, read_loop_ends}
use erssi_lith_bridge.Weechat.Listening.{new_server, start_server, close_server, closed_listener}
use erssi_lith_bridge.Bridge.Lifecycle.{
  Life, Call, starts, stops, loop_ends, Closing, after_connect, after_failure, after_close,
  after_listen, start, stop, end_loop, step, live,
}

-- A bridge that was made and not started yet.
abbrev pub new_life : {L W : Type 0} → Client W → Life L W
new_life c = record { running = false; client = c; server = new_server; read_loops = 0 }

-- What a start leaves, with a connection and without one, and what the end of a loop leaves.
module _ {L W : Type 0} where
  abbrev pub after_start : L → W → Life L W → Life L W
  after_start l w s = record s {
    running = true;
    client = record s.client { conn = some w; authenticated = true };
    server = record s.server { listener = some l };
    read_loops = s.read_loops + 1;
  }

  abbrev pub after_refusal : L → Life L W → Life L W
  after_refusal l s = record s { server = record { listener = some l; done = true } }

  abbrev pub after_loop : ℕ → Life L W → Life L W
  after_loop n s = record s { client = record s.client { done = true }; read_loops = n }

pub closed-cases :
    {E L : Type 0} (f : L → Option E) (o : Option L)
    → (closed_listener f o ≡ ok tt) ⊎ ((e : E) × (closed_listener f o ≡ err e))
unfolding closed_listener
closed-cases f none = inl refl
closed-cases f (some l) = elim (Option-cases (f l)) [
  | inl good ↦ rw (closed_listener, good) (inl refl)
  | inr (e, bad) ↦ rw (closed_listener, bad) (inr (e, refl))
]

module _ {E L W : Type 0} (closing : Closing E L W) where
  pub close-keeps :
      (c : Client W)
      → ((close closing.write_close closing.close_conn c).1.done ≡ c.done)
        × ((close closing.write_close closing.close_conn c).1.authenticated ≡ c.authenticated)
  unfolding close
  close-keeps c = elim (Option-cases c.conn) [
    | inl gone ↦ rw (close, gone) (refl, refl)
    | inr (w, there) ↦ rw (close, there) (refl, refl)
  ]

  abbrev pub after_stop : Life L W → Life L W
  after_stop s = record s {
    running = false;
    client = (close closing.write_close closing.close_conn s.client).1;
    server = record s.server { done = true };
  }

  -- `Stop` with the channel of the server open.
  pub stop-usable :
      (s : Life L W)
      → s.running ≡ true
      → s.server.done ≡ false
      → step closing stops s ≡ some (after_stop s)
  unfolding step stop after_close close_server
  stop-usable s on usable = elim (closed-cases closing.close_listener s.server.listener) [
    | inl good ↦ rw (step, stop, on, close_server, usable, good) refl
    | inr (e, bad) ↦ rw (step, stop, on, close_server, usable, bad) refl
  ]

  pub stop-unusable :
      (s : Life L W) → s.running ≡ true → s.server.done ≡ true → step closing stops s ≡ none
  unfolding step stop after_close close_server
  stop-unusable s on closed = rw (step, stop, on, close_server, closed) refl

  pub stop-off : (s : Life L W) → s.running ≡ false → step closing stops s ≡ some s
  unfolding step stop
  stop-off s off = rw (step, stop, off) refl

  -- A start that finds the port taken.
  pub refused : (w : Option W) (s : Life L W) → step closing (starts none w) s ≡ some s
  unfolding step start after_listen start_server
  refused w s = elim (Bool-cases s.running) [
    | inl on ↦ rw (step, start, on) refl
    | inr off ↦ rw (step, start, off) refl
  ]

  pub started_lem :
      (l : L) (w : W) (s : Life L W)
      → s.running ≡ false
      → step closing (starts (some l) (some w)) s ≡ some (after_start l w s)
  unfolding step start after_listen start_server after_connect connect
  started_lem l w s off = rw (step, start, off) refl

  pub unconnected :
      (l : L) (s : Life L W)
      → s.running ≡ false
      → s.server.done ≡ false
      → step closing (starts (some l) none) s ≡ some (after_refusal l s)
  unfolding step start after_listen start_server after_connect connect after_failure close_server
  unconnected l s off usable = elim (closed-cases closing.close_listener (some l)) [
    | inl good ↦ rw (step, start, off, close_server, usable, good) refl
    | inr (e, bad) ↦ rw (step, start, off, close_server, usable, bad) refl
  ]

  -- A start that finds the port free but no erssi, when the server was closed before.
  pub unconnected-unusable :
      (l : L) (s : Life L W)
      → s.running ≡ false
      → s.server.done ≡ true
      → step closing (starts (some l) none) s ≡ none
  unfolding step start after_listen start_server after_connect connect after_failure close_server
  unconnected-unusable l s off closed = rw (step, start, off, close_server, closed) refl

  pub start-on :
      (l : Option L) (w : Option W) (s : Life L W)
      → s.running ≡ true
      → step closing (starts l w) s ≡ some s
  unfolding step start
  start-on l w s on = rw (step, start, on) refl

  moved :
      {x : Option (Life L W)} {t s' : Life L W} (P : Life L W → Type 0)
      → x ≡ some t
      → x ≡ some s'
      → P t
      → P s'
  moved {t = t} {s' = s'} P a b h = let same : t ≡ s' = cc in subst P same h

  end_loop_keeps :
      (P : Life L W → Type 0)
      → ((n : ℕ) (s : Life L W) → P s → P (after_loop n s))
      → (n : ℕ) (s s' : Life L W) → end_loop n s ≡ some s'
      → P s
      → P s'
  unfolding end_loop read_loop_ends
  end_loop_keeps P on_loop zero s s' e h = let same : s ≡ s' = cc in subst P same h
  end_loop_keeps P on_loop (suc n) s s' e h = elim (Bool-cases s.client.done) [
    | inl closed ↦ let bad : none ≡ some s' = rw closed at e in cc
    | inr undone ↦
        let good : some (after_loop n s) ≡ some s' = rw undone at e in
        moved P refl good (on_loop n s h)
  ]

  -- What holds before a call that does not panic, and is kept by each of its changes, holds after it.
  pub step_keeps :
      (P : Life L W → Type 0)
      → ((s : Life L W) → P s → P (after_stop s))
      → ((l : L) (w : W) (s : Life L W) → P s → P (after_start l w s))
      → ((l : L) (s : Life L W) → P s → P (after_refusal l s))
      → ((n : ℕ) (s : Life L W) → P s → P (after_loop n s))
      → (c : Call L W) (s s' : Life L W) → step closing c s ≡ some s'
      → P s
      → P s'
  unfolding step end_loop
  step_keeps P on_stop on_start on_refusal on_loop stops s s' e h = elim (Bool-cases s.running) [
    | inl on ↦ elim (Bool-cases s.server.done) [
      | inl closed ↦ let bad = stop-unusable s on closed in cc
      | inr usable ↦ moved P (stop-usable s on usable) e (on_stop s h)
    ]
    | inr off ↦ moved P (stop-off s off) e h
  ]
  step_keeps P on_stop on_start on_refusal on_loop loop_ends s s' e h =
      end_loop_keeps P on_loop s.read_loops s s' e h
  step_keeps P on_stop on_start on_refusal on_loop (starts none w) s s' e h =
      moved P (refused w s) e h
  step_keeps P on_stop on_start on_refusal on_loop (starts (some l) none) s s' e h =
      elim (Bool-cases s.running) [
        | inl on ↦ moved P (start-on (some l) none s on) e h
        | inr off ↦ elim (Bool-cases s.server.done) [
          | inl closed ↦ let bad = unconnected-unusable l s off closed in cc
          | inr usable ↦ moved P (unconnected l s off usable) e (on_refusal l s h)
        ]
      ]
  step_keeps P on_stop on_start on_refusal on_loop (starts (some l) (some w)) s s' e h =
      elim (Bool-cases s.running) [
        | inl on ↦ moved P (start-on (some l) (some w) s on) e h
        | inr off ↦ moved P (started_lem l w s off) e (on_start l w s h)
      ]

  -- The same for a run of calls.
  pub live_keeps :
      (P : Life L W → Type 0)
      → ((s : Life L W) → P s → P (after_stop s))
      → ((l : L) (w : W) (s : Life L W) → P s → P (after_start l w s))
      → ((l : L) (s : Life L W) → P s → P (after_refusal l s))
      → ((n : ℕ) (s : Life L W) → P s → P (after_loop n s))
      → (cs : List (Call L W)) (s s' : Life L W) → live closing cs s ≡ some s'
      → P s
      → P s'
  unfolding live
  live_keeps P on_stop on_start on_refusal on_loop [] s s' e h =
      let same : s ≡ s' = cc in subst P same h
  live_keeps P on_stop on_start on_refusal on_loop (c ∷ cs) s s' e h =
      elim (Option-cases (step closing c s)) [
        | inl bad ↦ let r : none ≡ some s' = rw (live, bad) at e in cc
        | inr (t, good) ↦
            let r : live closing cs t ≡ some s' = rw (live, good) at e in
            live_keeps P on_stop on_start on_refusal on_loop cs t s' r
              (step_keeps P on_stop on_start on_refusal on_loop c s t good h)
      ]
