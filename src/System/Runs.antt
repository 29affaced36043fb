-- ===== src/System/Runs.antt =====
-- The concurrent program does to the bridge what a run of its handlers, one after the other, does.
use erssi_lith_bridge.Base.{
  ℕ, ◌+◌, ◌≤◌, ◌≡◌, refl, sym, ap, ◌∙◌, List, [], ◌∷◌, ◌++◌, map, Option, none, some, arith,
}
use erssi_lith_bridge.Erssi.Types.{WebMessage}
use erssi_lith_bridge.Translator.State.{Host}
use erssi_lith_bridge.Bridge.State.{Bridge, Effect, broadcast, reply, to_erssi, crash, new_bridge}
use erssi_lith_bridge.Bridge.Events.{Event, handle, run}
use erssi_lith_bridge.Bridge.Asked.{
  asks, asks_dump, dump_requests, dump_requests-append, run-asks_once,
}
use erssi_lith_bridge.System.State.{System, take_line, run_task, deliver}
use erssi_lith_bridge.System.Steps.{
  World, Step, accepts, reads_line, ends, receives, breaks, runs, sends, Reach, start, next,
}

module _ (h : Host) where
  -- One more event at the end of a run.
  pub bridge-run_snoc :
      (es : List Event) (e : Event) (b : Bridge)
      → (run h (es ++ (e ∷ [])) b).0 ≡ (handle h e (run h es b).0).0
  unfolding run
  bridge-run_snoc [] e b = refl
  bridge-run_snoc (d ∷ es) e b = bridge-run_snoc es e (handle h d b).0

  requests-run_snoc :
      (es : List Event) (e : Event) (b : Bridge)
      → dump_requests (run h (es ++ (e ∷ [])) b).1
        ≡ dump_requests (run h es b).1 + dump_requests (handle h e (run h es b).0).1
  unfolding run dump_requests
  requests-run_snoc [] e b = omega (arith, dump_requests-append (handle h e b).1 [])
  requests-run_snoc (d ∷ es) e b = omega (
    arith,
    requests-run_snoc es e (handle h d b).0,
    dump_requests-append (handle h d b).1 (run h (es ++ (e ∷ [])) (handle h d b).0).1,
    dump_requests-append (handle h d b).1 (run h es (handle h d b).0).1,
  )

-- How many of the messages to erssi ask for its state.
unfoldable pub sent_requests : List WebMessage → ℕ
sent_requests [] = 0
sent_requests (m ∷ ms) = asks m.type + sent_requests ms

sent_requests_snoc :
    (ms : List WebMessage) (m : WebMessage)
    → sent_requests (ms ++ (m ∷ [])) ≡ sent_requests ms + asks m.type
unfolding sent_requests
sent_requests_snoc [] m = omega arith
sent_requests_snoc (n ∷ ms) m = omega (arith, sent_requests_snoc ms m)

unfoldable pub waiting_requests : List (Option ℕ × Effect) → ℕ
waiting_requests [] = 0
waiting_requests ((o, f) ∷ ws) = asks_dump f + waiting_requests ws

waiting_requests-append :
    (xs ys : List (Option ℕ × Effect))
    → waiting_requests (xs ++ ys) ≡ waiting_requests xs + waiting_requests ys
unfolding waiting_requests
waiting_requests-append [] ys = omega arith
waiting_requests-append ((o, f) ∷ xs) ys = omega (arith, waiting_requests-append xs ys)

waiting_requests-map :
    (o : Option ℕ) (out : List Effect)
    → waiting_requests (map (λ (f : Effect). (o, f)) out) ≡ dump_requests out
unfolding waiting_requests dump_requests
waiting_requests-map o [] = refl
waiting_requests-map o (f ∷ out) = omega (arith, waiting_requests-map o out)

-- The bridge is where a run of events leaves it, and the requests of the run were sent or wait.
pub record FollowsRun (h : Host) (b : Bridge) (requests : ℕ) : Type 0 where
  pub events : List Event
  pub bridge : b ≡ (run h events new_bridge).0
  pub requested : requests ≡ dump_requests (run h events new_bridge).1

abbrev total : {W : Type 0} → System W → ℕ
total s = sent_requests s.sent + waiting_requests s.sends

total-deliver :
    {E W : Type 0} (v : World E W) (o : Option ℕ) (f : Effect) (s : System W)
    → sent_requests (deliver v.write o f s).sent + waiting_requests (deliver v.write o f s).sends
      ≡ total s + asks_dump f
unfolding deliver
total-deliver v o (broadcast msg) s = omega arith
total-deliver v (some k) (reply msg) s = omega arith
total-deliver v none (reply msg) s = omega arith
total-deliver v o (to_erssi msg) s = omega (arith, sent_requests_snoc s.sent msg)
total-deliver v o crash s = omega arith

pub bridge-deliver :
    {E W : Type 0} (v : World E W) (o : Option ℕ) (f : Effect) (s : System W)
    → (deliver v.write o f s).bridge ≡ s.bridge
unfolding deliver
bridge-deliver v o (broadcast msg) s = refl
bridge-deliver v (some k) (reply msg) s = refl
bridge-deliver v none (reply msg) s = refl
bridge-deliver v o (to_erssi msg) s = refl
bridge-deliver v o crash s = refl

module _ {E W : Type 0} (v : World E W) where
  sends_total :
      (before after : List (Option ℕ × Effect)) (o : Option ℕ) (f : Effect) (s : System W)
      → s.sends ≡ before ++ ((o, f) ∷ after)
      → total (deliver v.write o f (record s { sends = before ++ after })) ≡ total s
  unfolding waiting_requests
  sends_total before after o f s waiting =
      let all : waiting_requests s.sends ≡ waiting_requests (before ++ ((o, f) ∷ after)) =
        ap waiting_requests waiting in
      omega (
        arith,
        all,
        total-deliver v o f (record s { sends = before ++ after }),
        waiting_requests-append before ((o, f) ∷ after),
        waiting_requests-append before after,
      )

  run_task-FollowsRun :
      (o : Option ℕ) (e : Event) (others : List (Option ℕ × Event)) (s : System W)
      → FollowsRun v.host s.bridge (total s)
      → FollowsRun v.host
          (run_task v.host o e others s).bridge
          (total (run_task v.host o e others s))
  unfolding run_task
  run_task-FollowsRun o e others s r =
      let out = (handle v.host e s.bridge).1 in
      let same : dump_requests out
          ≡ dump_requests (handle v.host e (run v.host r.events new_bridge).0).1 =
        ap (λ b. dump_requests (handle v.host e b).1) r.bridge in
      record {
        events = r.events ++ (e ∷ []);
        bridge =
            ap (λ b. (handle v.host e b).0) r.bridge
            ∙ sym (bridge-run_snoc v.host r.events e new_bridge);
        requested =
            let old = r.requested in
            omega (
              arith,
              old,
              same,
              waiting_requests-append s.sends (map (λ (f : Effect). (o, f)) out),
              waiting_requests-map o out,
              requests-run_snoc v.host r.events e new_bridge,
            );
      }

  Step-FollowsRun :
      (s t : System W)
      → Step v s t
      → FollowsRun v.host s.bridge (total s)
      → FollowsRun v.host t.bridge (total t)
  unfolding take_line
  Step-FollowsRun s t accepts r = r
  Step-FollowsRun s t (reads_line k p line random found there) r = r
  Step-FollowsRun s t (ends k p found there) r = r
  Step-FollowsRun s t (receives f m read) r = r
  Step-FollowsRun s t (breaks f bad) r = r
  Step-FollowsRun s t (runs before after o e waiting) r =
      run_task-FollowsRun o e (before ++ after) s r
  Step-FollowsRun s t (sends before after o f waiting) r = record {
    events = r.events;
    bridge = bridge-deliver v o f (record s { sends = before ++ after }) ∙ r.bridge;
    requested = sends_total before after o f s waiting ∙ r.requested;
  }

  -- In whatever order the goroutines run, the bridge is where some run of its handlers, one after the
  -- other from its start, leaves it, and the requests for erssi's state that this run makes are those
  -- that were sent or wait to be sent.
  pub Reach-FollowsRun :
      (s : System W)
      → Reach v s
      → FollowsRun v.host s.bridge (sent_requests s.sent + waiting_requests s.sends)
  unfolding sent_requests waiting_requests run dump_requests
  Reach-FollowsRun s start = record { events = []; bridge = refl; requested = refl }
  Reach-FollowsRun s (next {s = r} reached running step) =
      Step-FollowsRun r s step (Reach-FollowsRun r reached)

  -- In every state that the program can reach, the requests for erssi's state that were sent and those
  -- that wait to be sent are together at most one.
  pub Reach-asked_once :
      (s : System W) → Reach v s → sent_requests s.sent + waiting_requests s.sends ≤ 1
  Reach-asked_once s reached =
      let r = Reach-FollowsRun s reached in
      let requested = r.requested in omega (arith, run-asks_once v.host r.events, requested)
