-- ===== src/System/Draining.antt =====
-- What waits in the program can be done.
use erssi_lith_bridge.Base.{
  ℕ, ◌≡◌, refl, sym, ap, ◌∙◌, true, List, [], ◌∷◌, ◌++◌, append-nil, map, Option,
}
use erssi_lith_bridge.Bridge.State.{Bridge, Effect}
use erssi_lith_bridge.Bridge.Handlers.{Rest, left}
use erssi_lith_bridge.Bridge.Events.{
  Event, from_erssi, from_client, resumes, rest_of, run, run_whole,
}
use erssi_lith_bridge.System.State.{System, run_task, deliver}
use erssi_lith_bridge.System.Steps.{
  World, Step, accepts, reads_line, ends, receives, breaks, runs, sends, Reach, next,
}
use erssi_lith_bridge.System.Panics.{sends-deliver}
use erssi_lith_bridge.System.Runs.{bridge-deliver}
use erssi_lith_bridge.System.Modest.{IsModest, tasks-deliver, modest-running}

-- Nothing comes from outside in the step.
abbrev pub IsInner : {E W : Type 0} {v : World E W} {s t : System W} → Step v s t → Type 0
IsInner accepts = ⊥
IsInner (reads_line k p line random found there) = ⊥
IsInner (ends k p found there) = ⊥
IsInner (receives f m read) = ⊥
IsInner (breaks f bad) = ⊥
IsInner (runs before after o e waiting) = Unit
IsInner (sends before after o f waiting) = Unit

-- The program gets by itself to state t.
pub data Works {E W : Type 0} (v : World E W) (t : System W) : System W → Type 0 where
  rests : Works v t t
  works : {s u : System W} (step : Step v s u) → IsInner step → Works v t u → Works v t s

-- The events of the handlers that wait.
abbrev pub events_of : List (Option ℕ × Event) → List Event
events_of ts = map (λ (t : Option ℕ × Event). t.1) ts

-- It gets to a state in which nothing waits and the bridge is b.
abbrev Empties : {E W : Type 0} → World E W → Bridge → System W → Type 0
Empties {W = W} v b s =
    (t : System W) × Works v t s
    × (t.tasks ≡ [])
    × (t.sends ≡ [])
    × (t.bridge ≡ b)
    × (t.running ≡ true)

-- The bridge is then where the events leave it, each handled to its end before the next.
abbrev pub Drains : {E W : Type 0} → World E W → List Event → System W → Type 0
Drains v es s = Empties v (run_whole v.host es s.bridge).0 s

rest_of-resumes : (e : Event) (b : Bridge) → (rs : List Rest) × (rest_of e b ≡ map resumes rs)
unfolding rest_of
rest_of-resumes (from_erssi msg) b = (left msg.type msg b, refl)
rest_of-resumes (from_client id cmd args) b = ([], refl)
rest_of-resumes (resumes r) b = ([], refl)

Empties-works :
    {E W : Type 0} {v : World E W} (b : Bridge) {s u : System W} (step : Step v s u)
    → IsInner step
    → Empties v b u
    → Empties v b s
Empties-works b step inner (t, way, tasks, none_waits, same, on) =
    (t, works step inner way, tasks, none_waits, same, on)

module _ {E W : Type 0} (v : World E W) where
  drain_sends :
      (fs : List (Option ℕ × Effect)) (s : System W) (reached : Reach v s)
      → IsModest reached
      → s.sends ≡ fs
      → s.tasks ≡ []
      → Drains v [] s
  unfolding run_whole
  drain_sends [] s reached m e idle = (s, rests, idle, e, refl, modest-running v s reached m)
  drain_sends ((o, f) ∷ fs) s reached m e idle =
      let s' = record s { sends = fs } in
      let step : Step v s (deliver v.write o f s') = sends [] fs o f e in
      let (t, way, tasks, none_waits, same, on) =
        drain_sends fs (deliver v.write o f s') (next reached (modest-running v s reached m) step)
          (m, tt) (sends-deliver v o f s') (tasks-deliver v o f s' ∙ idle) in
      (t, works step tt way, tasks, none_waits, same ∙ bridge-deliver v o f s', on)

  -- What is left of a handler, behind other tasks, is done first.
  drain_rest :
      (rs : List Rest) (o : Option ℕ) (ts : List (Option ℕ × Event)) (b : Bridge) (s : System W)
      (reached : Reach v s)
      → IsModest reached
      → s.tasks ≡ ts ++ map (λ (e : Event). (o, e)) (map resumes rs)
      → ((s' : System W) (reached' : Reach v s')
          → IsModest reached'
          → s'.tasks ≡ ts
          → s'.bridge ≡ (run v.host (map resumes rs) s.bridge).0
          → Empties v b s')
      → Empties v b s
  unfolding run run_task rest_of
  drain_rest [] o ts b s reached m e then = then s reached m (e ∙ append-nil ts) refl
  drain_rest (r ∷ rs) o ts b s reached m e then =
      let others = ts ++ map (λ (e : Event). (o, e)) (map resumes rs) in
      let step : Step v s (run_task v.host o (resumes r) others s) =
        runs ts (map (λ (e : Event). (o, e)) (map resumes rs)) o (resumes r) e in
      Empties-works b step tt (
        drain_rest rs o ts b (run_task v.host o (resumes r) others s)
          (next reached (modest-running v s reached m) step) (m, tt) (append-nil others) then)

  drain_tasks :
      (ts : List (Option ℕ × Event)) (s : System W) (reached : Reach v s)
      → IsModest reached
      → s.tasks ≡ ts
      → Drains v (events_of ts) s
  unfolding run run_whole run_task
  drain_tasks [] s reached m e = drain_sends s.sends s reached m refl e
  drain_tasks ((o, event) ∷ ts) s reached m e =
      let s' = run_task v.host o event ts s in
      let step : Step v s s' = runs [] ts o event e in
      let (rs, left_over) = rest_of-resumes event s.bridge in
      Empties-works (run_whole v.host (event ∷ events_of ts) s.bridge).0 step tt (
        drain_rest rs o ts (run_whole v.host (event ∷ events_of ts) s.bridge).0 s'
          (next reached (modest-running v s reached m) step) (m, tt)
          (ap (λ (es : List Event). ts ++ map (λ (e : Event). (o, e)) es) left_over)
          λ u reached' m' idle at.
            let (t, way, tasks, none_waits, same, on) = drain_tasks ts u reached' m' idle in
            (
              t,
              way,
              tasks,
              none_waits,
              same
                  ∙ ap (λ (c : Bridge). (run_whole v.host (events_of ts) c).0) at
                  ∙ ap
                      (λ (es : List Event).
                        (run_whole v.host (events_of ts) (run v.host es s'.bridge).0).0)
                      (sym left_over),
              on,
            ))

  -- From every state that the program can reach it can get, with nothing more from outside, to a state
  -- in which it still runs and no handler and no send waits; and the bridge is then where the events
  -- that waited leave it, each handled to its end before the next. No line of a client on the way to
  -- the state must have handed on a command whose second word asks for a negative count of lines, no
  -- frame of erssi's must have made the read loop panic, and every write to a connection must return, be
  -- it with an error.
  pub modest-Drains :
      (s : System W) (reached : Reach v s) → IsModest reached → Drains v (events_of s.tasks) s
  modest-Drains s reached m = drain_tasks s.tasks s reached m refl
