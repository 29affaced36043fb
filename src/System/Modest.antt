-- ===== src/System/Modest.antt =====
-- The whole program when no client asks for a negative count of lines: it never ends.
use mathlib.Core.Path.{subst}
use erssi_lith_bridge.Base.{
  ℕ, ◌≡◌, ◌≢◌, refl, sym, inl, inr, true, List, [], ◌∷◌, ◌++◌, map, Option, none, some, All,
  All-append, All-pick,
}
use erssi_lith_bridge.Bridge.State.{Bridge, Effect, broadcast, reply, to_erssi, crash}
use erssi_lith_bridge.Bridge.Events.{Event, from_erssi, from_client, resumes, handle, rest_of}
use erssi_lith_bridge.Bridge.Handlers.{Rest, left}
use erssi_lith_bridge.Bridge.Safety.{HasCount, IsSafe, quiet, handle-quiet}
use erssi_lith_bridge.Weechat.Command.{Command}
use erssi_lith_bridge.Weechat.Session.{handle_command}
use erssi_lith_bridge.System.State.{System, task_of, take_line, run_task, deliver}
use erssi_lith_bridge.System.Steps.{
  World, Step, accepts, reads_line, ends, receives, breaks, runs, sends, Reach, start, next,
}
use erssi_lith_bridge.System.Panics.{HasCrash, HasBroken, goes_on, sends-deliver}

-- No command that is handed on has a second word that asks for a negative count.
abbrev AsksModestly : List Command → Type 0
AsksModestly = All (λ (c : Command). HasCount c.args)

abbrev pub IsModestStep : {E W : Type 0} {v : World E W} {s t : System W} → Step v s t → Type 0
IsModestStep {v = v} (reads_line k p line random found there) =
    AsksModestly (handle_command v.write random line p.client).2
IsModestStep (breaks f bad) = ⊥
IsModestStep _ = Unit

-- The lines of clients that were read on the way to a state.
abbrev pub IsModest : {E W : Type 0} {v : World E W} {s : System W} → Reach v s → Type 0
IsModest start = Unit
IsModest (next reached running step) = IsModest reached × IsModestStep step

abbrev SafeTask : Option ℕ × Event → Type 0
SafeTask t = IsSafe t.1

abbrev QuietSend : Option ℕ × Effect → Type 0
QuietSend t = t.1 ≢ crash

record IsCalm {W : Type 0} (s : System W) : Type 0 where
  tasks : All SafeTask s.tasks
  sends : All QuietSend s.sends

SafeTask-commands :
    (k : ℕ) (cs : List Command) → AsksModestly cs → All SafeTask (map (task_of k) cs)
SafeTask-commands k [] h = tt
SafeTask-commands k (c ∷ cs) h = (h.0, SafeTask-commands k cs h.1)

QuietSend-effects :
    (o : Option ℕ) (es : List Effect)
    → quiet es ≡ true
    → All QuietSend (map (λ (f : Effect). (o, f)) es)
unfolding quiet
QuietSend-effects o [] h = tt
QuietSend-effects o (broadcast m ∷ es) h = ((λ e. cc), QuietSend-effects o es h)
QuietSend-effects o (reply m ∷ es) h = ((λ e. cc), QuietSend-effects o es h)
QuietSend-effects o (to_erssi m ∷ es) h = ((λ e. cc), QuietSend-effects o es h)
QuietSend-effects o (crash ∷ es) h = absurd (cc)

SafeTask-rest :
    (o : Option ℕ) (rs : List Rest) → All SafeTask (map (λ (e : Event). (o, e)) (map resumes rs))
SafeTask-rest o [] = tt
SafeTask-rest o (r ∷ rs) = (tt, SafeTask-rest o rs)

SafeTask-rest_of :
    (o : Option ℕ) (e : Event) (b : Bridge)
    → All SafeTask (map (λ (e : Event). (o, e)) (rest_of e b))
unfolding rest_of
SafeTask-rest_of o (from_erssi msg) b = SafeTask-rest o (left msg.type msg b)
SafeTask-rest_of o (from_client id cmd args) b = tt
SafeTask-rest_of o (resumes r) b = tt

module _ {E W : Type 0} (v : World E W) where
  pub tasks-deliver :
      (o : Option ℕ) (f : Effect) (s : System W) → (deliver v.write o f s).tasks ≡ s.tasks
  unfolding deliver
  tasks-deliver none (broadcast m) s = refl
  tasks-deliver (some k) (broadcast m) s = refl
  tasks-deliver none (reply m) s = refl
  tasks-deliver (some k) (reply m) s = refl
  tasks-deliver none (to_erssi m) s = refl
  tasks-deliver (some k) (to_erssi m) s = refl
  tasks-deliver none crash s = refl
  tasks-deliver (some k) crash s = refl

  Step-IsCalm : (s t : System W) (step : Step v s t) → IsModestStep step → IsCalm s → IsCalm t
  unfolding take_line run_task
  Step-IsCalm s t accepts m h = record { tasks = h.tasks; sends = h.sends }
  Step-IsCalm s t (reads_line k p line random found there) m h = record {
    tasks = All-append SafeTask s.tasks _ h.tasks (SafeTask-commands k _ m);
    sends = h.sends;
  }
  Step-IsCalm s t (ends k p found there) m h = record { tasks = h.tasks; sends = h.sends }
  Step-IsCalm s t (receives f msg read) m h = record {
    tasks = All-append SafeTask s.tasks _ h.tasks (tt, tt);
    sends = h.sends;
  }
  Step-IsCalm s t (breaks f bad) m h = absurd m
  Step-IsCalm s t (runs before after o e waiting) m h =
      let (safe, rest) =
        All-pick SafeTask before after (o, e)
          (subst (λ (xs : List (Option ℕ × Event)). All SafeTask xs) waiting h.tasks) in
      record {
        tasks = All-append SafeTask (before ++ after) _ rest (SafeTask-rest_of o e s.bridge);
        sends = All-append QuietSend s.sends _ h.sends (
            QuietSend-effects o (handle v.host e s.bridge).1 (handle-quiet v.host e s.bridge safe));
      }
  Step-IsCalm s t (sends before after o f waiting) m h =
      let all = λ (xs : List (Option ℕ × Effect)). All QuietSend xs in
      let s' = record s { sends = before ++ after } in
      let rest = (All-pick QuietSend before after (o, f) (subst all waiting h.sends)).1 in
      record {
        tasks =
            subst (λ (xs : List (Option ℕ × Event)). All SafeTask xs) (sym (tasks-deliver o f s'))
              h.tasks;
        sends = subst all (sym (sends-deliver v o f s')) rest;
      }

  Reach-IsCalm : (s : System W) (reached : Reach v s) → IsModest reached → IsCalm s
  Reach-IsCalm s start m = record { tasks = tt; sends = tt }
  Reach-IsCalm s (next {s = r} reached running step) m =
      Step-IsCalm r s step m.1 (Reach-IsCalm r reached m.0)

  IsCalm-ne-crash : (s : System W) → IsCalm s → ¬ HasCrash s
  IsCalm-ne-crash s h (before, after, o, waiting) =
      (All-pick QuietSend before after (o, crash)
          (subst (λ (xs : List (Option ℕ × Effect)). All QuietSend xs) waiting h.sends)).0
        refl

  unbroken : {s t : System W} (step : Step v s t) → IsModestStep step → ¬ HasBroken step
  unbroken accepts m = λ h. h
  unbroken (reads_line k p line random found there) m = λ h. h
  unbroken (ends k p found there) m = λ h. h
  unbroken (receives f msg read) m = λ h. h
  unbroken (breaks f bad) m = absurd m
  unbroken (runs before after o e waiting) m = λ h. h
  unbroken (sends before after o f waiting) m = λ h. h

  -- If no line of a client on the way hands on a command whose second word asks for a negative count
  -- of lines, and no frame of erssi's on the way is one at which the read loop panics, as it does at the
  -- JSON text `null`, then the program is still running: whatever else the clients and erssi send,
  -- whatever the connections do and in whatever order the goroutines run.
  pub modest-running : (s : System W) (reached : Reach v s) → IsModest reached → s.running ≡ true
  modest-running s start m = refl
  modest-running s (next {s = r} reached running step) m =
      elim (goes_on v r s reached running step) [
        | inl on ↦ on
        | inr (inl crashed) ↦ absurd (IsCalm-ne-crash r (Reach-IsCalm r reached m.0) crashed)
        | inr (inr broken) ↦ absurd (unbroken step m.1 broken)
      ]
