-- ===== src/System/Traces.antt =====
-- What arrives, runs and goes out in a run of the program: the tasks that the loops of
-- internal/weechat/server.go and internal/erssi/client.go start, those that run, and the sends of
-- internal/bridge/bridge.go.
use erssi_lith_bridge.Base.{ℕ, ◌+◌, ◌≡◌, refl, List, [], ◌∷◌, ◌++◌, map, Option, none, arith}
use erssi_lith_bridge.Erssi.Types.{WebMessage}
use erssi_lith_bridge.Translator.State.{Host}
use erssi_lith_bridge.Weechat.Session.{handle_command}
use erssi_lith_bridge.Bridge.State.{Bridge, Effect, to_erssi, new_bridge}
use erssi_lith_bridge.Bridge.Events.{Event, from_erssi, handle, rest_of}
use erssi_lith_bridge.System.State.{System, task_of}
use erssi_lith_bridge.System.Steps.{
  World, Step, reads_line, receives, runs, sends, Reach, start, next,
}

unfoldable pub sum : {A : Type 0} → (A → ℕ) → List A → ℕ
sum f [] = 0
sum f (x ∷ xs) = f x + sum f xs

pub sum-append : {A : Type 0} (f : A → ℕ) (xs ys : List A) → sum f (xs ++ ys) ≡ sum f xs + sum f ys
unfolding sum
sum-append f [] ys = omega arith
sum-append f (x ∷ xs) ys = omega (arith, sum-append f xs ys)

-- The lists have the same elements, each as often in one as in the other: every measure of the
-- elements has the same sum.
abbrev pub SameElements : {A : Type 0} → List A → List A → Type 0
SameElements {A = A} xs ys = (f : A → ℕ) → sum f xs ≡ sum f ys

abbrev pub Task : Type 0
Task = Option ℕ × Event

abbrev pub Send : Type 0
Send = Option ℕ × Effect

-- The bridge after the tasks have run one after the other, what is left of them, and their sends.
unfoldable pub end_of : Host → List Task → Bridge → Bridge
end_of h [] b = b
end_of h ((o, e) ∷ es) b = end_of h es (handle h e b).0

unfoldable pub rests : Host → List Task → Bridge → List Task
rests h [] b = []
rests h ((o, e) ∷ es) b = map (λ (d : Event). (o, d)) (rest_of e b) ++ rests h es (handle h e b).0

unfoldable pub effects : Host → List Task → Bridge → List Send
effects h [] b = []
effects h ((o, e) ∷ es) b =
    map (λ (f : Effect). (o, f)) (handle h e b).1 ++ effects h es (handle h e b).0

unfoldable pub to_erssi_only : List Send → List WebMessage
to_erssi_only [] = []
to_erssi_only ((o, to_erssi msg) ∷ fs) = msg ∷ to_erssi_only fs
to_erssi_only ((o, f) ∷ fs) = to_erssi_only fs

module _ (h : Host) (o : Option ℕ) (e : Event) where
  pub end_of_snoc :
      (es : List Task) (b : Bridge)
      → end_of h (es ++ ((o, e) ∷ [])) b ≡ (handle h e (end_of h es b)).0
  unfolding end_of
  end_of_snoc [] b = refl
  end_of_snoc ((o', d) ∷ es) b = end_of_snoc es (handle h d b).0

  pub rests_snoc :
      (f : Task → ℕ) (es : List Task) (b : Bridge)
      → sum f (rests h (es ++ ((o, e) ∷ [])) b)
        ≡ sum f (rests h es b) + sum f (map (λ (d : Event). (o, d)) (rest_of e (end_of h es b)))
  unfolding end_of rests sum
  rests_snoc f [] b = omega (arith, sum-append f (map (λ (d : Event). (o, d)) (rest_of e b)) [])
  rests_snoc f ((o', d) ∷ es) b =
      let now : List Task = map (λ (d : Event). (o', d)) (rest_of d b) in
      let b' = (handle h d b).0 in
      omega (
        arith,
        rests_snoc f es b',
        sum-append f now (rests h (es ++ ((o, e) ∷ [])) b'),
        sum-append f now (rests h es b'),
      )

  pub effects_snoc :
      (g : Send → ℕ) (es : List Task) (b : Bridge)
      → sum g (effects h (es ++ ((o, e) ∷ [])) b)
        ≡ sum g (effects h es b)
          + sum g (map (λ (f : Effect). (o, f)) (handle h e (end_of h es b)).1)
  unfolding end_of effects sum
  effects_snoc g [] b =
      omega (arith, sum-append g (map (λ (f : Effect). (o, f)) (handle h e b).1) [])
  effects_snoc g ((o', d) ∷ es) b =
      let now : List Send = map (λ (f : Effect). (o', f)) (handle h d b).1 in
      let b' = (handle h d b).0 in
      omega (
        arith,
        effects_snoc g es b',
        sum-append g now (effects h (es ++ ((o, e) ∷ [])) b'),
        sum-append g now (effects h es b'),
      )

module _ {E W : Type 0} (v : World E W) where
  -- The tasks that a step brings, the task that it runs and the send that it does.
  abbrev pub brings : {s t : System W} → Step v s t → List Task
  brings (reads_line k p line random found there) =
      map (task_of k) (handle_command v.write random line p.client).2
  brings (receives f m read) = (none, from_erssi m) ∷ []
  brings _ = []

  abbrev pub ran_by : {s t : System W} → Step v s t → List Task
  ran_by (runs before after o e waiting) = (o, e) ∷ []
  ran_by _ = []

  abbrev pub went_by : {s t : System W} → Step v s t → List Send
  went_by (sends before after o f waiting) = (o, f) ∷ []
  went_by _ = []

  unfoldable pub arrived : {s : System W} → Reach v s → List Task
  arrived start = []
  arrived (next reached running step) = arrived reached ++ brings step

  unfoldable pub ran : {s : System W} → Reach v s → List Task
  ran start = []
  ran (next reached running step) = ran reached ++ ran_by step

  unfoldable pub went : {s : System W} → Reach v s → List Send
  went start = []
  went (next reached running step) = went reached ++ went_by step

-- The bridge and the messages to erssi are those of the tasks that ran, in their order, and no task
-- and no send is lost, made up or doubled.
pub record Conserves {E W : Type 0} (v : World E W) (s : System W) (came done : List Task)
    (out : List Send) : Type 0 where
  pub bridge : s.bridge ≡ end_of v.host done new_bridge
  pub tasks : SameElements (done ++ s.tasks) (came ++ rests v.host done new_bridge)
  pub effects : SameElements (out ++ s.sends) (effects v.host done new_bridge)
  pub sent : s.sent ≡ to_erssi_only out
