-- ===== src/System/Hurried.antt =====
-- internal/weechat/server.go and internal/bridge/bridge.go: each command is handled in a goroutine of its own,
-- so that of two lines that a client types the second can reach erssi before the first.
use mathlib.Core.Path.{subst}
use erssi_lith_bridge.Base.{
  ◌≡◌, ◌≢◌, refl, sym, ap, ◌∙◌, true, ℕ, List, [], ◌∷◌, ◌++◌, append-nil, append_assoc, map, Option,
  some, Bytes, ok, get_elem?,
}
use erssi_lith_bridge.Base.Text.{codes, Lacks, to_lower, join, fields}
use erssi_lith_bridge.Base.Assoc.{lookup}
use erssi_lith_bridge.Erssi.Types.{WebMessage, message, zero_message}
use erssi_lith_bridge.Translator.State.{BufferState, Host, buffer_key}
use erssi_lith_bridge.Translator.Identity.{IsTicking}
use erssi_lith_bridge.Bridge.State.{Effect, to_erssi}
use erssi_lith_bridge.Bridge.Events.{Event, from_client, handle, rest_of}
use erssi_lith_bridge.Weechat.Session.{Handled, handle_command}
use erssi_lith_bridge.Weechat.Server.{Peer, after_line}
use erssi_lith_bridge.Weechat.Peers.{get_elem?-modify_self}
use erssi_lith_bridge.System.State.{System, take_line, run_task, deliver}
use erssi_lith_bridge.System.Steps.{World, Step, reads_line, runs, sends, Reach}
use erssi_lith_bridge.System.Typing.{typed_line, typed_command}
use erssi_lith_bridge.System.Later.{Leads, stays, goes, typed_line_taken, typed_line_run}

abbrev pub typed_event : Bytes → Bytes → Event
typed_event ptr text = from_client [] (codes "input") (ptr ∷ fields text)

-- The message that a typed text becomes.
abbrev pub typed_message : Host → Bytes → Bytes → Bytes → WebMessage
typed_message h tag target text = record (zero_message message) {
  server_tag = tag;
  target = to_lower h.unicode_lower target;
  text = join (fields text) (codes " ");
}

-- A line that client k typed waits as a task.
abbrev after_typing : {E W : Type 0} → World E W → ℕ → Peer W → Bytes → Bytes → System W → System W
after_typing {E = E} v k p ptr text s =
    take_line {E = E} v.close k (ok tt, p.client, typed_command ptr text ∷ []) s

-- What the goroutine of a typed text asks for is sent by itself.
module _ {E W : Type 0} (v : World E W) (k : ℕ) where
  run_typed :
      (s t : System W) (before after : List (Option ℕ × Event)) (ptr text : Bytes)
      (msg : WebMessage)
      → Leads v s t
      → t.running ≡ true
      → t.tasks ≡ before ++ ((some k, typed_event ptr text) ∷ after)
      → (handle v.host (typed_event ptr text) t.bridge).1 ≡ to_erssi msg ∷ []
      → let u = run_task v.host (some k) (typed_event ptr text) (before ++ after) t in
        Leads v s u
        × (u.running ≡ true)
        × (u.tasks ≡ before ++ after)
        × (u.sends ≡ t.sends ++ ((some k, to_erssi msg) ∷ []))
        × (u.sent ≡ t.sent)
  unfolding run_task rest_of
  run_typed s t before after ptr text msg way on waiting sent = (
    goes way on (runs before after (some k) (typed_event ptr text) waiting),
    on,
    append-nil (before ++ after),
    ap (λ (out : List Effect). t.sends ++ map (λ (f : Effect). (some k, f)) out) sent,
    refl,
  )

  send_waiting :
      (s t : System W) (before after : List (Option ℕ × Effect)) (msg : WebMessage)
      → Leads v s t
      → t.running ≡ true
      → t.sends ≡ before ++ ((some k, to_erssi msg) ∷ after)
      → (u : System W) × Leads v s u
        × (u.running ≡ true)
        × (u.sends ≡ before ++ after)
        × (u.sent ≡ t.sent ++ (msg ∷ []))
  unfolding deliver
  send_waiting s t before after msg way on waiting = (
    deliver v.write (some k) (to_erssi msg) (record t { sends = before ++ after }),
    goes way on (sends before after (some k) (to_erssi msg) waiting),
    on,
    refl,
    refl,
  )

  type_line :
      (s t : System W) (p : Peer W) (ptr text : Bytes) (random : Option Bytes)
      → Leads v s t
      → t.running ≡ true
      → get_elem? t.peers k ≡ some p
      → p.registered ≡ true
      → handle_command v.write random (typed_line ptr text) p.client
        ≡ (ok tt, p.client, typed_command ptr text ∷ [])
      → let u = after_typing v k p ptr text t in
        Leads v s u
        × (u.running ≡ true)
        × (get_elem? u.peers k ≡ some p)
        × (u.tasks ≡ t.tasks ++ ((some k, typed_event ptr text) ∷ []))
  unfolding take_line after_line
  type_line s t p ptr text random way on there registered taken = (
    goes way on (
        subst (λ (handled : Handled E W). Step v t (take_line v.close k handled t)) taken
          (reads_line k p (typed_line ptr text) random there registered)),
    on,
    get_elem?-modify_self
        (after_line {E = E} v.close (ok tt, p.client, typed_command ptr text ∷ [])) k t.peers p
        there,
    refl,
  )

  -- Of two tasks that each send erssi one message, the second is run and sent first.
  overtaken :
      (u : System W) (ts : List (Option ℕ × Event)) (ptr text text' : Bytes)
      (first second : WebMessage)
      → u.running ≡ true
      → u.tasks ≡ ts ++ ((some k, typed_event ptr text) ∷ (some k, typed_event ptr text') ∷ [])
      → ((t : System W)
          → Leads v u t
          → (handle v.host (typed_event ptr text) t.bridge).1 ≡ to_erssi first ∷ [])
      → ((t : System W)
          → Leads v u t
          → (handle v.host (typed_event ptr text') t.bridge).1 ≡ to_erssi second ∷ [])
      → (t : System W) × Leads v u t × (t.sent ≡ u.sent ++ (second ∷ first ∷ []))
  overtaken u ts ptr text text' first second on waiting made made' =
      let task : Option ℕ × Event = (some k, typed_event ptr text) in
      let task' : Option ℕ × Event = (some k, typed_event ptr text') in
      let one : Option ℕ × Effect = (some k, to_erssi first) in
      let two : Option ℕ × Effect = (some k, to_erssi second) in
      let a = run_task v.host (some k) (typed_event ptr text') ((ts ++ (task ∷ [])) ++ []) u in
      let (way1, on1, tasks1, sends1, sent1) =
        run_typed u u (ts ++ (task ∷ [])) [] ptr text' second stays on
          (waiting ∙ sym (append_assoc ts (task ∷ []) (task' ∷ []))) (made' u stays) in
      let c = run_task v.host (some k) (typed_event ptr text) (ts ++ []) a in
      let (way2, on2, tasks2, sends2, sent2) =
        run_typed u a ts [] ptr text first way1 on1 (tasks1 ∙ append-nil (ts ++ (task ∷ [])))
          (made a way1) in
      let (d, way3, on3, sends3, sent3) = send_waiting u c u.sends (one ∷ []) second way2 on2 (
        sends2
        ∙ ap (λ (fs : List (Option ℕ × Effect)). fs ++ (one ∷ [])) sends1
        ∙ append_assoc u.sends (two ∷ []) (one ∷ [])) in
      let (t, way4, on4, sends4, sent4) = send_waiting u d u.sends [] first way3 on3 sends3 in
      (
        t,
        way4,
        sent4
            ∙ ap (λ (ms : List WebMessage). ms ++ (first ∷ []))
                (sent3 ∙ ap (λ (ms : List WebMessage). ms ++ (second ∷ [])) (sent2 ∙ sent1))
            ∙ append_assoc u.sent (second ∷ []) (first ∷ []),
      )

then-Leads :
    {E W : Type 0} (v : World E W) (s t u : System W) → Leads v s t → Leads v t u → Leads v s u
then-Leads v s t u way stays = way
then-Leads v s t u way (goes {t = r} more on step) = goes (then-Leads v s t r way more) on step

module _ {E W : Type 0} (v : World E W) where
  -- A client that is authenticated types two texts that are not blank into a buffer of a server and a
  -- target. The program can come to read both lines, in their order, and then to send erssi the second
  -- text before the first. The server's tag must be without a dot and not empty, and no two readings of
  -- the clock are equal.
  pub typed_lines_overtake :
      (s : System W) (k : ℕ) (p : Peer W) (random : Option Bytes)
      (tag target text text' w w' : Bytes) (ws ws' : List Bytes) (b : BufferState)
      → IsTicking v.host
      → Reach v s
      → s.running ≡ true
      → get_elem? s.peers k ≡ some p
      → p.registered ≡ true
      → p.client.authenticated ≡ true
      → lookup (buffer_key v.host tag target) s.bridge.translator.buffers ≡ some b
      → Lacks b'.' tag
      → tag ≢ []
      → fields text ≡ w ∷ ws
      → fields text' ≡ w' ∷ ws'
      → let first = typed_message v.host tag target text in
        let second = typed_message v.host tag target text' in
        (u : System W) × Leads v s u
        × (u.tasks
            ≡ s.tasks
              ++ ((some k, typed_event b.pointer text)
                  ∷ (some k, typed_event b.pointer text')
                  ∷ []))
        × ((t : System W) × Leads v u t × (t.sent ≡ s.sent ++ (second ∷ first ∷ [])))
  unfolding take_line
  typed_lines_overtake s k p random tag target text text' w w' ws ws' b ticking reach on there
        registered authenticated found lacks nonempty spoken spoken' =
      let first = typed_message v.host tag target text in
      let second = typed_message v.host tag target text' in
      let task : Option ℕ × Event = (some k, typed_event b.pointer text) in
      let task' : Option ℕ × Event = (some k, typed_event b.pointer text') in
      let s1 = after_typing v k p b.pointer text s in
      let u = after_typing v k p b.pointer text' s1 in
      let (way1, on1, there1, tasks1) =
        type_line v k s s p b.pointer text random stays on there registered (
          typed_line_taken v s tag target text w ws b random p ticking authenticated reach found
            lacks nonempty spoken) in
      let (way2, on2, there2, tasks2) =
        type_line v k s s1 p b.pointer text' random way1 on1 there1 registered (
          typed_line_taken v s tag target text' w' ws' b random p ticking authenticated reach found
            lacks nonempty spoken') in
      let waiting =
        tasks2
        ∙ ap (λ (ts : List (Option ℕ × Event)). ts ++ (task' ∷ [])) tasks1
        ∙ append_assoc s.tasks (task ∷ []) (task' ∷ []) in
      (
        u,
        way2,
        waiting,
        overtaken v k u s.tasks b.pointer text text' first second on2 waiting
            (λ t way.
              typed_line_run v s t tag target text w ws b random p ticking authenticated reach found
                (then-Leads v s u t way2 way) lacks nonempty spoken)
            (λ t way.
              typed_line_run v s t tag target text' w' ws' b random p ticking authenticated reach
                found (then-Leads v s u t way2 way) lacks nonempty spoken'),
      )
